-- ===== src/Reporting/Notify.antt =====
-- lwm2m_information_reporting.c: `should_notify`.
use lynx_lwm2m.Base.{
  ◌<◌, ◌^◌, ℕ, none, some, pos, abs, ◌-ℤ◌, ◌≡◌, refl, ◌∙◌, Bool, true, false, not, ◌||◌, ◌&&◌,
  Option, is_some, List, [], ◌∷◌, arith, if◌then◌else◌, ◌==ℤ◌, ℤ, ok,
}
use lynx_lwm2m.Items.{Items, lfind, list_new, ladd, lcontains, contains_from}
use lynx_lwm2m.Model.{integer, int_value, Attributes, Resource, Server, Context, Value}
use lynx_lwm2m.Attribute.{field_of, get_resource_gt, get_resource_lt, get_resource_stp}
use lynx_lwm2m.Libc.{Libc}
use lynx_lwm2m.Reporting.{
  should_notify, should_notify_loop, wants_notify, fulfill_gt, fulfill_lt, fulfill_stp,
}

-- Whether the identifier is that of a server with a yes.
unfoldable pub any_wanting : (Server → Bool) → List (ℤ × Server) → ℤ → Bool
any_wanting wants [] j = false
any_wanting wants ((key, server) ∷ l) j =
    (wants server && (server.short_server_id ==ℤ j)) || any_wanting wants l j

module _ (c : Libc) (resource : Resource) (old_value new_value : Option Value) where
  loop_wanting :
      (wants : Server → Bool)
      → ((server : Server) → wants_notify c resource old_value new_value server ≡ ok (wants server))
      → (servers : List (ℤ × Server)) (acc : Items Server)
      → (l : Items Server) × (should_notify_loop c servers resource old_value new_value acc ≡ ok l)
        × ((j : ℤ) → lcontains l j ≡ (any_wanting wants servers j || lcontains acc j))
  unfolding should_notify_loop any_wanting lcontains contains_from ladd
  loop_wanting wants h [] acc = (acc, refl, λ j. refl)
  loop_wanting wants h ((key, server) ∷ servers) acc =
      let next = if wants server then ladd acc server.short_server_id server else acc in
      let (l, run, all) = loop_wanting wants h servers next in
      (l, rw (h server) run, λ j. all j ∙ step (wants server) (any_wanting wants servers j) j)
    where
      step :
          (w b : Bool) (j : ℤ)
          → (b || lcontains (if w then ladd acc server.short_server_id server else acc) j)
            ≡ (((w && (server.short_server_id ==ℤ j)) || b) || lcontains acc j)
      step w b j = ground arith

  -- If for each server the conditions on its attributes come to the answer `wants`, the function
  -- returns a list that holds exactly the identifiers of the context's servers with a yes.
  pub should_notify-wanting :
      (context : Context) (wants : Server → Bool)
      → ((server : Server) → wants_notify c resource old_value new_value server ≡ ok (wants server))
      → (l : Items Server) × (should_notify c context resource old_value new_value ≡ ok l)
        × ((j : ℤ) → lcontains l j ≡ any_wanting wants context.servers.first j)
  unfolding should_notify lcontains contains_from
  should_notify-wanting context wants h =
      let (l, run, all) = loop_wanting wants h context.servers.first list_new in
      (l, run, λ j. all j ∙ or_new (any_wanting wants context.servers.first j) j)
    where
      or_new : (b : Bool) (j : ℤ) → (b || lcontains (list_new {V = Server}) j) ≡ b
      or_new b j = ground arith

  -- A change from NULL or to NULL, but not both, notifies every server of the context, whatever
  -- the attributes and the resource's kind are.
  should_notify-null :
      (context : Context)
      → (is_some old_value ≡ not (is_some new_value))
      → (l : Items Server) × (should_notify c context resource old_value new_value ≡ ok l)
        × ((j : ℤ) → lcontains l j ≡ any_wanting (λ server. true) context.servers.first j)
  unfolding wants_notify
  should_notify-null context h = should_notify-wanting context (λ server. true) (wanted h)
    where
      wanted :
          (is_some old_value ≡ not (is_some new_value))
          → (server : Server) → wants_notify c resource old_value new_value server ≡ ok true
      wanted h server = ground arith

  -- Whether a condition on an attribute holds for a server, or the server has not set the attribute.
  abbrev pub unless_set : Option ℕ → (ℕ → Bool) → Bool
  unless_set none holds = true
  unless_set (some attribute) holds = holds attribute

  -- The server's attributes for the resource.
  abbrev pub attribute_of : (Attributes → Option ℕ) → Server → Option ℕ
  attribute_of field server = field_of field (lfind resource.attributes server.short_server_id)

  -- Whether a change of an integer from `a` to `b` is to be told to a server: the new number is above
  -- its "gt", below its "lt", and further than its "stp" from the old one, as far as these are set.
  abbrev pub told_of_change : (a b : ℤ) → Server → Bool
  told_of_change a b server =
      unless_set (attribute_of (λ attr. attr.gt) server) (λ gt. c.float_lt_int gt b)
      && unless_set (attribute_of (λ attr. attr.lt) server) (λ lt. c.int_lt_float b lt)
      && unless_set (attribute_of (λ attr. attr.stp) server)
          (λ stp. c.float_lt_int stp (pos (abs (a -ℤ b))))

  -- A change of an integer resource from a number to another, with a difference that an `int` holds:
  -- the function returns a list that holds
  -- exactly the identifiers of those servers of the context for which the new number is above the
  -- attribute gt, below lt, and away from the old number by more than stp, each where it is set.
  pub should_notify-integer :
      (context : Context) (a b : ℤ)
      → resource.kind ≡ integer
      → old_value ≡ some (int_value a)
      → new_value ≡ some (int_value b)
      → abs (a -ℤ b) < 2 ^ 31
      → (l : Items Server) × (should_notify c context resource old_value new_value ≡ ok l)
        × ((j : ℤ) → lcontains l j ≡ any_wanting (told_of_change a b) context.servers.first j)
  unfolding wants_notify get_resource_gt get_resource_lt get_resource_stp fulfill_gt fulfill_lt
      fulfill_stp
  should_notify-integer context a b kind old new _ =
      should_notify-wanting context (told_of_change a b) (λ server. wanted server)
    where
      wanted :
          (server : Server)
          → wants_notify c resource old_value new_value server ≡ ok (told_of_change a b server)
      wanted server = ground (arith, kind, old, new)
