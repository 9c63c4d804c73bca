-- ===== src/Transport/Frames/Notify.antt =====
-- lwm2m_object.c: the list of servers while the tree is merged and observers are notified.
use lynx_lwm2m.Base.{◌≡◌, Bool, Option, List, [], ◌∷◌, ℤ, Run, Option-cases, inl, inr}
use lynx_lwm2m.Items.{Items, lfind}
use lynx_lwm2m.Model.{Server, Context, Object, Instance, Resource, TaskPtr}
use lynx_lwm2m.Libc.{Libc}
use lynx_lwm2m.Object.{put_object}
use lynx_lwm2m.Object.Merge.{
  Place, put_place, notify_observer, notify_instance_loop, notify_instance_object, find_instance,
  find_place, merge_values, after_callback, resource_level_loop, merge_resource,
  merge_resources_loop, merge_resources,
}
use lynx_lwm2m.Transport.Frames.{
  Keeps, KeepsFirst, Keeps-bind, KeepsFirst-bind, returns_rules, Returns-after, Returns-ok,
}

notify_observer-Keeps :
    (servers : Items Server) (now : ℤ) (context : Context) (server : Server)
    (observers : Items TaskPtr) (pmin : Run (Option ℤ)) (arg : Option ℤ)
    → context.servers ≡ servers
    → Keeps servers (notify_observer now context server observers pmin arg)
unfolding notify_observer
notify_observer-Keeps servers now context server observers pmin arg h =
    elim (Option-cases (lfind observers server.short_server_id)) [
      | inl e ↦ rw e (search returns_rules depth 12)
      | inr (p, e) ↦ rw e (search returns_rules depth 12)
    ]

notify_instance_loop-Keeps :
    (servers : Items Server) (now : ℤ) (context : Context) (object : Object) (i : Instance)
    (list : List (ℤ × Server))
    → context.servers ≡ servers
    → Keeps servers (notify_instance_loop now context object i list)
unfolding notify_instance_loop
notify_instance_loop-Keeps servers now context object i [] h = search returns_rules
notify_instance_loop-Keeps servers now context object i ((key, server) ∷ next) h =
    Keeps-bind _ servers _ _ (notify_observer-Keeps servers now context server _ _ _ h) (λ c h.
      Keeps-bind _ servers _ _ (notify_observer-Keeps servers now c server _ _ _ h)
        (λ c h. notify_instance_loop-Keeps servers now c object i next h))

pub notify_instance_object-Keeps :
    (servers : Items Server) (now : ℤ) (context : Context) (object : Object) (i : Instance)
    (list : Items Server)
    → context.servers ≡ servers
    → Keeps servers (notify_instance_object now context object i list)
unfolding notify_instance_object
notify_instance_object-Keeps servers now context object i list =
    notify_instance_loop-Keeps servers now context object i list.first

resource_level_loop-Keeps :
    (servers : Items Server) (now : ℤ) (context : Context) (place : Place)
    (list : List (ℤ × Server))
    → context.servers ≡ servers
    → Keeps servers (resource_level_loop now context place list)
unfolding resource_level_loop
resource_level_loop-Keeps servers now context place [] h = search returns_rules
resource_level_loop-Keeps servers now context place ((key, server) ∷ next) h =
    Keeps-bind _ servers _ _ (notify_observer-Keeps servers now context server _ _ _ h)
      (λ c h. resource_level_loop-Keeps servers now c place next h)

module _ (c : Libc) (servers : Items Server) (now : ℤ) (o i : ℤ) (call_callback notify : Bool) where
  pub merge_resource-Keeps :
      (context : Context) (r : ℤ) (new : Resource)
      → context.servers ≡ servers
      → KeepsFirst servers (merge_resource c now context o i r new call_callback notify)
  unfolding merge_resource put_place put_object
  merge_resource-Keeps context r new h = Returns-after _ (find_place context o i r) _ (λ place.
      Returns-after _ (merge_values c context place.resource new notify) _ (λ (resource, found).
        let merged = after_callback c call_callback resource.write_callback resource in
        Returns-after _ (find_place (put_place context place merged) o i r) _ (λ place.
          Keeps-bind _ servers _ _ (resource_level_loop-Keeps servers now _ place found.first h)
            (λ c h. Returns-ok _ (c, found) h))))

  merge_resources_loop-Keeps :
      (context : Context) (news : List (ℤ × Resource)) (found : Items Server)
      → context.servers ≡ servers
      → KeepsFirst servers (merge_resources_loop c now context o i news call_callback notify found)
  unfolding merge_resources_loop
  merge_resources_loop-Keeps context [] found h = search returns_rules
  merge_resources_loop-Keeps context ((key, new) ∷ next) found h =
      KeepsFirst-bind _ servers _ _ (merge_resource-Keeps context key new h)
        (λ result h. merge_resources_loop-Keeps result.0 next _ h)

  pub merge_resources-Keeps :
      (context : Context) (news : Items Resource)
      → context.servers ≡ servers
      → Keeps servers (merge_resources c now context o i news call_callback notify)
  unfolding merge_resources
  merge_resources-Keeps context news h =
      KeepsFirst-bind _ servers _ _ (merge_resources_loop-Keeps context news.first _ h) (λ result h.
        Returns-after _ (find_instance result.0 o i) _
          (λ found. notify_instance_object-Keeps servers now _ _ _ _ h))
