-- ===== src/Management/WriteRead.antt =====
-- lwm2m_device_management.c: what was written to a resource is what a read then answers.
use lynx_lwm2m.Base.{
  All, ◌++◌, [], ◌∷◌, false, ℕ, suc, ◌≡◌, ◌≤◌, refl, true, Option, none, some, List, arith, length,
  get_elem?, ◌==◌, ℤ, pos, ok,
}
use lynx_lwm2m.Items.{Items, list_new}
use lynx_lwm2m.Model.{
  string, string_value, Value, Resource, Instance, Object, Server, Context, Response, op_read,
  op_write, code_changed,
}
use lynx_lwm2m.Libc.{Libc}
use lynx_lwm2m.Cell.{set_value}
use lynx_lwm2m.Tlv.Value.{parse_value_text}
use lynx_lwm2m.Tlv.Value.RoundTrip.{read_string-append, serialize_resource_text_short}
use lynx_lwm2m.Tlv.Parse.{parse_resource, create_resource, address}
use lynx_lwm2m.AccessControl.{check_instance_access_control, check_resource_operation_supported}
use lynx_lwm2m.Object.Merge.{
  Place, find_place, put_place, merge_resource, merge_values, add_servers, notify_instance_object,
}
use lynx_lwm2m.Object.Places.{
  IsPlace, IsUnobserved, placed, find_place-IsPlace, put_place-IsPlace, resource_level_loop-none,
  merge_resource-run, notify_instance_object-none,
}
use lynx_lwm2m.Reporting.{wants_notify}
use lynx_lwm2m.Reporting.Notify.{should_notify-wanting}
use lynx_lwm2m.Management.{lock_tree, unlock_tree, free_parsed_resource, on_resource_write}
use lynx_lwm2m.Management.Read.{read_callback, read_response, on_resource_read}

-- A single string resource without callbacks, of a definition of the same shape, and a text that it
-- can take and that the text format answers whole.
pub record IsText (place : Place) (k : ℕ) (definition : Resource) (text : List ℕ) : Type 0 where
  pub defined : get_elem? place.object.resource_def k ≡ some definition
  pub definition_kind : definition.kind ≡ string
  pub definition_single : definition.multiple ≡ false
  pub kind_eq : place.resource.kind ≡ string
  pub live : place.resource.freed ≡ false
  pub is_single : place.resource.multiple ≡ false
  pub no_instances : place.resource.instances ≡ none
  pub no_read_callback : place.resource.read_callback ≡ none
  pub no_write_callback : place.resource.write_callback ≡ none
  pub no_zero : All (λ b. (b == 0) ≡ false) text
  pub short : length text ≤ 30

-- The resource with the text as its value.
abbrev pub with_text : Resource → List ℕ → Resource
with_text resource text = record resource {
  cell = record (resource.cell) {
    value = some (string_value (text ++ 0 ∷ []));
    length = pos (length text);
  };
}

module _ (c : Libc) (place : Place) (k : ℕ) (definition : Resource) (text : List ℕ)
    (v : IsText place k definition text) where
  parse_text :
      (fuel : ℕ) (rest : List ℕ) (len : ℤ)
      → parse_resource c fuel place.object (pos k) (text ++ 0 ∷ rest) len
        ≡ ok (with_text definition text)
  unfolding parse_resource create_resource address parse_value_text set_value
  parse_text fuel rest len = ground (
    arith,
    v.defined,
    v.definition_kind,
    v.definition_single,
    read_string-append text rest v.no_zero,
  )

  text_wanted :
      (old_value : Option Value) (server : Server)
      → wants_notify c
          (with_text place.resource text)
          old_value
          (some (string_value (text ++ 0 ∷ [])))
          server
        ≡ ok true
  unfolding wants_notify
  text_wanted old_value server = ground (arith, v.kind_eq)

  merge_text :
      (context : Context)
      → (servers : Items Server) × (merge_values c context place.resource
            (with_text definition text)
            true
          ≡ ok (with_text place.resource text, servers))
  unfolding merge_values set_value
  merge_text context =
      let old = place.resource.value in
      let (l, run, all) =
        should_notify-wanting c (with_text place.resource text) old
          (some (string_value (text ++ 0 ∷ []))) context (λ server. true) (text_wanted old) in
      (
        add_servers l.first list_new,
        ground (arith, v.is_single, v.kind_eq, read_string-append text [] v.no_zero, run),
      )

  module _ (context : Context) (o i : ℤ) (at : IsPlace context o i (pos k) place)
      (unobserved : IsUnobserved place) where
    merge_resource-text :
        (now : ℤ)
        → (servers : Items Server) × (merge_resource c now context o i
              (pos k)
              (with_text definition text)
              true
              true
            ≡ ok (put_place context place (with_text place.resource text), servers))
    merge_resource-text now =
        let written = with_text place.resource text in
        let (servers, merged) = merge_text context in
        let found = find_place-IsPlace context o i (pos k) place at in
        let after = put_place context place written in
        let found2 =
          find_place-IsPlace after o i (pos k) (placed place written)
            (put_place-IsPlace context o i (pos k) place written at at.resource_id) in
        let quiet =
          resource_level_loop-none now after (placed place written) servers.first
            unobserved.by_resource in
        (
          servers,
          merge_resource-run c now context after o i (pos k) (with_text definition text) place
              (placed place written) written written servers found merged
              (rw v.no_write_callback refl) found2 quiet,
        )

-- A single server has all rights.
check_single :
    (context : Context) (server : Server) (object : Object) (i : Instance) (operation : ℕ)
    → (context.servers.size == 1) ≡ true
    → check_instance_access_control context server object i operation ≡ ok true
unfolding check_instance_access_control
check_single context server object i operation single = rw single refl

IsPlace-lock :
    (context : Context) (n : ℕ) (o i r : ℤ) (place : Place)
    → IsPlace context o i r place
    → IsPlace (record context { object_tree_lock = n }) o i r place
IsPlace-lock context n o i r place at = record {
  object_found = at.object_found;
  instance_found = at.instance_found;
  resource_found = at.resource_found;
  object_id = at.object_id;
  instance_id = at.instance_id;
  resource_id = at.resource_id;
}

-- A write by its steps.
on_resource_write-run :
    (c : Libc) (fuel : ℕ) (now : ℤ) (context c1 c2 c3 : Context) (server : Server) (o i r : ℤ)
    (message : List ℕ) (place merged merged2 : Place) (parsed : Resource) (servers : Items Server)
    → lock_tree context ≡ ok c1
    → find_place c1 o i r ≡ ok place
    → check_instance_access_control c1 server place.object place.instance' op_write ≡ ok true
    → check_resource_operation_supported place.resource op_write ≡ true
    → parse_resource c fuel place.object place.resource.id message (pos (length message))
      ≡ ok parsed
    → merge_resource c now c1 o i r parsed true true ≡ ok (c2, servers)
    → find_place c2 o i r ≡ ok merged
    → notify_instance_object now c2 merged.object merged.instance' servers ≡ ok c3
    → find_place c3 o i r ≡ ok merged2
    → on_resource_write c fuel now context server o i r message
      ≡ ok (
        unlock_tree (put_place c3 merged2 (free_parsed_resource place.resource merged2.resource)),
        code_changed,
      )
unfolding on_resource_write
on_resource_write-run c fuel now context c1 c2 c3 server o i r message place merged merged2 parsed
      servers lock found granted supported parses merges found2 told found3 =
    rw (lock, found, granted, supported, parses, merges, found2, told, found3) refl

-- A read by its steps.
on_resource_read-run :
    (c : Libc) (context c1 : Context) (server : Server) (o i r : ℤ) (place : Place)
    (resource : Resource) (response : Response)
    → lock_tree context ≡ ok c1
    → find_place c1 o i r ≡ ok place
    → check_instance_access_control c1 server place.object place.instance' op_read ≡ ok true
    → check_resource_operation_supported place.resource op_read ≡ true
    → read_callback place.resource ≡ resource
    → read_response c resource ≡ ok response
    → on_resource_read c context server o i r
      ≡ ok (unlock_tree (put_place c1 place resource), response)
unfolding on_resource_read
on_resource_read-run c context c1 server o i r place resource response lock found granted supported
      called answer =
    rw (lock, found, granted, supported, called, answer) refl

read_callback-none :
    (resource : Resource) → resource.read_callback ≡ none → read_callback resource ≡ resource
unfolding read_callback
read_callback-none resource h = rw h refl

read_response-text :
    (c : Libc) (resource : Resource) (text : List ℕ)
    → resource.multiple ≡ false
    → resource.kind ≡ string
    → resource.freed ≡ false
    → resource.value ≡ some (string_value (text ++ 0 ∷ []))
    → resource.length ≡ pos (length text)
    → length text ≤ 30
    → read_response c resource
      ≡ ok (record { content_type = 1; response_code = code_changed; payload = text })
unfolding read_response
read_response-text c resource text single kind live value long short =
    let sent = serialize_resource_text_short c text (resource.cell) live kind value long short in
    rw (single, sent, kind) refl

module _ (c : Libc) (fuel : ℕ) (context : Context) (server : Server) (o i : ℤ) (k n : ℕ)
    (place : Place) (definition : Resource) (text rest : List ℕ) where
  -- In a context with one server and the lock free, for a single string resource that supports
  -- WRITE and READ, has no callbacks and is observed by nobody, and a payload of a text of at most 30
  -- bytes without a zero byte, then a zero byte, then anything: the write answers 204, a read then
  -- answers with the text, and the lock is free after both.
  pub on_resource_read-on_resource_write :
      (now : ℤ)
      → (context.servers.size == 1) ≡ true
      → context.object_tree_lock ≡ suc n
      → IsPlace context o i (pos k) place
      → IsUnobserved place
      → IsText place k definition text
      → check_resource_operation_supported place.resource op_write ≡ true
      → check_resource_operation_supported place.resource op_read ≡ true
      → (after : Context) × (final : Context) × (on_resource_write c fuel now context server o i
            (pos k)
            (text ++ 0 ∷ rest)
          ≡ ok (after, code_changed))
        × (after.object_tree_lock ≡ suc n)
        × (on_resource_read c after server o i (pos k)
            ≡ ok (final, record { content_type = 1; response_code = code_changed; payload = text }))
        × (final.object_tree_lock ≡ suc n)
  unfolding lock_tree unlock_tree put_place check_resource_operation_supported free_parsed_resource
  on_resource_read-on_resource_write now single free at unobserved v writes reads =
      let c1 = record context { object_tree_lock = n } in
      let at1 = IsPlace-lock context n o i (pos k) place at in
      let written = with_text place.resource text in
      let (servers, merges) =
        merge_resource-text c place k definition text v c1 o i at1 unobserved now in
      let c2 = put_place c1 place written in
      let p2 = placed place written in
      let at2 = put_place-IsPlace c1 o i (pos k) place written at1 at.resource_id in
      let found2 = find_place-IsPlace c2 o i (pos k) p2 at2 in
      let told =
        notify_instance_object-none now c2 p2.object p2.instance' servers unobserved.by_object
          unobserved.by_instance in
      let freed = free_parsed_resource place.resource written in
      let c3 = put_place c2 p2 freed in
      let p3 = placed p2 freed in
      let at3 = put_place-IsPlace c2 o i (pos k) p2 freed at2 at.resource_id in
      let after = unlock_tree c3 in
      (
        after,
        unlock_tree (put_place c3 p3 freed),
        on_resource_write-run c fuel now context c1 c2 c2 server o i (pos k) (text ++ 0 ∷ rest)
            place p2 p2 (with_text definition text) servers (rw free refl)
            (find_place-IsPlace c1 o i (pos k) place at1)
            (check_single c1 server place.object place.instance' op_write single) writes
            (rw at.resource_id (parse_text c place k definition text v fuel rest _)) merges found2
            told found2,
        refl,
        on_resource_read-run c after c3 server o i (pos k) p3 freed
            (record { content_type = 1; response_code = code_changed; payload = text }) refl
            (find_place-IsPlace c3 o i (pos k) p3 at3)
            (check_single c3 server p3.object p3.instance' op_read single) reads
            (read_callback-none freed v.no_read_callback)
            (read_response-text c freed text v.is_single v.kind_eq v.live refl refl v.short),
        refl,
      )
