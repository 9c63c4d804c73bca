-- ===== src/Tests/Operations.antt =====
-- The theorems on the operations of servers at concrete contexts.
use lynx_lwm2m.Management.Unended.{on_resource_write-unended}
use lynx_lwm2m.Management.Lock.{held}
use lynx_lwm2m.Management.{lock_tree}
use lynx_lwm2m.Base.{fault}
use lynx_lwm2m.Management.Lock.{on_read_refused_blocks}
use lynx_lwm2m.Management.{on_instance_write, on_instance_delete}
use lynx_lwm2m.Management.Read.{on_object_read}
use lynx_lwm2m.Management.Create.{on_instance_create}
use lynx_lwm2m.Model.{Server}
use lynx_lwm2m.Base.{blocked}
use lynx_lwm2m.Base.{
  ◌++◌, true, ℕ, ◌≡◌, ◌≢◌, refl, none, some, List, [], ◌∷◌, ℤ, pos, ◌==ℤ◌, if◌then◌else◌, ok, arith,
}
use lynx_lwm2m.Items.{Items, list_new, lfind, ladd, lremove, lcontains}
use lynx_lwm2m.Model.{
  Cell, Resource, Object, Context, code_unauthorized, code_changed, code_deleted, Instance, Server,
}
use lynx_lwm2m.AccessControl.{
  aco_for_instance, check_instance_access_control, check_resource_operation_supported,
}
use lynx_lwm2m.Object.Merge.{Place, find_place, merge_values}
use lynx_lwm2m.Reporting.{empty_response}
use lynx_lwm2m.Tlv.Serialize.{serialize_multiple_resource}
use lynx_lwm2m.Cell.{c_string}
use lynx_lwm2m.Management.{on_resource_write, on_instance_delete, free_parsed_resource}
use lynx_lwm2m.Management.Read.{on_resource_read, on_instance_read}
use lynx_lwm2m.Management.Create.{on_instance_create}
use lynx_lwm2m.Management.Delete.{on_instance_delete-granted}
use lynx_lwm2m.Management.Freed.{given_back, free_parsed_resource-dangling}
use lynx_lwm2m.Object.Places.{IsPlace}
use lynx_lwm2m.Management.WriteRead.{IsText, on_resource_read-on_resource_write}
use lynx_lwm2m.Tests.Data.{
  string_cell, single, instance_of, object_of, acl_of, libc, int_cell, several, level, secret,
  meter, meters, server, context_of, context, tree, names,
}

abbrev locked : Context
locked = context_of 0 tree

-- Where the level and the secret of the meter are.
abbrev level_place : Place
level_place = record { object = meters; instance' = meter; resource = level }

abbrev secret_place : Place
secret_place = record { object = meters; instance' = meter; resource = secret }

-- Server 20 may not read the meter.
on_read_refused_blocks_example :
    (after : Context) × (on_resource_read libc context (server (pos 20)) (pos 5) (pos 1) (pos 0)
      ≡ ok (after, empty_response code_unauthorized))
    × (on_instance_read context (server (pos 20)) (pos 5) (pos 1)
        ≡ ok (after, empty_response code_unauthorized))
    × ((now : ℤ) (server' : Server) (o' i' r' : ℤ) (message : List ℕ)
        → (on_resource_write libc 9 now after server' o' i' r' message ≡ blocked)
          × (on_instance_write libc 9 now after server' o' i' message ≡ blocked)
          × (on_instance_delete after server' o' i' ≡ blocked)
          × (on_resource_read libc after server' o' i' r' ≡ blocked)
          × (on_instance_read after server' o' i' ≡ blocked)
          × (on_object_read after server' o' ≡ blocked)
          × (on_instance_create libc 9 names now after server' o' i' message ≡ blocked))
unfolding find_place check_instance_access_control ladd lfind
on_read_refused_blocks_example =
    on_read_refused_blocks libc 9 names context (server (pos 20)) (pos 5) (pos 1) (pos 0)
      level_place refl refl refl

-- The meter with an entry that lets server 10 write, and a payload with the secret.
abbrev open_tree : Items Object
open_tree =
    ladd
      (ladd list_new (pos 2) (
        object_of (pos 2)
          (ladd list_new (pos 0)
            (acl_of (pos 1) (ladd list_new (pos 10) (int_cell (pos 10) (pos 31)))))
          []))
      (pos 5) meters

abbrev open_context : Context
open_context = context_of 1 open_tree

abbrev secret_payload : List ℕ
secret_payload = 0xc1 ∷ 1 ∷ 7 ∷ []

abbrev secret_parsed : Items Resource
secret_parsed = ladd list_new (pos 1) (record secret { cell = int_cell (pos 1) (pos 7) })

abbrev added : Items Cell
added = ladd list_new (pos 3) (int_cell (pos 3) (pos 1))

-- A note, in a context with one server.
abbrev note : Resource
note = single (string_cell (pos 0) []) 3

abbrev page : Instance
page = instance_of (pos 1) (ladd list_new (pos 0) note)

abbrev notes : Object
notes = object_of (pos 6) (ladd list_new (pos 1) page) (note ∷ [])

abbrev alone : Context
alone = record (context_of 1 (ladd list_new (pos 6) notes)) {
  servers = ladd list_new (pos 10) (server (pos 10));
}

abbrev note_place : Place
note_place = record { object = notes; instance' = page; resource = note }

abbrev note_text : List ℕ
note_text = b'h' ∷ b'i' ∷ []

note-IsPlace : IsPlace alone (pos 6) (pos 1) (pos 0) note_place
unfolding lfind ladd
note-IsPlace = record {
  object_found = refl;
  instance_found = refl;
  resource_found = refl;
  object_id = refl;
  instance_id = refl;
  resource_id = refl;
}

note-IsText : IsText note_place 0 note note_text
unfolding c_string
note-IsText = record {
  defined = refl;
  definition_kind = refl;
  definition_single = refl;
  kind_eq = refl;
  live = refl;
  is_single = refl;
  no_instances = refl;
  no_read_callback = refl;
  no_write_callback = refl;
  no_zero = (refl, (refl, tt));
  short = omega arith;
}

on_resource_read-on_resource_write_example :
    (after : Context) × (final : Context) × (on_resource_write libc 9
        (pos 100)
        alone
        (server (pos 10))
        (pos 6)
        (pos 1)
        (pos 0)
        (note_text ++ 0 ∷ [])
      ≡ ok (after, code_changed))
    × (after.object_tree_lock ≡ 1)
    × (on_resource_read libc after (server (pos 10)) (pos 6) (pos 1) (pos 0)
        ≡ ok
            (final, record { content_type = 1; response_code = code_changed; payload = note_text }))
    × (final.object_tree_lock ≡ 1)
unfolding ladd check_resource_operation_supported
on_resource_read-on_resource_write_example =
    on_resource_read-on_resource_write libc 9 alone (server (pos 10)) (pos 6) (pos 1) 0 0 note_place
      note note_text [] (pos 100) refl refl note-IsPlace
      (record { by_object = refl; by_instance = refl; by_resource = refl }) note-IsText refl refl

abbrev counters : Resource
counters = several (record (int_cell (pos 2) (pos 0)) { value = none }) added

-- The access control of the open context.
abbrev open_acl : Instance
open_acl = acl_of (pos 1) (ladd list_new (pos 10) (int_cell (pos 10) (pos 31)))

abbrev open_aco : Object
open_aco = object_of (pos 2) (ladd list_new (pos 0) open_acl) []

on_instance_delete-granted_example :
    (after : Context) × (on_instance_delete open_context (server (pos 10)) (pos 5) (pos 1)
      ≡ ok (after, empty_response code_deleted))
    × ((j : ℤ)
        → lfind after.object_tree j ≡ (
            if pos 5 ==ℤ j
            then some (record meters { instances = lremove meters.instances (pos 1) })
            else if pos 2 ==ℤ j
            then some (record open_aco { instances = lremove open_aco.instances (pos 0) })
            else lfind open_tree j))
    × (after ≡ (record open_context { object_tree = after.object_tree }))
unfolding check_instance_access_control aco_for_instance ladd lfind
on_instance_delete-granted_example =
    on_instance_delete-granted open_context 0 (server (pos 10)) meters open_aco meter open_acl refl
      refl refl refl other refl refl refl
  where
    other : pos 5 ≢ pos 2
    other = cc

-- A payload that carries one resource instance, which the tree does not have.
abbrev parsed_cell : Cell
parsed_cell = record (int_cell (pos 3) (pos 1)) { parsed = true }

abbrev arriving : Resource
arriving = several names (ladd list_new (pos 3) parsed_cell)

free_parsed_resource-dangling_example :
    (merged : Resource) × (told : Items Server) × (m : Items Cell) × (merge_values libc context
        (several names list_new)
        arriving
        true
      ≡ ok (merged, told))
    × ((free_parsed_resource (several names list_new) merged).instances ≡ some m)
    × (lfind m (pos 3) ≡ some (given_back parsed_cell))
    × ((bytes : List ℕ) → serialize_multiple_resource m ≢ ok bytes)
unfolding lfind lcontains
free_parsed_resource-dangling_example =
    free_parsed_resource-dangling libc context (several names list_new) arriving list_new (pos 3)
      parsed_cell true refl refl refl refl refl refl refl

-- The same note, and a text that nothing ends.
on_resource_write-unended_example :
    on_resource_write libc 9 (pos 100) alone (server (pos 10)) (pos 6) (pos 1) (pos 0) note_text
    ≡ fault
unfolding lock_tree find_place check_instance_access_control check_resource_operation_supported ladd
    lfind
on_resource_write-unended_example =
    on_resource_write-unended libc 9 alone (held alone) (server (pos 10)) (pos 6) (pos 1) 0
      note_place note note_text (pos 100) refl refl refl refl refl refl refl refl (refl, (refl, tt))
