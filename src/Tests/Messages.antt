-- ===== src/Tests/Messages.antt =====
-- The theorems on texts, messages and parsed values at concrete inputs.
use lynx_lwm2m.Items.{ladd, Guarded, guarded_lfind, guarded_lcontains, store}
use lynx_lwm2m.Items.Stacks.{guarded_run, apply}
use lynx_lwm2m.Tlv.Value.Typed.{overruns}
use lynx_lwm2m.Tests.Data.{string_cell}
use lynx_lwm2m.Model.{string, string_value}
use lynx_lwm2m.Base.{ℤ, fault, ◌≢◌, true, false, ◌⊎◌}
use lynx_lwm2m.Base.{
  ℕ, ◌+◌, ◌%◌, ◌<◌, ◌≡◌, refl, Option, some, List, [], ◌∷◌, ◌++◌, pos, negsuc, length, ok, fault,
  arith, is_some, ltb_ℤ, ◌&&◌, if◌then◌else◌,
}
use lynx_lwm2m.Items.{list_new}
use lynx_lwm2m.Items.Stacks.{
  Operation, add, remove, write, stack_of, run_on_stack, top, items_refine_stacks,
}
use lynx_lwm2m.Model.{Response, Value, Cell}
use lynx_lwm2m.Cell.{set_value}
use lynx_lwm2m.Text.{codes, print_int, into_buffer}
use lynx_lwm2m.Wire.{Topic, serialize_topic, parse_topic, serialize_response, parse_response}
use lynx_lwm2m.Wire.Topics.{IsTopic, topic_text, serialize_topic_lem, parse_topic-serialize_topic}
use lynx_lwm2m.Wire.Messages.{parse_response-serialize_response}
use lynx_lwm2m.Discover.{append_int}
use lynx_lwm2m.Discover.Bounds.{append_int_bounds}
use lynx_lwm2m.Tlv.Value.{parse_value}
use lynx_lwm2m.Tlv.Value.Typed.{set_value-parse_value}
use lynx_lwm2m.Tests.Data.{libc}

-- A request to write the resource 0 of the instance 1 of the object 5.
abbrev write_topic : Topic
write_topic = record {
  operation = codes "mw";
  type = codes "req";
  client_id = codes "c1";
  server_id = codes "main";
  token = codes "t0";
  object_id = pos 5;
  instance_id = pos 1;
  resource_id = negsuc 0;
}

write_topic-IsTopic : IsTopic write_topic
write_topic-IsTopic = record {
  operation = (refl, (refl, tt));
  type = (refl, (refl, (refl, tt)));
  token = (refl, (refl, tt));
  client_id = (refl, (refl, tt));
  server_id = (refl, (refl, (refl, (refl, tt))));
  object_fits = (omega arith, omega arith);
  instance_fits = (omega arith, omega arith);
  resource_fits = (omega arith, omega arith);
  object_first = λ e. absurd (cc);
  instance_first = λ e. refl;
}

write_text : topic_text write_topic ≡ codes "lynx/mw/req/t0/c1/main/5/1"
unfolding topic_text print_int
write_text = refl

short : length (topic_text write_topic) < 100
unfolding topic_text print_int
short = omega arith

serialize_topic_lem_example :
    serialize_topic 20 write_topic ≡ into_buffer 20 (topic_text write_topic)
serialize_topic_lem_example =
    serialize_topic_lem 20 write_topic (omega arith, omega arith) (omega arith, omega arith)
      (omega arith, omega arith)

parse_topic-serialize_topic_example :
    (message : List ℕ) × (serialize_topic 100 write_topic ≡ ok message)
    × (parse_topic message ≡ ok write_topic)
parse_topic-serialize_topic_example =
    parse_topic-serialize_topic 100 write_topic write_topic-IsTopic short

abbrev refusal : Response
refusal = record { content_type = 0; response_code = 401; payload = codes "no" }

-- A refusal arrives as a success.
parse_response-serialize_response_example :
    (message : List ℕ) × (serialize_response refusal ≡ ok message)
    × (parse_response message
        ≡ ok (record {
          content_type = 0;
          response_code = 200 + 401 % 100;
          payload = 401 % 100 ∷ codes "no";
        }))
parse_response-serialize_response_example =
    parse_response-serialize_response refusal (omega arith) (omega arith)

abbrev steps : List (Operation ℕ)
steps = add (pos 4) 40 ∷ add (pos 4) 41 ∷ write (pos 4) 42 ∷ remove (pos 4) ∷ []

-- A period of four digits does not fit.
append_int_bounds_example : append_int ";pmax=" (some (pos 3600)) (codes "</5/1>") ≡ (
    if ltb_ℤ (negsuc 99) (pos 3600) && ltb_ℤ (pos 3600) (pos 1000)
    then ok (codes "</5/1>" ++ (codes ";pmax=" ++ print_int (pos 3600)))
    else fault)
append_int_bounds_example = append_int_bounds (pos 3600) (codes "</5/1>") (omega arith)

abbrev guarded : Guarded ℕ
guarded = record { items = list_new; guard = 1 }

items_refine_stacks_example :
    (m : Guarded ℕ) × (guarded_run steps guarded ≡ ok m)
    × (m.guard ≡ 1)
    × (stack_of m.items (pos 4) ≡ run_on_stack (pos 4) steps (stack_of list_new (pos 4)))
    × (guarded_lfind m (pos 4)
        ≡ ok (top (run_on_stack (pos 4) steps (stack_of list_new (pos 4))), m))
    × (guarded_lcontains m (pos 4)
        ≡ ok (is_some (top (run_on_stack (pos 4) steps (stack_of list_new (pos 4)))), m))
unfolding apply ladd store
items_refine_stacks_example =
    items_refine_stacks steps guarded 0 (pos 4) refl (tt, (tt, (tt, (cons_ne_nil, tt))))
  where
    cons_ne_nil : {x : ℤ × ℕ} {xs : List (ℤ × ℕ)} → (x ∷ xs) ≢ []
    cons_ne_nil h = cc

-- The string "hi" in a TLV element.
set_value-parse_value_example :
    ((overruns string (pos 2) ≡ false)
      × ((result : Cell × Option Value) × (set_value
              (string_cell (pos 0) [])
              (some (string_value (codes "hi" ++ 0 ∷ [])))
              (pos 2)
            ≡ ok result)))
    ⊎ ((overruns string (pos 2) ≡ true)
        × (set_value (string_cell (pos 0) []) (some (string_value (codes "hi" ++ 0 ∷ []))) (pos 2)
            ≡ fault))
unfolding parse_value
set_value-parse_value_example =
    set_value-parse_value libc (string_cell (pos 0) []) (codes "hi") (pos 2)
      (string_value (codes "hi" ++ 0 ∷ [])) refl
