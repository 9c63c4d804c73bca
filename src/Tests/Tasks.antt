-- ===== src/Tests/Tasks.antt =====
-- The theorems on tasks, attributes and observers at concrete values.
use lynx_lwm2m.Base.{◌∷◌, ◌++◌, ◌==ℤ◌, if◌then◌else◌}
use lynx_lwm2m.Attribute.Periods.{periods, write_attributes-periods}
use lynx_lwm2m.Reporting.Notify.{told_of_change, should_notify-integer}
use lynx_lwm2m.Base.{◌≡◌, refl, true, some, is_some, [], arith, ℤ, pos, ◌==ℤ◌, if◌then◌else◌, ok}
use lynx_lwm2m.Items.{Items, list_new, lfind, ladd, lcontains}
use lynx_lwm2m.Items.Lookup.{IsValid, list_new-IsValid, ladd-IsValid}
use lynx_lwm2m.Model.{
  int_value, Attributes, TaskPtr, Resource, Server, Context, Scheduler, code_content,
}
use lynx_lwm2m.Scheduler.{process_tasks}
use lynx_lwm2m.Scheduler.Earliest.{AllLive}
use lynx_lwm2m.Scheduler.Process.{
  AllDistinct, AllPeriodic, due_calls, processed_heap, process_tasks-due,
}
use lynx_lwm2m.Attribute.{empty_attr, get_resource_pmax, write_attributes}
use lynx_lwm2m.Attribute.Levels.{or_empty}
use lynx_lwm2m.AccessControl.{check_instance_access_control, check_resource_operation_supported}
use lynx_lwm2m.Reporting.{
  empty_response, on_resource_observe, on_resource_cancel_observe, should_notify,
}
use lynx_lwm2m.Reporting.Observe.{on_resource_cancel_observe-on_resource_observe}
use lynx_lwm2m.Reporting.Notify.{any_wanting}
use lynx_lwm2m.Tests.Data.{libc, busy, task_at, server, context, meters, meter, level}

busy-AllLive : AllLive busy busy.l.first
unfolding ladd
busy-AllLive = ((task_at (pos 2) (pos 120), refl), ((task_at (pos 1) (pos 90), refl), tt))

busy-AllDistinct : AllDistinct busy.l.first
unfolding ladd
busy-AllDistinct = ((ground arith, tt), (tt, tt))

busy-AllPeriodic : AllPeriodic busy busy.l.first
unfolding ladd
busy-AllPeriodic = (
  (task_at (pos 2) (pos 120), refl, omega arith),
  ((task_at (pos 1) (pos 90), refl, omega arith), tt),
)

process_tasks-due_example :
    (s' : Scheduler) × (process_tasks (pos 100) busy ≡ ok s')
    × (s'.l ≡ busy.l)
    × (s'.calls ≡ due_calls (pos 100) busy.heap busy.l.first [])
    × ((q : TaskPtr) → s'.heap q ≡ processed_heap (pos 100) busy.heap busy.l.first q)
process_tasks-due_example = process_tasks-due (pos 100) busy busy-AllLive busy-AllDistinct

busy-IsValid : IsValid busy.l
busy-IsValid = ladd-IsValid (pos 2) 1 (ladd-IsValid (pos 1) 0 list_new-IsValid)

-- The level with a pmax for server 10.
abbrev timed : Resource
timed = record level {
  attributes = ladd list_new (pos 10) (record empty_attr { pmax = some (pos 60) });
}

abbrev often : Attributes
often = record empty_attr { pmax = some (pos 5) }

abbrev rare : Attributes
rare = record empty_attr { pmax = some (pos 50); pmin = some (pos 9) }

on_resource_cancel_observe-on_resource_observe_example :
    (c1 : Context) × (r1 : Resource) × (c2 : Context) × (on_resource_observe
        (pos 100)
        (pos 7)
        context
        (server (pos 10))
        meters
        meter
        timed
        []
      ≡ ok (c1, r1, empty_response code_content))
    × (is_some (lfind r1.observers (pos 10)) ≡ true)
    × (on_resource_cancel_observe c1 (server (pos 10)) r1
        ≡ ok (c2, timed, empty_response code_content))
    × (c2.scheduler.l ≡ list_new)
unfolding check_instance_access_control check_resource_operation_supported get_resource_pmax ladd
    lfind
on_resource_cancel_observe-on_resource_observe_example =
    on_resource_cancel_observe-on_resource_observe (pos 100) (pos 7) context (server (pos 10))
      meters meter timed [] (pos 60) refl refl refl list_new-IsValid list_new-IsValid

-- A server that has a step of its own and one period.
abbrev stepping : Items Attributes
stepping = ladd list_new (pos 10) (record empty_attr { stp = some 3; pmax = some (pos 50) })

write_attributes-periods_example :
    (after : Items Attributes) × (write_attributes libc
        (server (pos 10))
        stepping
        (periods 5 60 ++ 0 ∷ [])
      ≡ ok after)
    × ((j : ℤ)
        → lfind after j ≡ (
            if pos 10 ==ℤ j
            then some (record (or_empty (lfind stepping (pos 10))) {
              pmin = some (pos 5);
              pmax = some (pos 60);
            })
            else lfind stepping j))
write_attributes-periods_example =
    write_attributes-periods libc 5 60 [] (server (pos 10)) stepping (omega arith) (omega arith)

-- A resource that one of the two servers is to be told of in steps.
abbrev stepped : Resource
stepped = record level { attributes = stepping }

should_notify-integer_example :
    (l : Items Server) × (should_notify libc context stepped
        (some (int_value (pos 5)))
        (some (int_value (pos 6)))
      ≡ ok l)
    × ((j : ℤ)
        → lcontains l j
          ≡ any_wanting
              (told_of_change libc stepped
                (some (int_value (pos 5)))
                (some (int_value (pos 6)))
                (pos 5)
                (pos 6))
              context.servers.first
              j)
should_notify-integer_example =
    should_notify-integer libc stepped (some (int_value (pos 5))) (some (int_value (pos 6))) context
      (pos 5) (pos 6) refl refl refl (omega arith)
