-- ===== src/Scheduler.antt =====
-- scheduler.c: tasks that are called when their waking time is reached. One thread is modelled at
-- a time: an operation runs between the locking and the unlocking of `scheduler->lock`. The time
-- that `time(0)` gives is an argument.
pub mod Cancel
pub mod Earliest
pub mod Process
use lynx_lwm2m.Base.{
  ℕ, suc, ◌+◌, Bool, true, false, not, Option, none, some, List, [], ◌∷◌, if◌then◌else◌, ◌==◌, ℤ,
  pos, negsuc, ◌+ℤ◌, ◌==ℤ◌, ltb_ℤ, Run, ok, fault, ◌>>=◌, deref,
}
use lynx_lwm2m.Items.{Items, list_new, ladd, lremove}
use lynx_lwm2m.Model.{
  TaskPtr, TaskFunction, notify_object, notify_instance, notify_resource, update, Task, Call,
  Scheduler,
}

-- The list of tasks that the scheduler had before `list`: `list_add` and `list_remove`.
unfoldable pub list_add : List Task → Task → List Task
list_add l task = task ∷ l

remove_behind : List Task → ℤ → List Task
remove_behind [] id_to_remove = []
remove_behind (task ∷ next) id_to_remove =
    if task.id ==ℤ id_to_remove then next else task ∷ remove_behind next id_to_remove

-- An empty list is read through NULL.
unfoldable pub list_remove : List Task → ℤ → Run (List Task)
unfolding remove_behind
list_remove [] id_to_remove = fault
list_remove (task ∷ next) id_to_remove = ok (remove_behind (task ∷ next) id_to_remove)

-- A write to the memory of a task.
unfoldable pub put_task : Scheduler → TaskPtr → Task → Scheduler
put_task s p task = record s { heap = λ q. if q == p then some task else s.heap q }

earliest_loop : List (ℤ × TaskPtr) → Scheduler → Option ℤ → Run (Option ℤ)
earliest_loop [] s earliest = ok earliest
earliest_loop ((key, p) ∷ next) s none = do
  task ← deref (s.heap p)
  earliest_loop next s (some task.waking_time)
earliest_loop ((key, p) ∷ next) s (some earliest) = do
  task ← deref (s.heap p)
  earliest_loop next s
      (some (if ltb_ℤ task.waking_time earliest then task.waking_time else earliest))

-- An empty list ends in a read through NULL.
unfoldable pub find_earliest_waking_time : Scheduler → Run ℤ
unfolding earliest_loop
find_earliest_waking_time s = do earliest ← earliest_loop s.l.first s none; deref earliest

-- What the thread waits for: a signal only, or a signal until a time.
pub data Wait : Type 0 where
  for_signal : Wait
  until : ℤ → Wait

unfoldable pub await : Scheduler → Run Wait
unfolding find_earliest_waking_time
await s =
    if s.l.size == 0
    then ok for_signal
    else (do waking_time ← find_earliest_waking_time s; ok (until (waking_time +ℤ pos 1)))

unfoldable pub schedule : ℤ → Scheduler → TaskPtr → Run Scheduler
unfolding put_task
schedule now s p = do
  task ← deref (s.heap p)
  let task' = record task { waking_time = now +ℤ task.period }
  ok (record (put_task s p task') { l = ladd s.l task.id p })

-- A task that is cancelled has been scheduled, so that the list is not empty.
unfoldable pub cancel : Scheduler → TaskPtr → Run Scheduler
cancel s p = do task ← deref (s.heap p); ok (record s { l = lremove s.l task.id })

-- The functions that notify set `last_waking_time`; the one that updates the registration does not.
abbrev is_notify : TaskFunction → Bool
is_notify update = false
is_notify _ = true

-- The call of `task->function`.
unfoldable pub call_function : ℤ → Scheduler → TaskPtr → Task → Option ℤ → Scheduler
unfolding put_task
call_function now s p task arg =
    let s' = record s { calls = record { task = p; arg = arg } ∷ s.calls } in
    if is_notify task.function then put_task s' p (record task { last_waking_time = now }) else s'

unfoldable pub execute : ℤ → Scheduler → TaskPtr → Option ℤ → Run Scheduler
unfolding put_task call_function
execute now s p arg = do
  task ← deref (s.heap p)
  ok (
      put_task (call_function now s p task arg) p
        (record task { waking_time = now +ℤ task.period; last_waking_time = now }))

-- One round of the loop of `process_tasks`: a task whose waking time is not after `now`.
unfoldable pub process_task : ℤ → Scheduler → TaskPtr → Run Scheduler
unfolding put_task call_function
process_task now s p = do
  task ← deref (s.heap p)
  if ltb_ℤ now task.waking_time
      then ok s
      else (let s' = call_function now s p task none in
          do
            task' ← deref (s'.heap p)
            ok (put_task s' p (record task' { waking_time = now +ℤ task'.period })))

unfoldable pub process_loop : ℤ → List (ℤ × TaskPtr) → Scheduler → Run Scheduler
process_loop now [] s = ok s
process_loop now ((key, p) ∷ next) s = do s' ← process_task now s p; process_loop now next s'

unfoldable pub process_tasks : ℤ → Scheduler → Run Scheduler
unfolding process_loop
process_tasks now s = process_loop now s.l.first s

unfoldable pub stop_scheduler : Scheduler → Scheduler
stop_scheduler s = record s { stop = true }

-- One round of `scheduler_thread` after it has waited; `none` is the return of the thread.
unfoldable pub thread_round : ℤ → Scheduler → Run (Option Scheduler)
unfolding process_tasks
thread_round now s = if s.stop then ok none else (do s' ← process_tasks now s; ok (some s'))

-- `scheduler_start`; the memory of tasks is what the program has allocated.
unfoldable pub scheduler_start : Scheduler → Scheduler
scheduler_start s = record s { l = list_new; stop = false }
