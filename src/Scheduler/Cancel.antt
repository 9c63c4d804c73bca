-- ===== src/Scheduler/Cancel.antt =====
-- scheduler.c: `schedule` and `cancel`, and the list of tasks that the scheduler had before.
use lynx_lwm2m.Base.{◌≡◌, refl, some, List, arith, ℤ, ◌+ℤ◌, ==-refl, ==ℤ-refl, ok}
use lynx_lwm2m.Items.{ladd, lfind, lremove}
use lynx_lwm2m.Items.Lookup.{IsValid, lremove-ladd, lfind-ladd}
use lynx_lwm2m.Model.{TaskPtr, Task, Scheduler}
use lynx_lwm2m.Scheduler.{put_task, schedule, cancel, list_add, list_remove, remove_behind}

-- Scheduling a live task on a valid list returns, with the task found under its identifier and
-- waking one period from now; cancelling it then returns and gives back the list as it was, and
-- neither makes a call.
cancel-schedule :
    (now : ℤ) (s : Scheduler) (p : TaskPtr) (task : Task)
    → s.heap p ≡ some task
    → IsValid s.l
    → (s1 : Scheduler) × (s2 : Scheduler) × (schedule now s p ≡ ok s1)
      × (lfind s1.l task.id ≡ some p)
      × (s1.heap p ≡ some (record task { waking_time = now +ℤ task.period }))
      × (cancel s1 p ≡ ok s2)
      × (s2.l ≡ s.l)
      × (s2.calls ≡ s.calls)
unfolding schedule cancel put_task
cancel-schedule now s p task live v =
    let woken = record task { waking_time = now +ℤ task.period } in
    let s1 = record (put_task s p woken) { l = ladd s.l task.id p } in
    (
      s1,
      record s1 { l = lremove s1.l task.id },
      ground (arith, live),
      rw (lfind-ladd s.l task.id task.id p, ==ℤ-refl task.id) refl,
      rw (==-refl p) refl,
      rw (==-refl p) refl,
      lremove-ladd s.l task.id p v,
      refl,
    )

-- In the list of tasks, a removal of the identifier just added gives back the list before.
pub list_remove-list_add :
    (l : List Task) (task : Task) → list_remove (list_add l task) task.id ≡ ok l
unfolding list_remove list_add remove_behind
list_remove-list_add l task = rw (==ℤ-refl task.id) refl
