-- ===== src/Reporting/Observe.antt =====
-- lwm2m_information_reporting.c: observing and cancelling, and who may observe.
use lynx_lwm2m.Base.{
  ℕ, ◌+◌, ◌≡◌, refl, true, none, some, is_some, List, if◌then◌else◌, ◌==◌, ==-refl, ==ℤ-refl, ℤ,
  ◌+ℤ◌, ok,
}
use lynx_lwm2m.Items.{Items, ladd, lfind, lremove}
use lynx_lwm2m.Items.Lookup.{IsValid, lremove-ladd, lfind-ladd}
use lynx_lwm2m.Model.{
  Resource, Instance, Object, Server, Context, Task, TaskPtr, Scheduler, op_read, notify_resource,
  code_content,
}
use lynx_lwm2m.Scheduler.{schedule, cancel, put_task}
use lynx_lwm2m.Attribute.{get_resource_pmax, lookup_full}
use lynx_lwm2m.AccessControl.{check_instance_access_control, check_resource_operation_supported}
use lynx_lwm2m.Reporting.{
  empty_response, notify_task, start_observing, cancel_observing, on_resource_observe,
  on_resource_cancel_observe,
}

-- Starting to observe returns: the server's observer is a task that the scheduler has under the
-- task's identifier, waking one period from now. Cancelling then returns and
-- restores the observers and the scheduler's list, and the task's memory is given back.
cancel_observing-start_observing :
    (now : ℤ) (s : Scheduler) (server : Server) (task : Task) (observers : Items TaskPtr)
    → IsValid s.l
    → IsValid observers
    → (s1 : Scheduler) × (os : Items TaskPtr) × (p : TaskPtr) × (s2 : Scheduler) × (start_observing
          now s server task observers
        ≡ ok (s1, os))
      × (lfind os server.short_server_id ≡ some p)
      × (lfind s1.l task.id ≡ some p)
      × (s1.heap p ≡ some (record task { waking_time = now +ℤ task.period }))
      × (cancel_observing s1 server os ≡ ok (s2, observers))
      × (s2.l ≡ s.l)
      × (s2.heap p ≡ none)
unfolding start_observing cancel_observing schedule cancel put_task
cancel_observing-start_observing now s server task observers v w =
    let p = s.next_task in
    let woken = record task { waking_time = now +ℤ task.period } in
    let s0 = record (put_task s p task) { next_task = p + 1 } in
    let s1 = record (put_task s0 p woken) { l = ladd s.l task.id p } in
    let key = server.short_server_id in
    let os = ladd observers key p in
    let found : lfind os key ≡ some p = rw (lfind-ladd observers key key p, ==ℤ-refl key) refl in
    (
      s1,
      os,
      p,
      record s1 { l = lremove s1.l task.id; heap = λ q. if q == p then none else s1.heap q },
      rw (==-refl p) refl,
      found,
      rw (lfind-ladd s.l task.id task.id p, ==ℤ-refl task.id) refl,
      rw (==-refl p) refl,
      rw (found, ==-refl p, lremove-ladd observers key p w) refl,
      lremove-ladd s.l task.id p v,
      rw (==-refl p) refl,
    )

-- For a resource that the server may read, that supports READ and whose pmax is known, with valid
-- lists of tasks and observers: observing answers 205 and enters an observer for the server, and
-- cancelling then answers 205 and gives back the resource as it was and the scheduler's list.
pub on_resource_cancel_observe-on_resource_observe :
    (now task_id : ℤ) (context : Context) (server : Server) (object : Object) (i : Instance)
    (resource : Resource) (token : List ℕ) (period : ℤ)
    → check_instance_access_control context server object i op_read ≡ ok true
    → check_resource_operation_supported resource op_read ≡ true
    → get_resource_pmax context server object i resource lookup_full ≡ ok (some period)
    → IsValid context.scheduler.l
    → IsValid resource.observers
    → (c1 : Context) × (r1 : Resource) × (c2 : Context) × (on_resource_observe now task_id context
          server object i resource token
        ≡ ok (c1, r1, empty_response code_content))
      × (is_some (lfind r1.observers server.short_server_id) ≡ true)
      × (on_resource_cancel_observe c1 server r1 ≡ ok (c2, resource, empty_response code_content))
      × (c2.scheduler.l ≡ context.scheduler.l)
unfolding on_resource_observe on_resource_cancel_observe
on_resource_cancel_observe-on_resource_observe now task_id context server object i resource token
      period access supported pmax v w =
    let task =
      notify_task task_id period (notify_resource object.id i.id resource.id) server.short_server_id
        token in
    let (s1, os, p, s2, start, found, listed, live, stop, back, gone) =
      cancel_observing-start_observing now context.scheduler server task resource.observers v w in
    (
      record context { scheduler = s1 },
      record resource { observers = os },
      record context { scheduler = s2 },
      rw (access, supported, pmax, start) refl,
      rw found refl,
      rw stop refl,
      back,
    )
