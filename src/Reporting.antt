-- ===== src/Reporting.antt =====
-- lwm2m_information_reporting.c: which servers are told of a change, and the observe operations.
pub mod Observe
pub mod Notify
pub mod Send
pub mod Sends
use lynx_lwm2m.Base.{
  ℕ, suc, ◌+◌, Bool, true, false, not, ◌&&◌, ◌||◌, Option, none, some, List, [], ◌∷◌, if◌then◌else◌,
  ◌==◌, ℤ, pos, negsuc, ◌-ℤ◌, abs, Run, ok, fault, ◌>>=◌, deref, is_some,
}
use lynx_lwm2m.Items.{Items, list_new, ladd, lfind, lremove}
use lynx_lwm2m.Model.{
  Kind, integer, double, Value, Resource, Instance, Object, Server, Context, Task, TaskPtr,
  TaskFunction, notify_object, notify_instance, notify_resource, Scheduler, Response, op_read,
  code_content, code_unauthorized, code_method_not_allowed,
}
use lynx_lwm2m.Cell.{as_int, as_double}
use lynx_lwm2m.Libc.{Libc}
use lynx_lwm2m.Scheduler.{schedule, cancel, put_task}
use lynx_lwm2m.Attribute.{
  get_resource_gt, get_resource_lt, get_resource_stp, get_resource_pmax, get_instance_pmax,
  get_object_pmax, lookup_full,
}
use lynx_lwm2m.AccessControl.{check_instance_access_control, check_resource_operation_supported}

module _ (c : Libc) where
  open c use {float_lt_int, int_lt_float, float_lt_double, double_lt_float, float_lt, double_step}

  unfoldable pub fulfill_gt : ℕ → Option Value → Kind → Run Bool
  fulfill_gt gt new_value integer = do
    value ← deref new_value
    n ← as_int value
    ok (float_lt_int gt n)
  fulfill_gt gt new_value double = do
    value ← deref new_value
    d ← as_double value
    ok (float_lt_double gt d)
  fulfill_gt gt new_value _ = ok false

  unfoldable pub fulfill_lt : ℕ → Option Value → Kind → Run Bool
  fulfill_lt lt new_value integer = do
    value ← deref new_value
    n ← as_int value
    ok (int_lt_float n lt)
  fulfill_lt lt new_value double = do
    value ← deref new_value
    d ← as_double value
    ok (double_lt_float d lt)
  fulfill_lt lt new_value _ = ok false

  unfoldable pub fulfill_stp : ℕ → Option Value → Option Value → Kind → Run Bool
  fulfill_stp stp old_value new_value integer = do
    old ← deref old_value
    new ← deref new_value
    a ← as_int old
    b ← as_int new
    ok (float_lt_int stp (pos (abs (a -ℤ b))))
  fulfill_stp stp old_value new_value double = do
    old ← deref old_value
    new ← deref new_value
    a ← as_double old
    b ← as_double new
    ok (float_lt stp (double_step a b))
  fulfill_stp stp old_value new_value _ = ok false

  -- `attribute != NULL && !fulfilled` makes the loop go on with the next server.
  abbrev passes : Option ℕ → (ℕ → Run Bool) → Run Bool
  passes none fulfilled = ok true
  passes (some attribute) fulfilled = fulfilled attribute

  abbrev is_numeric : Kind → Bool
  is_numeric integer = true
  is_numeric double = true
  is_numeric _ = false

  numeric_conditions : Resource → Option Value → Option Value → Server → Run Bool
  unfolding fulfill_gt fulfill_lt fulfill_stp
  numeric_conditions resource old_value new_value server =
      let stp_passes =
        passes (get_resource_stp server resource)
          (λ stp. fulfill_stp stp old_value new_value resource.kind) in
      let lt_passes =
        passes (get_resource_lt server resource) (λ lt. fulfill_lt lt new_value resource.kind) in
      do
        gt_ok ←
            passes (get_resource_gt server resource) (λ gt. fulfill_gt gt new_value resource.kind)
        if gt_ok then (do lt_ok ← lt_passes; if lt_ok then stp_passes else ok false) else ok false

  -- Whether one round of the loop of `should_notify` adds the server.
  unfoldable pub wants_notify : Resource → Option Value → Option Value → Server → Run Bool
  unfolding numeric_conditions
  wants_notify resource old_value new_value server =
      if not (is_some new_value) && is_some old_value
      then ok true
      else if is_some new_value && not (is_some old_value)
      then ok true
      else if is_numeric resource.kind
      then numeric_conditions resource old_value new_value server
      else ok true

  unfoldable pub should_notify_loop :
      List (ℤ × Server) → Resource → Option Value → Option Value → Items Server → Run (Items Server)
  should_notify_loop [] resource old_value new_value servers = ok servers
  should_notify_loop ((key, server) ∷ next) resource old_value new_value servers = do
    wanted ← wants_notify resource old_value new_value server
    should_notify_loop next resource old_value new_value
        (if wanted then ladd servers server.short_server_id server else servers)

  unfoldable pub should_notify :
      Context → Resource → Option Value → Option Value → Run (Items Server)
  unfolding should_notify_loop
  should_notify context resource old_value new_value =
      should_notify_loop context.servers.first resource old_value new_value list_new

-- A response without a payload.
abbrev pub empty_response : ℕ → Response
empty_response code = record { content_type = 0; response_code = code; payload = [] }

-- A new task: `malloc` gives memory that no task has.
unfoldable pub new_task : Scheduler → Task → Scheduler × TaskPtr
unfolding put_task
new_task s task = let p = s.next_task in (record (put_task s p task) { next_task = p + 1 }, p)

-- The task that an observe operation makes; the identifier comes from `generate_task_id`.
abbrev notify_task : ℤ → ℤ → TaskFunction → ℤ → List ℕ → Task
notify_task id period function server token = record {
  id = id;
  short_server_id = negsuc 0;
  period = period;
  waking_time = pos 0;
  last_waking_time = pos 0;
  function = function;
  server = server;
  token = token;
}

-- The scheduler with the task made and scheduled, and the observers with the task entered.
unfoldable pub start_observing :
    ℤ → Scheduler → Server → Task → Items TaskPtr → Run (Scheduler × Items TaskPtr)
unfolding new_task
start_observing now scheduler server task observers =
    let (scheduler', p) = new_task scheduler task in
    do
      scheduler'' ← schedule now scheduler' p
      ok (scheduler'', ladd observers server.short_server_id p)

unfoldable pub on_resource_observe :
    (now task_id : ℤ)
    → Context
    → Server
    → Object
    → Instance
    → Resource
    → (token : List ℕ) → Run (Context × Resource × Response)
unfolding start_observing
on_resource_observe now task_id context server object i resource token =
    let start = (do
      found ← get_resource_pmax context server object i resource lookup_full
      period ← deref found
      (scheduler, observers) ←
          start_observing now context.scheduler server
            (notify_task task_id period (notify_resource object.id i.id resource.id)
              server.short_server_id token)
            resource.observers
      ok (
        record context { scheduler = scheduler },
        record resource { observers = observers },
        empty_response code_content,
      )) in
    do
      granted ← check_instance_access_control context server object i op_read
      if granted
          then (if check_resource_operation_supported resource op_read
              then start
              else ok (context, resource, empty_response code_method_not_allowed))
          else ok (context, resource, empty_response code_unauthorized)

unfoldable pub on_instance_observe :
    (now task_id : ℤ)
    → Context
    → Server
    → Object
    → Instance
    → (token : List ℕ) → Run (Context × Instance × Response)
unfolding start_observing
on_instance_observe now task_id context server object i token =
    let start = (do
      found ← get_instance_pmax context server object i lookup_full
      period ← deref found
      (scheduler, observers) ←
          start_observing now context.scheduler server
            (notify_task task_id period (notify_instance object.id i.id) server.short_server_id
              token)
            i.observers
      ok (
        record context { scheduler = scheduler },
        record i { observers = observers },
        empty_response code_content,
      )) in
    do
      granted ← check_instance_access_control context server object i op_read
      if granted then start else ok (context, i, empty_response code_unauthorized)

-- No access is checked for a whole object.
unfoldable pub on_object_observe :
    (now task_id : ℤ)
    → Context
    → Server
    → Object
    → (token : List ℕ) → Run (Context × Object × Response)
unfolding start_observing
on_object_observe now task_id context server object token = do
  found ← get_object_pmax context server object lookup_full
  period ← deref found
  (scheduler, observers) ←
      start_observing now context.scheduler server
        (notify_task task_id period (notify_object object.id) server.short_server_id token)
        object.observers
  ok (
    record context { scheduler = scheduler },
    record object { observers = observers },
    empty_response code_content,
  )

-- The common part of the three cancel operations: the task of the server is cancelled, the entry
-- removed and the memory freed. Where there is no task, NULL is followed.
unfoldable pub cancel_observing :
    Scheduler → Server → Items TaskPtr → Run (Scheduler × Items TaskPtr)
cancel_observing scheduler server observers = do
  p ← deref (lfind observers server.short_server_id)
  s ← cancel scheduler p
  ok (
    record s { heap = λ q. if q == p then none else s.heap q },
    lremove observers server.short_server_id,
  )

unfoldable pub on_object_cancel_observe :
    Context → Server → Object → Run (Context × Object × Response)
unfolding cancel_observing
on_object_cancel_observe context server object = do
  (scheduler, observers) ← cancel_observing context.scheduler server object.observers
  ok (
    record context { scheduler = scheduler },
    record object { observers = observers },
    empty_response code_content,
  )

unfoldable pub on_instance_cancel_observe :
    Context → Server → Instance → Run (Context × Instance × Response)
unfolding cancel_observing
on_instance_cancel_observe context server i = do
  (scheduler, observers) ← cancel_observing context.scheduler server i.observers
  ok (
    record context { scheduler = scheduler },
    record i { observers = observers },
    empty_response code_content,
  )

unfoldable pub on_resource_cancel_observe :
    Context → Server → Resource → Run (Context × Resource × Response)
unfolding cancel_observing
on_resource_cancel_observe context server resource = do
  (scheduler, observers) ← cancel_observing context.scheduler server resource.observers
  ok (
    record context { scheduler = scheduler },
    record resource { observers = observers },
    empty_response code_content,
  )
