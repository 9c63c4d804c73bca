-- ===== src/Register/Outcome.antt =====
-- lwm2m_register.c: how the registration ends.
use lynx_lwm2m.Base.{
  ℕ, ◌≡◌, refl, true, false, List, [], ◌∷◌, ℤ, pos, negsuc, ◌+ℤ◌, ok, blocked, arith, ◌>>=◌,
  >>=-eq-ok, Run, sym, ap, deref, ==-refl, ◌∙◌, Bool-cases, inl, inr, if◌then◌else◌, ltb_ℤ,
}
use lynx_lwm2m.Items.{lfind, ladd}
use lynx_lwm2m.Model.{Object, Instance, Server, Context, State, registering, registered}
use lynx_lwm2m.Transport.{Surroundings}
use lynx_lwm2m.Attribute.{server_instance_of}
use lynx_lwm2m.Register.{get_lifetime, has_server_instances}
use lynx_lwm2m.Reporting.{new_task}
use lynx_lwm2m.Scheduler.{put_task, schedule}
use lynx_lwm2m.Register.Accounts.{
  update_task_of, is_registered, on_server_register, wait_for_registered, register_all,
  register_and_wait, lwm2m_register,
}

wait_step :
    (step : Context → Run Context) (others : List (Context → Run Context)) (context : Context)
    → is_registered context.state ≡ false
    → wait_for_registered (step ∷ others) context
      ≡ (step context >>= (λ c. wait_for_registered others c))
unfolding wait_for_registered
wait_step step others context later = rw later refl

wait_done :
    (others : List (Context → Run Context)) (context : Context)
    → is_registered context.state ≡ true
    → wait_for_registered others context ≡ ok context
unfolding wait_for_registered
wait_done [] context now = rw now refl
wait_done (step ∷ others) context now = rw now refl

wait_blocked :
    (context : Context)
    → is_registered context.state ≡ false
    → wait_for_registered [] context ≡ blocked
unfolding wait_for_registered
wait_blocked context later = rw later refl

registered_if : (state : State) → is_registered state ≡ true → state ≡ registered
registered_if state h = ground arith

wait_for_registered-state :
    (others : List (Context → Run Context)) (context context' : Context)
    → wait_for_registered others context ≡ ok context'
    → context'.state ≡ registered
wait_for_registered-state [] context context' returned =
    elim (Bool-cases (is_registered context.state)) [
      | inl now ↦ cc (wait_done [] context now, registered_if context.state now)
      | inr later ↦ absurd (cc (wait_blocked context later))
    ]
wait_for_registered-state (step ∷ others) context context' returned =
    elim (Bool-cases (is_registered context.state)) [
      | inl now ↦ cc (wait_done (step ∷ others) context now, registered_if context.state now)
      | inr later ↦
          let (next, stepped, waited) =
            >>=-eq-ok (step context) (λ c. wait_for_registered others c)
              (sym (wait_step step others context later) ∙ returned) in
          wait_for_registered-state others next context' waited
    ]

-- The value that `lwm2m_register` returns with a context.
abbrev counted : Context → ℤ
counted context = if ltb_ℤ (pos 0) context.registered_servers_num then pos 0 else negsuc 0

abbrev with_count : Context → Run (Context × ℤ)
with_count context = ok (context, counted context)

with_count-eq :
    (waited context' : Context) (result : ℤ)
    → with_count waited ≡ ok (context', result)
    → (waited ≡ context') × (counted waited ≡ result)
with_count-eq waited context' result e = (cc, cc)

register_and_wait-state :
    (env : Surroundings) (others : List (Context → Run Context)) (context context' : Context)
    (result : ℤ)
    → register_and_wait env others context ≡ ok (context', result)
    → (context'.state ≡ registered) × (counted context' ≡ result)
unfolding register_and_wait
register_and_wait-state env others context context' result returned =
    let wait = λ (c : Context). wait_for_registered others c >>= with_count in
    let register_them = λ (o : Object). register_all env o.instances.first context >>= wait in
    let (server_object, e1, r1) =
      >>=-eq-ok (deref (lfind context.object_tree (pos 1))) register_them returned in
    let (all, e2, r2) =
      >>=-eq-ok (register_all env server_object.instances.first context) wait r1 in
    let (waited, e3, r3) = >>=-eq-ok (wait_for_registered others all) with_count r2 in
    let (same, code) = with_count-eq waited context' result r3 in
    (
      ap (λ (c : Context). c.state) (sym same) ∙ wait_for_registered-state others all waited e3,
      ap counted (sym same) ∙ code,
    )

-- Where `lwm2m_register` finds a server's instance and returns, whatever the other threads do while it
-- waits: the client is registered, and the result is 0 exactly if a server has been counted.
pub lwm2m_register-state :
    (env : Surroundings) (others : List (Context → Run Context)) (context context' : Context)
    (result : ℤ)
    → has_server_instances context ≡ ok true
    → lwm2m_register env others context ≡ ok (context', result)
    → (context'.state ≡ registered)
      × ((if ltb_ℤ (pos 0) context'.registered_servers_num then pos 0 else negsuc 0) ≡ result)
unfolding lwm2m_register
lwm2m_register-state env others context context' result found returned =
    register_and_wait-state env others (record context { state = registering }) context' result
      (sym (rw found refl) ∙ returned)

-- The context that `on_server_register` leaves.
abbrev now_registered : Surroundings → Context → Server → ℤ → Context
now_registered env context server lifetime =
    let p = context.scheduler.next_task in
    let (scheduler, q) = new_task context.scheduler (update_task_of env server lifetime) in
    let due = record (update_task_of env server lifetime) { waking_time = env.now +ℤ lifetime } in
    record context {
      update_tasks = ladd context.update_tasks server.short_server_id p;
      scheduler = record (put_task scheduler p due) { l = ladd context.scheduler.l env.task_id p };
      state = registered;
      registered_servers_num = context.registered_servers_num +ℤ pos 1;
    }

-- Whatever code a server answers a registration with, also a refusal: where its instance has a
-- lifetime, the client counts as registered, on one server more, and the task that updates the
-- registration is scheduled after that lifetime.
pub on_server_register_any :
    (env : Surroundings) (context : Context) (server : Server) (i : Instance) (lifetime : ℤ)
    (code : ℕ)
    → server_instance_of context server ≡ ok i
    → get_lifetime i ≡ ok lifetime
    → on_server_register env context server code ≡ ok (now_registered env context server lifetime)
unfolding on_server_register schedule new_task put_task
on_server_register_any env context server i lifetime code found has_lifetime =
    rw (found, has_lifetime, ==-refl context.scheduler.next_task) refl
