-- ===== src/Bootstrap/Outcome.antt =====
-- lwm2m_bootstrap.c: how the bootstrap ends.
use lynx_lwm2m.Base.{
  false, ℕ, ◌≡◌, Option, List, ℤ, pos, negsuc, ok, arith, ◌>>=◌, >>=-eq-ok, Run, if◌then◌else◌,
  Bool-cases, inl, inr,
}
use lynx_lwm2m.Model.{Context, started, waiting_for_bootstrap}
use lynx_lwm2m.Transport.{Surroundings, publish_connected}
use lynx_lwm2m.Bootstrap.{
  is_bootstrapped, wait_for_server_bootstrap, provide_instances, client_initiated,
  initiate_bootstrap, lwm2m_bootstrap,
}

abbrev code_of : Context → ℤ
code_of context = if is_bootstrapped context.state then pos 0 else negsuc 0

abbrev give_code : Context → Run (Context × ℤ)
give_code context = ok (context, code_of context)

with_code-eq :
    (waited context' : Context) (result : ℤ)
    → give_code waited ≡ ok (context', result)
    → result ≡ code_of context'
with_code-eq waited context' result e = cc

-- What `lwm2m_bootstrap` does after its first wait.
abbrev after_wait : Surroundings → List (Context → Run Context) → Context → Run (Context × ℤ)
after_wait env client_steps context =
    if is_bootstrapped context.state
    then ok (context, pos 0)
    else client_initiated env client_steps context

client_initiated-code :
    (env : Surroundings) (client_steps : List (Context → Run Context)) (context context' : Context)
    (result : ℤ)
    → client_initiated env client_steps context ≡ ok (context', result)
    → result ≡ code_of context'
unfolding client_initiated
client_initiated-code env client_steps context context' result returned =
    let wait = λ (c : Context).
      wait_for_server_bootstrap client_steps (record c { state = waiting_for_bootstrap })
      >>= give_code in
    let (asked, e1, r1) = >>=-eq-ok (initiate_bootstrap env context) wait returned in
    let (waited, e2, r2) =
      >>=-eq-ok
        (wait_for_server_bootstrap client_steps (record asked { state = waiting_for_bootstrap }))
        give_code r1 in
    with_code-eq waited context' result r2

after_wait-code :
    (env : Surroundings) (client_steps : List (Context → Run Context)) (waited context' : Context)
    (result : ℤ)
    → after_wait env client_steps waited ≡ ok (context', result)
    → result ≡ code_of context'
after_wait-code env client_steps waited context' result returned =
    elim (Bool-cases (is_bootstrapped waited.state)) [
      | inl now ↦ ground (arith, now, returned)
      | inr later ↦
          client_initiated-code env client_steps waited context' result
            (ground (arith, later, returned))
    ]

-- When `lwm2m_bootstrap` returns, it returns 0 if the client is bootstrapped, and else -1.
lwm2m_bootstrap-code :
    (env : Surroundings) (smartcard factory : Option (Context → Context × ℕ))
    (server_steps client_steps : List (Context → Run Context)) (context context' : Context)
    (result : ℤ)
    → lwm2m_bootstrap env smartcard factory server_steps client_steps context
      ≡ ok (context', result)
    → result ≡ code_of context'
unfolding lwm2m_bootstrap
lwm2m_bootstrap-code env smartcard factory server_steps client_steps context context' result
      returned =
    let begin = record context { state = started; is_bootstrap_ready = false } in
    let wait =
      λ (c : Context). wait_for_server_bootstrap server_steps c >>= after_wait env client_steps in
    let connect = λ (c : Context). publish_connected c >>= wait in
    let (provided, e1, r1) =
      >>=-eq-ok (provide_instances smartcard factory begin) connect returned in
    let (connected, e2, r2) = >>=-eq-ok (publish_connected provided) wait r1 in
    let (waited, e3, r3) =
      >>=-eq-ok (wait_for_server_bootstrap server_steps connected) (after_wait env client_steps)
        r2 in
    after_wait-code env client_steps waited context' result r3
