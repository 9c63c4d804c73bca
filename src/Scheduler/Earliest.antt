-- ===== src/Scheduler/Earliest.antt =====
-- scheduler.c: the waking time that the thread waits for.
use lynx_lwm2m.Base.{
  ◌≡◌, ◌≢◌, refl, ◌⊎◌, inl, inr, true, false, none, some, List, [], ◌∷◌, arith, ℤ, ◌≤ℤ◌, ltb_ℤ,
  Bool-cases, sym, ok, if◌then◌else◌,
}
use lynx_lwm2m.Model.{TaskPtr, Task, Scheduler}
use lynx_lwm2m.Scheduler.{earliest_loop, find_earliest_waking_time}

-- The pointer is to the memory of a task.
abbrev pub IsLive : Scheduler → TaskPtr → Type 0
IsLive s p = (task : Task) × (s.heap p ≡ some task)

abbrev pub AllLive : Scheduler → List (ℤ × TaskPtr) → Type 0
AllLive s [] = Unit {0}
AllLive s ((key, p) ∷ l) = IsLive s p × AllLive s l

-- `t` is at most every waking time.
abbrev pub IsBelow : Scheduler → ℤ → List (ℤ × TaskPtr) → Type 0
IsBelow s t [] = Unit {0}
IsBelow s t ((key, p) ∷ l) =
    ((task : Task) × (s.heap p ≡ some task) × (t ≤ℤ task.waking_time)) × IsBelow s t l

-- `t` is the waking time of a task in the list.
abbrev pub IsWaking : Scheduler → ℤ → List (ℤ × TaskPtr) → Type 0
IsWaking s t [] = ⊥
IsWaking s t ((key, p) ∷ l) =
    ((task : Task) × (s.heap p ≡ some task) × (task.waking_time ≡ t)) ⊎ IsWaking s t l

step_below : (w e t : ℤ) → t ≤ℤ (if ltb_ℤ w e then w else e) → (t ≤ℤ e) × (t ≤ℤ w)
step_below w e t h = ground arith

earliest_from :
    (s : Scheduler) (l : List (ℤ × TaskPtr)) (e : ℤ)
    → AllLive s l
    → (t : ℤ) × (earliest_loop l s (some e) ≡ ok (some t))
      × (t ≤ℤ e)
      × IsBelow s t l
      × ((t ≡ e) ⊎ IsWaking s t l)
unfolding earliest_loop
earliest_from s [] e h = (e, refl, omega arith, tt, inl refl)
earliest_from s ((key, p) ∷ l) e ((task, live), h) =
    let w = task.waking_time in
    let m = if ltb_ℤ w e then w else e in
    let (t, run, le, below, from) = earliest_from s l m h in
    let both = step_below w e t le in
    (
      t,
      rw live run,
      both.0,
      ((task, live, both.1), below),
      elim from [ inr later ↦ inr (inr later) | inl here ↦ which t (Bool-cases (ltb_ℤ w e)) here ],
    )
  where
    which :
        (t : ℤ)
        → ((ltb_ℤ task.waking_time e ≡ true) ⊎ (ltb_ℤ task.waking_time e ≡ false))
        → t ≡ (if ltb_ℤ task.waking_time e then task.waking_time else e)
        → ((t ≡ e) ⊎ IsWaking s t ((key, p) ∷ l))
    which t (inl y) here = inr (inl (task, live, ground (arith, y, here)))
    which t (inr n) here = inl (ground (arith, n, here))

earliest_of :
    (s : Scheduler) (l : List (ℤ × TaskPtr))
    → l ≢ []
    → AllLive s l
    → (t : ℤ) × (earliest_loop l s none ≡ ok (some t)) × IsBelow s t l × IsWaking s t l
unfolding earliest_loop
earliest_of s [] ne h = absurd (ne refl)
earliest_of s ((key, p) ∷ l) ne ((task, live), h) =
    let (t, run, le, below, from) = earliest_from s l task.waking_time h in
    (
      t,
      rw live run,
      ((task, live, le), below),
      elim from [ inl here ↦ inl (task, live, sym here) | inr later ↦ inr later ],
    )

-- With tasks in the list, all in live memory, the function returns a time, which is at most the
-- waking time of every task in the list and is the waking time of one of them.
find_earliest_waking_time-least :
    (s : Scheduler)
    → s.l.first ≢ []
    → AllLive s s.l.first
    → (t : ℤ) × (find_earliest_waking_time s ≡ ok t)
      × IsBelow s t s.l.first
      × IsWaking s t s.l.first
unfolding find_earliest_waking_time
find_earliest_waking_time-least s ne h =
    let (t, run, below, waking) = earliest_of s s.l.first ne h in (t, rw run refl, below, waking)
