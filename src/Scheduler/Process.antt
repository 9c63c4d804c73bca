-- ===== src/Scheduler/Process.antt =====
-- scheduler.c: `process_tasks` calls exactly the tasks that are due, and leaves none due.
use lynx_lwm2m.Base.{
  ◌≡◌, ◌≢◌, refl, sym, ◌∙◌, inl, inr, Option, none, some, List, [], ◌∷◌, arith, ℤ, pos, ◌+ℤ◌, ◌==◌,
  ==_iff, ==-refl, ◌<ℤ◌, ltb_ℤ, ok, if◌then◌else◌, Bool-cases,
}
use lynx_lwm2m.Model.{TaskPtr, Task, Call, Scheduler}
use lynx_lwm2m.Scheduler.{
  put_task, call_function, process_task, process_loop, process_tasks, is_notify,
}
use lynx_lwm2m.Scheduler.Earliest.{AllLive}

-- The pointer does not occur, and no pointer occurs twice.
abbrev pub NotIn : TaskPtr → List (ℤ × TaskPtr) → Type 0
NotIn p [] = Unit {0}
NotIn p ((key, q) ∷ l) = (p ≢ q) × NotIn p l

abbrev pub AllDistinct : List (ℤ × TaskPtr) → Type 0
AllDistinct [] = Unit {0}
AllDistinct ((key, p) ∷ l) = NotIn p l × AllDistinct l

-- A task after a round at `now`: one that is due wakes again after its period.
unfoldable pub processed : ℤ → Task → Task
processed now task = if ltb_ℤ now task.waking_time then task else record task {
  waking_time = now +ℤ task.period;
  last_waking_time = if is_notify task.function then now else task.last_waking_time;
}

-- The calls for the due tasks of a list whose tasks stand in `heap`, the latest first.
unfoldable pub due_calls : ℤ → (TaskPtr → Option Task) → List (ℤ × TaskPtr) → List Call → List Call
due_calls now heap [] calls = calls
due_calls now heap ((key, p) ∷ l) calls = due_calls now heap l (called (heap p))
  where
    called : Option Task → List Call
    called none = calls
    called (some task) =
        if ltb_ℤ now task.waking_time then calls else record { task = p; arg = none } ∷ calls

-- The memory after the round.
unfoldable pub processed_heap :
    ℤ → (TaskPtr → Option Task) → List (ℤ × TaskPtr) → TaskPtr → Option Task
unfolding processed
processed_heap now heap [] q = heap q
processed_heap now heap ((key, p) ∷ l) q =
    if q == p then mapped (heap p) else processed_heap now heap l q
  where
    mapped : Option Task → Option Task
    mapped none = none
    mapped (some task) = some (processed now task)

process_one :
    (now : ℤ) (s : Scheduler) (p : TaskPtr) (task : Task)
    → s.heap p ≡ some task
    → (s' : Scheduler) × (process_task now s p ≡ ok s')
      × (s'.l ≡ s.l)
      × (s'.calls ≡ (
          if ltb_ℤ now task.waking_time
          then s.calls
          else record { task = p; arg = none } ∷ s.calls))
      × ((q : TaskPtr) → s'.heap q ≡ (if q == p then some (processed now task) else s.heap q))
unfolding process_task call_function put_task processed
process_one now s p task live = elim (Bool-cases (ltb_ℤ now task.waking_time)) [
  | inl later ↦ (
    s,
    ground (arith, live, later),
    refl,
    ground (arith, later),
    λ q. ground (arith, live, later),
  )
  | inr due ↦ (
    put_task (call_function now s p task none) p (processed now task),
    ground (arith, live, due, ==-refl p),
    ground (arith, live, due),
    ground (arith, live, due),
    λ q. ground (arith, live, due),
  )
]

module _ (now : ℤ) (p : TaskPtr) (f g : TaskPtr → Option Task)
    (same : (q : TaskPtr) → p ≢ q → f q ≡ g q) where
  due_calls-same :
      (l : List (ℤ × TaskPtr)) (calls : List Call)
      → NotIn p l
      → due_calls now f l calls ≡ due_calls now g l calls
  unfolding due_calls
  due_calls-same [] calls h = refl
  due_calls-same ((key, q) ∷ l) calls (ne, h) = rw (same q ne) (due_calls-same l _ h)

  processed_heap-same :
      (l : List (ℤ × TaskPtr)) (q : TaskPtr)
      → NotIn p l
      → p ≢ q
      → processed_heap now f l q ≡ processed_heap now g l q
  unfolding processed_heap
  processed_heap-same [] q h ne = same q ne
  processed_heap-same ((key, r) ∷ l) q (nr, h) ne =
      rw (same r nr, processed_heap-same l q h ne) refl

processed_heap-NotIn :
    (now : ℤ) (heap : TaskPtr → Option Task) (l : List (ℤ × TaskPtr)) (p : TaskPtr)
    → NotIn p l
    → processed_heap now heap l p ≡ heap p
unfolding processed_heap
processed_heap-NotIn now heap [] p h = refl
processed_heap-NotIn now heap ((key, q) ∷ l) p (ne, h) =
    ground (arith, processed_heap-NotIn now heap l p h, ==_iff p q, ne)

AllLive-same :
    (s s' : Scheduler) (p : TaskPtr) (l : List (ℤ × TaskPtr))
    → ((q : TaskPtr) → p ≢ q → s.heap q ≡ s'.heap q)
    → NotIn p l
    → AllLive s l
    → AllLive s' l
AllLive-same s s' p [] same h live = tt
AllLive-same s s' p ((key, q) ∷ l) same (ne, h) ((task, eq), live) =
    ((task, sym (same q ne) ∙ eq), AllLive-same s s' p l same h live)

process_loop-due :
    (now : ℤ) (s : Scheduler) (l : List (ℤ × TaskPtr))
    → AllLive s l
    → AllDistinct l
    → (s' : Scheduler) × (process_loop now l s ≡ ok s')
      × (s'.l ≡ s.l)
      × (s'.calls ≡ due_calls now s.heap l s.calls)
      × ((q : TaskPtr) → s'.heap q ≡ processed_heap now s.heap l q)
unfolding process_loop due_calls processed_heap
process_loop-due now s [] live d = (s, refl, refl, refl, λ q. refl)
process_loop-due now s ((key, p) ∷ l) ((task, eq), live) (nin, d) =
    let (s1, run1, l1, calls1, heap1) = process_one now s p task eq in
    let same : (q : TaskPtr) → p ≢ q → s.heap q ≡ s1.heap q =
      λ q ne. ground (arith, heap1 q, ==_iff q p, ne) in
    let back : (q : TaskPtr) → p ≢ q → s1.heap q ≡ s.heap q = λ q ne. sym (same q ne) in
    let (s2, run2, l2, calls2, heap2) =
      process_loop-due now s1 l (AllLive-same s s1 p l same nin live) d in
    (
      s2,
      rw run1 run2,
      l2 ∙ l1,
      calls2 ∙ rw (eq, due_calls-same now p s1.heap s.heap back l s1.calls nin, calls1) refl,
      λ q.
          at s1.heap s2.heap q (heap2 q) (heap1 q) (processed_heap-NotIn now s1.heap l p nin)
            (processed_heap-same now p s1.heap s.heap back l q nin),
    )
  where
    at :
        (f1 f2 : TaskPtr → Option Task) (q : TaskPtr)
        → f2 q ≡ processed_heap now f1 l q
        → f1 q ≡ (if q == p then some (processed now task) else s.heap q)
        → processed_heap now f1 l p ≡ f1 p
        → (p ≢ q → processed_heap now f1 l q ≡ processed_heap now s.heap l q)
        → f2 q ≡ processed_heap now s.heap ((key, p) ∷ l) q
    at f1 f2 q h2 h1 out there = elim (Bool-cases (q == p)) [
      | inl here ↦ ground (arith, ==_iff q p, here, eq)
      | inr other ↦ ground (arith, ==_iff q p, other, there)
    ]

-- For a list of tasks that are all live and all distinct, a round at `now` returns; the list is
-- kept; the calls made are one for each task whose waking time was at most `now`, in
-- the list's order; of the memory only these tasks change: their waking time becomes
-- `now` plus their period, and a notifying task's last waking time becomes `now`.
pub process_tasks-due :
    (now : ℤ) (s : Scheduler)
    → AllLive s s.l.first
    → AllDistinct s.l.first
    → (s' : Scheduler) × (process_tasks now s ≡ ok s')
      × (s'.l ≡ s.l)
      × (s'.calls ≡ due_calls now s.heap s.l.first s.calls)
      × ((q : TaskPtr) → s'.heap q ≡ processed_heap now s.heap s.l.first q)
unfolding process_tasks
process_tasks-due now s live d = process_loop-due now s s.l.first live d

-- Every task in the list is live and has a positive period.
abbrev pub AllPeriodic : Scheduler → List (ℤ × TaskPtr) → Type 0
AllPeriodic s [] = Unit {0}
AllPeriodic s ((key, p) ∷ l) =
    ((task : Task) × (s.heap p ≡ some task) × (pos 0 <ℤ task.period)) × AllPeriodic s l

AllPeriodic-AllLive : (s : Scheduler) (l : List (ℤ × TaskPtr)) → AllPeriodic s l → AllLive s l
AllPeriodic-AllLive s [] h = tt
AllPeriodic-AllLive s ((key, p) ∷ l) ((task, eq, positive), h) =
    ((task, eq), AllPeriodic-AllLive s l h)

-- Every task in the list is live and wakes after `now`.
abbrev pub AllLater : ℤ → (TaskPtr → Option Task) → List (ℤ × TaskPtr) → Type 0
AllLater now heap [] = Unit {0}
AllLater now heap ((key, p) ∷ l) =
    ((task : Task) × (heap p ≡ some task) × (now <ℤ task.waking_time)) × AllLater now heap l

AllLater-same :
    (now : ℤ) (f g : TaskPtr → Option Task) (p : TaskPtr) (l : List (ℤ × TaskPtr))
    → ((q : TaskPtr) → p ≢ q → g q ≡ f q)
    → NotIn p l
    → AllLater now f l
    → AllLater now g l
AllLater-same now f g p [] same nin h = tt
AllLater-same now f g p ((key, q) ∷ l) same (ne, nin) ((task, eq, lt), h) =
    ((task, same q ne ∙ eq, lt), AllLater-same now f g p l same nin h)

processed-later :
    (now : ℤ) (task : Task) → pos 0 <ℤ task.period → now <ℤ (processed now task).waking_time
unfolding processed
processed-later now task h = ground arith

processed_heap-AllLater :
    (now : ℤ) (s : Scheduler) (l : List (ℤ × TaskPtr))
    → AllDistinct l
    → AllPeriodic s l
    → AllLater now (processed_heap now s.heap l) l
unfolding processed_heap
processed_heap-AllLater now s [] d per = tt
processed_heap-AllLater now s ((key, p) ∷ l) (nin, d) ((task, eq, positive), per) = (
  (processed now task, ground (arith, ==-refl p, eq), processed-later now task positive),
  AllLater-same now (processed_heap now s.heap l) (processed_heap now s.heap ((key, p) ∷ l)) p l
      (λ q ne. ground (arith, ==_iff q p, ne)) nin (processed_heap-AllLater now s l d per),
)

-- For a list of live, distinct tasks with positive periods, a round at `now` returns and leaves
-- every task in the list waking after `now`: none is due again at once.
process_tasks-later :
    (now : ℤ) (s : Scheduler)
    → AllDistinct s.l.first
    → AllPeriodic s s.l.first
    → (s' : Scheduler) × (process_tasks now s ≡ ok s') × AllLater now s'.heap s'.l.first
process_tasks-later now s d per =
    let live = AllPeriodic-AllLive s s.l.first per in
    let (s', run, l, calls, heap) = process_tasks-due now s live d in
    (s', run, rw l (every s' heap s.l.first (processed_heap-AllLater now s s.l.first d per)))
  where
    every :
        (s' : Scheduler)
        → ((q : TaskPtr) → s'.heap q ≡ processed_heap now s.heap s.l.first q)
        → (k : List (ℤ × TaskPtr)) → AllLater now (processed_heap now s.heap s.l.first) k
        → AllLater now s'.heap k
    every s' heap [] h = tt
    every s' heap ((key, p) ∷ k) ((task, eq, lt), h) = ((task, heap p ∙ eq, lt), every s' heap k h)
