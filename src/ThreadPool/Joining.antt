-- ===== src/ThreadPool/Joining.antt =====
-- The joins of the destructor (helper/ThreadPool.h), after it stopped the pool and notified all.
use mathlib.Core.Path.{subst}
use ip_ndn_stack_cpp.Prelude.{
  ℕ, ◌≢◌, ◌+◌, ◌<◌, ◌≤◌, ◌≡◌, refl, sym, ap, ◌∙◌, ◌⊎◌, inl, inr, List, [], ◌∷◌, ◌++◌, true, some,
  arith, append_assoc,
}
use ip_ndn_stack_cpp.ThreadPool.{
  Worker, waiting, sleeping, running, exited, Shared, Pool, alive, stopping, joining, create,
  take_task, worker_step, total, asleep, sleepers, Step, works, wakes, enqueues, notifies,
  notifies_none, shuts, notifies_all, Reach, here, next,
}
use ip_ndn_stack_cpp.ThreadPool.Drain.{AllExited}
use ip_ndn_stack_cpp.ThreadPool.Progress.{
  weight, measure, total-replaced, worker_step-falls, enqueue-stopped, Stands, StandsPool,
  Step-Stands, Reach-Stands,
}

module _ {ℓ} {Task : Type ℓ} where
  -- The destructor joins the workers of a stopped pool in which nobody sleeps.
  record IsJoined (p : Pool Task) : Type 0 where
    pub joins : p.destructor ≡ joining
    pub stopped : p.shared.stop ≡ true
    pub none_sleeps : sleepers p.workers ≡ 0

  of_Stands : (p : Pool Task) → p.destructor ≡ joining → StandsPool p → IsJoined p
  unfolding StandsPool Stands
  of_Stands p j h =
      let (stopped, none_sleeps) = subst (λ d. Stands d p) j h in
      record { joins = j; stopped = stopped; none_sleeps = none_sleeps }

  to_Stands : (p : Pool Task) → IsJoined p → StandsPool p
  unfolding StandsPool Stands
  to_Stands p h = subst (λ d. Stands d p) (sym h.joins) (h.stopped, h.none_sleeps)

  not_alive : (p : Pool Task) → IsJoined p → p.destructor ≢ alive
  not_alive p h e = cc (h.joins)

  not_stopping : (p : Pool Task) → IsJoined p → p.destructor ≢ stopping
  not_stopping p h e = cc (h.joins)

  no_sleeper :
      (p : Pool Task) (before after : List (Worker Task))
      → IsJoined p
      → p.workers ≢ before ++ (sleeping ∷ after)
  no_sleeper p before after h e =
      omega (arith, h.none_sleeps, ap sleepers e, total-replaced asleep before after sleeping)

  Step-joining : {p q : Pool Task} → Step p q → IsJoined p → q.destructor ≡ joining
  Step-joining {p} (works before after w w' s' e st to) h = ap (λ x. x.destructor) to ∙ h.joins
  Step-joining {p} (wakes before after e to) h = ap (λ x. x.destructor) to ∙ h.joins
  Step-joining {p} (enqueues t s' e to) h = ap (λ x. x.destructor) to ∙ h.joins
  Step-joining {p} (notifies before after n c e to) h = ap (λ x. x.destructor) to ∙ h.joins
  Step-joining {p} (notifies_none n c e to) h = ap (λ x. x.destructor) to ∙ h.joins
  Step-joining {p} (shuts d to) h = absurd (not_alive p h d)
  Step-joining {p} (notifies_all d to) h = absurd (not_stopping p h d)

  Step-falls : {p q : Pool Task} → Step p q → IsJoined p → measure q < measure p
  Step-falls {p} (works before after w w' s' e st to) h = omega (
    arith,
    ap measure to,
    ap (total weight) e,
    worker_step-falls w w' p.shared s' st,
    total-replaced weight before after w,
    total-replaced weight before after w',
  )
  Step-falls {p} (wakes before after e to) h = absurd (no_sleeper p before after h e)
  Step-falls {p} (enqueues t s' e to) h = absurd (enqueue-stopped t p.shared s' e h.stopped)
  Step-falls {p} (notifies before after n c e to) h = absurd (no_sleeper p before after h e)
  Step-falls {p} (notifies_none n c e to) h = omega (arith, ap measure to, c)
  Step-falls {p} (shuts d to) h = absurd (not_alive p h d)
  Step-falls {p} (notifies_all d to) h = absurd (not_stopping p h d)

  Step-IsJoined : {p q : Pool Task} → Step p q → IsJoined p → IsJoined q
  Step-IsJoined {p} {q} st h = of_Stands q (Step-joining st h) (Step-Stands st (to_Stands p h))

  take_task-runs :
      (ts : List Task) (s : Shared Task)
      → s.stop ≡ true
      → (w' : Worker Task) × (s' : Shared Task) × (take_task ts s ≡ some (w', s'))
  unfolding take_task
  take_task-runs [] s h = (exited, s, rw h)
  take_task-runs (t ∷ ts) s h = (running t, _, refl)

  worker_step-runs :
      (w : Worker Task) (s : Shared Task)
      → s.stop ≡ true
      → asleep w ≡ 0
      → (w ≡ exited) ⊎ ((w' : Worker Task) × (s' : Shared Task) × (worker_step w s ≡ some (w', s')))
  unfolding worker_step
  worker_step-runs waiting s h a = inr (take_task-runs s.tasks s h)
  worker_step-runs sleeping s h a = absurd (omega arith)
  worker_step-runs (running t) s h a = inr (waiting, _, refl)
  worker_step-runs exited s h a = inl refl

  later :
      {p : Pool Task} (w : Worker Task) (ws : List (Worker Task))
      → w ≡ exited
      → AllExited ws ⊎ ((q : Pool Task) × Step p q)
      → AllExited (w ∷ ws) ⊎ ((q : Pool Task) × Step p q)
  later w ws e (inl h) = inl (e, h)
  later w ws e (inr s) = inr s

  -- The first worker that has not returned, if there is one, takes a step.
  some_step :
      (p : Pool Task) (before ws : List (Worker Task))
      → p.workers ≡ before ++ ws
      → p.shared.stop ≡ true
      → sleepers ws ≡ 0
      → AllExited ws ⊎ ((q : Pool Task) × Step p q)
  some_step p before [] e h a = inl tt
  some_step p before (w ∷ ws) e h a = elim (worker_step-runs w p.shared h (omega (arith, a))) [
    | inr (w', s', st) ↦ inr (_, works before ws w w' s' e st refl)
    | inl returned ↦ later w ws returned (
        some_step p (before ++ w ∷ []) ws (e ∙ sym (append_assoc before (w ∷ []) ws)) h
          (omega (arith, a)))
  ]

  -- How many steps lead from one state to another.
  abbrev pub steps : {p q : Pool Task} → Reach p q → ℕ
  steps here = 0
  steps (next r st) = steps r + 1

  steps-falls :
      {p q : Pool Task}
      → IsJoined p
      → (r : Reach p q) → IsJoined q × (steps r + measure q ≤ measure p)
  steps-falls h here = (h, omega arith)
  steps-falls h (next r st) =
      let (j, le) = steps-falls h r in (Step-IsJoined st j, omega (arith, le, Step-falls st j))

  -- Once the destructor of a pool, in whatever state it was, has set `stop` and notified all workers,
  -- no run of the pool takes more steps than the measure of that state, three for each task in the
  -- queue, two for each running one, one for each worker that waits for the mutex and one for each
  -- call of notify_one still to come; and wherever a run has got to, all workers have returned or
  -- some step is possible. Running a task is one step.
  pub joins_end :
      (threads : ℕ) {p q : Pool Task}
      → Reach (create threads) p
      → p.destructor ≡ joining
      → (r : Reach p q)
      → (steps r + measure q ≤ measure p) × (AllExited q.workers ⊎ ((q' : Pool Task) × Step q q'))
  joins_end threads {p} {q} before j r =
      let (h, le) = steps-falls (of_Stands p j (Reach-Stands threads before)) r in
      (le, some_step q [] q.workers refl h.stopped h.none_sleeps)
