-- ===== src/ThreadPool/Wakeups.antt =====
-- No wakeup is lost (helper/ThreadPool.h: the wait of a worker, and notify_one of enqueue): waiting
-- tasks are looked after by workers that are awake or by notifications still to come.
use mathlib.Core.Path.{subst}
use ip_ndn_stack_cpp.Prelude.{
  ℕ, ◌+◌, ◌<◌, ◌≤◌, ◌≡◌, refl, ap, sym, ◌⊎◌, inl, inr, List, [], ◌∷◌, ◌++◌, some, arith, length,
  length-append,
}
use ip_ndn_stack_cpp.ThreadPool.{
  Worker, waiting, sleeping, running, exited, Shared, Pool, create, enqueue, take_task, worker_step,
  shut, total, asleep, sleepers, Step, works, wakes, enqueues, notifies, notifies_none, shuts,
  notifies_all, Reach, here, next,
}
use ip_ndn_stack_cpp.ThreadPool.Progress.{total-replaced, sleepers-wake_all}

module _ {ℓ} {Task : Type ℓ} where
  -- A worker that will look at the queue before it sleeps.
  abbrev pub awake : Worker Task → ℕ
  awake waiting = 1
  awake sleeping = 0
  awake (running t) = 0
  awake exited = 0

  IsCovered : Pool Task → Type 0
  IsCovered p =
      (sleepers p.workers ≡ 0) ⊎ (length p.shared.tasks ≤ p.notifications + total awake p.workers)

  -- A worker that leaves tasks behind does not sleep, and takes as many as it stops looking after.
  take_task-covers :
      (ts : List Task) (w' : Worker Task) (s s' : Shared Task)
      → s.tasks ≡ ts
      → take_task ts s ≡ some (w', s')
      → (length s'.tasks ≡ 0)
        ⊎ ((asleep w' ≡ 0) × (length s'.tasks + 1 ≤ length s.tasks + awake w'))
  unfolding take_task
  take_task-covers [] w' s s' e p = inl (ground arith)
  take_task-covers (t ∷ ts) w' s s' e p = inr (ground arith)

  worker_step-covers :
      (w w' : Worker Task) (s s' : Shared Task)
      → worker_step w s ≡ some (w', s')
      → (length s'.tasks ≡ 0)
        ⊎ ((asleep w' ≡ 0) × (length s'.tasks + awake w ≤ length s.tasks + awake w'))
  unfolding worker_step
  worker_step-covers waiting w' s s' p = take_task-covers s.tasks w' s s' refl p
  worker_step-covers sleeping w' s s' p = cc
  worker_step-covers (running t) w' s s' p = inr (ground arith)
  worker_step-covers exited w' s s' p = cc

  enqueue-length :
      (t : Task) (s s' : Shared Task) → enqueue t s ≡ some s' → length s'.tasks ≡ length s.tasks + 1
  unfolding enqueue
  enqueue-length t s s' p = ground (arith, length-append s.tasks (t ∷ []))

  worked-IsCovered :
      (p : Pool Task) (before after : List (Worker Task)) (w w' : Worker Task) (s' : Shared Task)
      → p.workers ≡ before ++ (w ∷ after)
      → worker_step w p.shared ≡ some (w', s')
      → IsCovered p
      → IsCovered (record p { shared = s'; workers = before ++ (w' ∷ after) })
  unfolding IsCovered
  worked-IsCovered p before after w w' s' e st h = elim (worker_step-covers w w' p.shared s' st) [
    | inl empty ↦ inr (omega (arith, empty))
    | inr moved ↦ omega (
      arith,
      h,
      moved.0,
      moved.1,
      ap sleepers e,
      ap (total awake) e,
      total-replaced asleep before after w,
      total-replaced asleep before after w',
      total-replaced awake before after w,
      total-replaced awake before after w',
    )
  ]

  -- A worker that wakes covers one task more, so that a notification may be used up.
  woken-IsCovered :
      (p : Pool Task) (before after : List (Worker Task)) (n : ℕ)
      → p.notifications ≤ n + 1
      → p.workers ≡ before ++ (sleeping ∷ after)
      → IsCovered p
      → IsCovered (record p { workers = before ++ (waiting ∷ after); notifications = n })
  unfolding IsCovered
  woken-IsCovered p before after n c e h = omega (
    arith,
    h,
    ap sleepers e,
    ap (total awake) e,
    total-replaced asleep before after sleeping,
    total-replaced asleep before after waiting,
    total-replaced awake before after sleeping,
    total-replaced awake before after waiting,
  )

  Step-IsCovered : {p q : Pool Task} → Step p q → IsCovered p → IsCovered q
  unfolding IsCovered shut
  Step-IsCovered {p} (works before after w w' s' e st to) h =
      subst IsCovered (sym to) (worked-IsCovered p before after w w' s' e st h)
  Step-IsCovered {p} (wakes before after e to) h =
      subst IsCovered (sym to) (woken-IsCovered p before after p.notifications (omega arith) e h)
  Step-IsCovered {p} (enqueues t s' e to) h =
      subst IsCovered (sym to) (omega (arith, h, enqueue-length t p.shared s' e))
  Step-IsCovered {p} (notifies before after n c e to) h =
      subst IsCovered (sym to) (woken-IsCovered p before after n (omega (arith, c)) e h)
  Step-IsCovered {p} (notifies_none n c e to) h = subst IsCovered (sym to) (inl e)
  Step-IsCovered {p} (shuts d to) h = subst IsCovered (sym to) h
  Step-IsCovered {p} (notifies_all d to) h =
      subst IsCovered (sym to) (inl (sleepers-wake_all p.workers))

  Reach-IsCovered : (threads : ℕ) {p : Pool Task} → Reach (create threads) p → IsCovered p
  unfolding IsCovered create
  Reach-IsCovered threads here = inr (omega arith)
  Reach-IsCovered threads (next r st) = Step-IsCovered st (Reach-IsCovered threads r)

  -- In every state that a new pool reaches, where some worker sleeps, there are no more tasks in the
  -- queue than workers that wait for the mutex and calls of notify_one still to come together. So once
  -- the calls of enqueue are over, a task stays in the queue only while a worker is about to look
  -- there or none sleeps.
  pub Reach-covers :
      (threads : ℕ) {p : Pool Task}
      → Reach (create threads) p
      → 0 < sleepers p.workers
      → length p.shared.tasks ≤ p.notifications + total awake p.workers
  unfolding IsCovered
  Reach-covers threads r lt = omega (arith, Reach-IsCovered threads r)
