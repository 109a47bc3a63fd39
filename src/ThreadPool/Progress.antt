-- ===== src/ThreadPool/Progress.antt =====
-- The destructor (helper/ThreadPool.h) ends: once it has stopped the pool and notified all workers,
-- every step lowers a measure of the pool, and some step is possible until all workers have returned.
use mathlib.Core.Path.{subst}
use ip_ndn_stack_cpp.Prelude.{
  ℕ, ◌≢◌, ◌+◌, ◌*◌, ◌<◌, ◌≡◌, refl, sym, ap, List, [], ◌∷◌, ◌++◌, true, some, arith, length,
}
use ip_ndn_stack_cpp.ThreadPool.{
  Worker, waiting, sleeping, running, exited, Shared, Pool, alive, stopping, joining, Destructor,
  create, enqueue, take_task, worker_step, shut, wake, wake_all, total, asleep, sleepers, Step,
  works, wakes, enqueues, notifies, notifies_none, shuts, notifies_all, Reach, here, next,
}

module _ {ℓ} {Task : Type ℓ} where
  -- How far a worker is from returning.
  abbrev pub weight : Worker Task → ℕ
  weight waiting = 1
  weight sleeping = 0
  weight (running t) = 2
  weight exited = 0

  -- How far the pool is from all workers having returned.
  abbrev pub measure : Pool Task → ℕ
  measure p = 3 * length p.shared.tasks + total weight p.workers + p.notifications

  pub total-replaced :
      (f : Worker Task → ℕ) (before after : List (Worker Task)) (w : Worker Task)
      → total f (before ++ (w ∷ after)) ≡ f w + total f (before ++ after)
  total-replaced f [] after w = refl
  total-replaced f (b ∷ before) after w = omega (arith, total-replaced f before after w)

  take_task-falls :
      (ts : List Task) (w' : Worker Task) (s s' : Shared Task)
      → s.tasks ≡ ts
      → take_task ts s ≡ some (w', s')
      → 3 * length s'.tasks + weight w' < 3 * length s.tasks + 1
  unfolding take_task
  take_task-falls [] w' s s' e p = ground arith
  take_task-falls (t ∷ ts) w' s s' e p = ground arith

  pub worker_step-falls :
      (w w' : Worker Task) (s s' : Shared Task)
      → worker_step w s ≡ some (w', s')
      → 3 * length s'.tasks + weight w' < 3 * length s.tasks + weight w
  unfolding worker_step
  worker_step-falls waiting w' s s' p = take_task-falls s.tasks w' s s' refl p
  worker_step-falls sleeping w' s s' p = cc
  worker_step-falls (running t) w' s s' p = ground arith
  worker_step-falls exited w' s s' p = cc

  -- In a stopped pool nobody falls asleep.
  worker_step-stopped :
      (w w' : Worker Task) (s s' : Shared Task)
      → worker_step w s ≡ some (w', s')
      → s.stop ≡ true
      → (s'.stop ≡ true) × (asleep w' ≡ 0)
  unfolding worker_step take_task
  worker_step-stopped waiting w' s s' p h = ground arith
  worker_step-stopped sleeping w' s s' p h = cc
  worker_step-stopped (running t) w' s s' p h = ground arith
  worker_step-stopped exited w' s s' p h = cc

  pub enqueue-stopped : (t : Task) (s s' : Shared Task) → enqueue t s ≡ some s' → s.stop ≢ true
  unfolding enqueue
  enqueue-stopped t s s' p h = ground arith

  asleep-wake : (w : Worker Task) → asleep (wake w) ≡ 0
  unfolding wake
  asleep-wake waiting = refl
  asleep-wake sleeping = refl
  asleep-wake (running t) = refl
  asleep-wake exited = refl

  pub sleepers-wake_all : (ws : List (Worker Task)) → sleepers (wake_all ws) ≡ 0
  unfolding wake_all
  sleepers-wake_all [] = refl
  sleepers-wake_all (w ∷ ws) = omega (arith, asleep-wake w, sleepers-wake_all ws)

  -- What holds where the destructor stands.
  unfoldable pub Stands : Destructor → Pool Task → Type 0
  Stands alive p = Unit
  Stands stopping p = p.shared.stop ≡ true
  Stands joining p = (p.shared.stop ≡ true) × (sleepers p.workers ≡ 0)

  unfoldable pub StandsPool : Pool Task → Type 0
  StandsPool p = Stands p.destructor p

  worked-Stands :
      (d : Destructor) (p : Pool Task) (before after : List (Worker Task)) (w w' : Worker Task)
      (s' : Shared Task)
      → p.workers ≡ before ++ (w ∷ after)
      → worker_step w p.shared ≡ some (w', s')
      → Stands d p
      → Stands d (record p { shared = s'; workers = before ++ (w' ∷ after) })
  unfolding Stands
  worked-Stands alive p before after w w' s' e st h = tt
  worked-Stands stopping p before after w w' s' e st h =
      (worker_step-stopped w w' p.shared s' st h).0
  worked-Stands joining p before after w w' s' e st (h, none_sleeps) =
      let (stop, awake) = worker_step-stopped w w' p.shared s' st h in
      (
        stop,
        omega (
          arith,
          awake,
          none_sleeps,
          ap sleepers e,
          total-replaced asleep before after w,
          total-replaced asleep before after w',
        ),
      )

  woken-Stands :
      (d : Destructor) (p : Pool Task) (before after : List (Worker Task)) (n : ℕ)
      → p.workers ≡ before ++ (sleeping ∷ after)
      → Stands d p
      → Stands d (record p { workers = before ++ (waiting ∷ after); notifications = n })
  unfolding Stands
  woken-Stands alive p before after n e h = tt
  woken-Stands stopping p before after n e h = h
  woken-Stands joining p before after n e (h, none_sleeps) =
      absurd
        (omega (arith, none_sleeps, ap sleepers e, total-replaced asleep before after sleeping))

  enqueued-Stands :
      (d : Destructor) (p : Pool Task) (t : Task) (s' : Shared Task) (n : ℕ)
      → enqueue t p.shared ≡ some s'
      → Stands d p
      → Stands d (record p { shared = s'; notifications = n })
  unfolding Stands
  enqueued-Stands alive p t s' n e h = tt
  enqueued-Stands stopping p t s' n e h = absurd (enqueue-stopped t p.shared s' e h)
  enqueued-Stands joining p t s' n e (h, _) = absurd (enqueue-stopped t p.shared s' e h)

  notified-Stands :
      (d : Destructor) (p : Pool Task) (n : ℕ)
      → Stands d p
      → Stands d (record p { notifications = n })
  unfolding Stands
  notified-Stands alive p n h = h
  notified-Stands stopping p n h = h
  notified-Stands joining p n h = h

  pub Step-Stands : {p q : Pool Task} → Step p q → StandsPool p → StandsPool q
  unfolding StandsPool Stands shut
  Step-Stands {p} (works before after w w' s' e st to) h =
      subst StandsPool (sym to) (worked-Stands p.destructor p before after w w' s' e st h)
  Step-Stands {p} (wakes before after e to) h =
      subst StandsPool (sym to) (woken-Stands p.destructor p before after p.notifications e h)
  Step-Stands {p} (enqueues t s' e to) h =
      subst StandsPool (sym to) (enqueued-Stands p.destructor p t s' _ e h)
  Step-Stands {p} (notifies before after n c e to) h =
      subst StandsPool (sym to) (woken-Stands p.destructor p before after n e h)
  Step-Stands {p} (notifies_none n c e to) h =
      subst StandsPool (sym to) (notified-Stands p.destructor p n h)
  Step-Stands {p} (shuts d to) h = subst StandsPool (sym to) refl
  Step-Stands {p} (notifies_all d to) h =
      subst StandsPool (sym to) (subst (λ x. Stands x p) d h, sleepers-wake_all p.workers)

  pub Reach-Stands : (threads : ℕ) {p : Pool Task} → Reach (create threads) p → StandsPool p
  unfolding StandsPool Stands create
  Reach-Stands threads here = tt
  Reach-Stands threads (next r st) = Step-Stands st (Reach-Stands threads r)
