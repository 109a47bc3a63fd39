-- ===== src/ThreadPool/Drain.antt =====
-- A worker returns only when the pool is stopped and the queue is empty, so once all workers have
-- returned (helper/ThreadPool.h, the joins of the destructor) every accepted task has been run.
use mathlib.Core.List.{Perm}
use mathlib.Core.Path.{subst}
use ip_ndn_stack_cpp.Prelude.{
  ℕ, zero, suc, ◌≡◌, refl, sym, ap, ◌∙◌, List, [], ◌∷◌, ◌++◌, append-nil, true, some, arith, All,
}
use ip_ndn_stack_cpp.ThreadPool.{
  Worker, waiting, sleeping, running, exited, Shared, Pool, idle_workers, create, enqueue,
  take_task, worker_step, shut, wake, wake_all, Step, works, wakes, enqueues, notifies,
  notifies_none, shuts, notifies_all, Reach, here, next,
}
use ip_ndn_stack_cpp.ThreadPool.Order.{in_hand, Reach-IsOrderly}

module _ {ℓ} {Task : Type ℓ} where
  -- The pool is stopped and nothing waits.
  abbrev pub IsOver : Shared Task → Type ℓ
  IsOver s = (s.stop ≡ true) × (s.tasks ≡ [])

  -- Had this worker returned, the pool was over.
  abbrev pub Justified : Shared Task → Worker Task → Type ℓ
  Justified s waiting = Unit
  Justified s sleeping = Unit
  Justified s (running t) = Unit
  Justified s exited = IsOver s

  AllJustified : Shared Task → List (Worker Task) → Type ℓ
  AllJustified s = All (Justified s)

  worker_step-IsOver :
      (w w' : Worker Task) (s s' : Shared Task)
      → worker_step w s ≡ some (w', s')
      → IsOver s
      → IsOver s'
  unfolding worker_step take_task
  worker_step-IsOver waiting w' s s' p h = ground arith
  worker_step-IsOver sleeping w' s s' p h = cc
  worker_step-IsOver (running t) w' s s' p h = ground arith
  worker_step-IsOver exited w' s s' p h = cc

  worker_step-Justified :
      (w w' : Worker Task) (s s' : Shared Task) → worker_step w s ≡ some (w', s') → Justified s' w'
  unfolding worker_step take_task
  worker_step-Justified w waiting s s' p = tt
  worker_step-Justified w sleeping s s' p = tt
  worker_step-Justified w (running t) s s' p = tt
  worker_step-Justified waiting exited s s' p = ground arith
  worker_step-Justified sleeping exited s s' p = cc
  worker_step-Justified (running t) exited s s' p = cc
  worker_step-Justified exited exited s s' p = cc

  Justified-later :
      (s s' : Shared Task)
      → (IsOver s → IsOver s')
      → (w : Worker Task) → Justified s w
      → Justified s' w
  Justified-later s s' keep waiting h = tt
  Justified-later s s' keep sleeping h = tt
  Justified-later s s' keep (running t) h = tt
  Justified-later s s' keep exited h = keep h

  AllJustified-later :
      (s s' : Shared Task)
      → (IsOver s → IsOver s')
      → (ws : List (Worker Task)) → AllJustified s ws
      → AllJustified s' ws
  unfolding AllJustified
  AllJustified-later s s' keep [] h = tt
  AllJustified-later s s' keep (w ∷ ws) (hw, h) =
      (Justified-later s s' keep w hw, AllJustified-later s s' keep ws h)

  replaced :
      (s : Shared Task) (before after : List (Worker Task)) (w w' : Worker Task)
      → Justified s w'
      → AllJustified s (before ++ (w ∷ after))
      → AllJustified s (before ++ (w' ∷ after))
  unfolding AllJustified
  replaced s [] after w w' j (_, h) = (j, h)
  replaced s (b ∷ before) after w w' j (hb, h) = (hb, replaced s before after w w' j h)

  enqueue-IsOver : (t : Task) (s s' : Shared Task) → enqueue t s ≡ some s' → IsOver s → IsOver s'
  unfolding enqueue
  enqueue-IsOver t s s' p h = ground arith

  shut-IsOver : (s : Shared Task) → IsOver s → IsOver (shut s)
  unfolding shut
  shut-IsOver s h = (refl, h.1)

  wake-Justified : (s : Shared Task) (w : Worker Task) → Justified s w → Justified s (wake w)
  unfolding wake
  wake-Justified s waiting h = tt
  wake-Justified s sleeping h = tt
  wake-Justified s (running t) h = tt
  wake-Justified s exited h = h

  wake_all-AllJustified :
      (s : Shared Task) (ws : List (Worker Task)) → AllJustified s ws → AllJustified s (wake_all ws)
  unfolding AllJustified wake_all
  wake_all-AllJustified s [] h = tt
  wake_all-AllJustified s (w ∷ ws) (hw, h) = (wake-Justified s w hw, wake_all-AllJustified s ws h)

  OfPool : Pool Task → Type ℓ
  OfPool p = AllJustified p.shared p.workers

  Step-AllJustified : {p q : Pool Task} → Step p q → OfPool p → OfPool q
  unfolding OfPool
  Step-AllJustified {p} (works before after w w' s' e st to) h = subst OfPool (sym to) (
      replaced s' before after w w' (worker_step-Justified w w' p.shared s' st) (
        AllJustified-later p.shared s' (worker_step-IsOver w w' p.shared s' st)
          (before ++ (w ∷ after)) (rw e at h)))
  Step-AllJustified {p} (wakes before after e to) h =
      subst OfPool (sym to) (replaced p.shared before after sleeping waiting tt (rw e at h))
  Step-AllJustified {p} (enqueues t s' e to) h =
      subst OfPool (sym to)
        (AllJustified-later p.shared s' (enqueue-IsOver t p.shared s' e) p.workers h)
  Step-AllJustified {p} (notifies before after n c e to) h =
      subst OfPool (sym to) (replaced p.shared before after sleeping waiting tt (rw e at h))
  Step-AllJustified {p} (notifies_none n c e to) h = subst OfPool (sym to) h
  Step-AllJustified {p} (shuts d to) h =
      subst OfPool (sym to)
        (AllJustified-later p.shared (shut p.shared) (shut-IsOver p.shared) p.workers h)
  Step-AllJustified {p} (notifies_all d to) h =
      subst OfPool (sym to) (wake_all-AllJustified p.shared p.workers h)

  idle-AllJustified : (s : Shared Task) (threads : ℕ) → AllJustified s (idle_workers threads)
  unfolding AllJustified idle_workers
  idle-AllJustified s zero = tt
  idle-AllJustified s (suc threads) = (tt, idle-AllJustified s threads)

  Reach-OfPool : (threads : ℕ) {p : Pool Task} → Reach (create threads) p → OfPool p
  unfolding create OfPool
  Reach-OfPool threads here = idle-AllJustified _ threads
  Reach-OfPool threads (next r st) = Step-AllJustified st (Reach-OfPool threads r)

  Reach-AllJustified :
      (threads : ℕ) {p : Pool Task} → Reach (create threads) p → AllJustified p.shared p.workers
  unfolding OfPool
  Reach-AllJustified threads r = Reach-OfPool threads r

  -- Every worker has returned, which is what the destructor waits for.
  abbrev pub AllExited : List (Worker Task) → Type ℓ
  AllExited = All (λ w. w ≡ exited)

  exited-in_hand : (ws : List (Worker Task)) → AllExited ws → in_hand ws ≡ []
  exited-in_hand [] h = refl
  exited-in_hand (w ∷ ws) (e, h) = rw e (exited-in_hand ws h)

  exited-IsOver :
      (s : Shared Task) (w : Worker Task) (ws : List (Worker Task))
      → AllExited (w ∷ ws)
      → AllJustified s (w ∷ ws)
      → IsOver s
  unfolding AllJustified
  exited-IsOver s w ws (e, _) (j, _) = rw e at j

  -- Once all workers of a pool that has any have returned, in whatever state it reached, the pool was
  -- stopped, every accepted task was taken, in the order of acceptance, and every accepted task has
  -- been run, as often as it was accepted.
  pub exited-finished :
      (threads : ℕ) {p : Pool Task} (w : Worker Task) (ws : List (Worker Task))
      → Reach (create threads) p
      → p.workers ≡ w ∷ ws
      → AllExited (w ∷ ws)
      → (p.shared.stop ≡ true)
        × (p.shared.started ≡ p.shared.accepted)
        × Perm p.shared.accepted p.shared.finished
  exited-finished threads {p} w ws r e x =
      let orderly = Reach-IsOrderly threads r in
      let (stopped, empty) =
        exited-IsOver p.shared w ws x (rw e at (Reach-AllJustified threads r)) in
      let all_taken : p.shared.started ≡ p.shared.accepted =
        sym (append-nil p.shared.started)
        ∙ ap (λ l. p.shared.started ++ l) (sym empty)
        ∙ orderly.in_order in
      let none_left : p.shared.finished ++ in_hand p.workers ≡ p.shared.finished =
        ap (λ l. p.shared.finished ++ in_hand l) e
        ∙ ap (λ l. p.shared.finished ++ l) (exited-in_hand (w ∷ ws) x)
        ∙ append-nil p.shared.finished in
      (
        stopped,
        all_taken,
        subst (λ l. Perm l p.shared.finished) all_taken
            (subst (Perm p.shared.started) none_left orderly.kept),
      )
