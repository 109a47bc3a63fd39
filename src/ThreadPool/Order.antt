-- ===== src/ThreadPool/Order.antt =====
-- Tasks are taken in the order in which they were accepted, and none is lost or run twice.
use mathlib.Core.List.{perm_middle, Perm}
use mathlib.Core.List.Perm
use ip_ndn_stack_cpp.Prelude.{
  ℕ, zero, suc, ◌≡◌, refl, sym, ap, ◌∙◌, List, [], ◌∷◌, ◌++◌, append-nil, append_assoc, some, arith,
}
use mathlib.Core.Path.{subst}
use ip_ndn_stack_cpp.ThreadPool.{
  Worker, waiting, sleeping, running, exited, Shared, Pool, idle_workers, create, enqueue,
  take_task, worker_step, shut, wake, wake_all, Step, works, wakes, enqueues, notifies,
  notifies_none, shuts, notifies_all, Reach, here, next,
}

module _ {ℓ} {Task : Type ℓ} where
  abbrev pub task_of : Worker Task → List Task
  task_of waiting = []
  task_of sleeping = []
  task_of (running t) = t ∷ []
  task_of exited = []

  -- The tasks that the workers are running.
  abbrev pub in_hand : List (Worker Task) → List Task
  in_hand [] = []
  in_hand (w ∷ ws) = task_of w ++ in_hand ws

  -- What was taken, and then what still waits, is what was accepted, in order.
  abbrev pub InOrder : Shared Task → Type ℓ
  InOrder s = s.started ++ s.tasks ≡ s.accepted

  take_task-InOrder :
      (ts : List Task) (s s' : Shared Task) (w : Worker Task)
      → s.tasks ≡ ts
      → take_task ts s ≡ some (w, s')
      → InOrder s
      → InOrder s'
  unfolding take_task
  take_task-InOrder [] s s' w e p h = ground (arith)
  take_task-InOrder (t ∷ ts) s s' w e p h = ground (arith, append_assoc s.started (t ∷ []) ts)

  enqueue-InOrder : (t : Task) (s s' : Shared Task) → enqueue t s ≡ some s' → InOrder s → InOrder s'
  unfolding enqueue
  enqueue-InOrder t s s' p h = ground (arith, append_assoc s.started s.tasks (t ∷ []))

  worker_step-InOrder :
      (w w' : Worker Task) (s s' : Shared Task)
      → worker_step w s ≡ some (w', s')
      → InOrder s
      → InOrder s'
  unfolding worker_step
  worker_step-InOrder waiting w' s s' p h = take_task-InOrder s.tasks s s' w' refl p h
  worker_step-InOrder sleeping w' s s' p h = cc
  worker_step-InOrder (running t) w' s s' p h = ground arith
  worker_step-InOrder exited w' s s' p h = cc

  enqueue-logs :
      (t : Task) (s s' : Shared Task)
      → enqueue t s ≡ some s'
      → (s'.started ≡ s.started) × (s'.finished ≡ s.finished)
  unfolding enqueue
  enqueue-logs t s s' p = ground arith

  in_hand-append : (xs ys : List (Worker Task)) → in_hand (xs ++ ys) ≡ in_hand xs ++ in_hand ys
  in_hand-append [] ys = refl
  in_hand-append (x ∷ xs) ys =
      ap (λ l. task_of x ++ l) (in_hand-append xs ys)
      ∙ sym (append_assoc (task_of x) (in_hand xs) (in_hand ys))

  -- A worker's step moves one task at most: from the queue to its hand, or from its hand to the
  -- finished ones.
  data Moves (w w' : Worker Task) (s s' : Shared Task) : Type ℓ where
    takes :
        (t : Task)
        → task_of w ≡ []
        → task_of w' ≡ t ∷ []
        → s'.started ≡ s.started ++ t ∷ []
        → s'.finished ≡ s.finished
        → Moves w w' s s'
    finishes :
        (t : Task)
        → task_of w ≡ t ∷ []
        → task_of w' ≡ []
        → s'.started ≡ s.started
        → s'.finished ≡ s.finished ++ t ∷ []
        → Moves w w' s s'
    leaves :
        task_of w ≡ []
        → task_of w' ≡ []
        → s'.started ≡ s.started
        → s'.finished ≡ s.finished
        → Moves w w' s s'

  take_task-Moves :
      (ts : List Task) (s s' : Shared Task) (w' : Worker Task)
      → take_task ts s ≡ some (w', s')
      → Moves waiting w' s s'
  unfolding take_task
  take_task-Moves [] s s' w' p = leaves refl (ground arith) (ground arith) (ground arith)
  take_task-Moves (t ∷ ts) s s' w' p = takes t refl (ground arith) (ground arith) (ground arith)

  worker_step-Moves :
      (w w' : Worker Task) (s s' : Shared Task) → worker_step w s ≡ some (w', s') → Moves w w' s s'
  unfolding worker_step
  worker_step-Moves waiting w' s s' p = take_task-Moves s.tasks s s' w' p
  worker_step-Moves sleeping w' s s' p = cc
  worker_step-Moves (running t) w' s s' p =
      finishes t refl (ground arith) (ground arith) (ground arith)
  worker_step-Moves exited w' s s' p = cc

  -- Every task that was taken is finished or in the hand of a worker, as often as it was taken.
  abbrev pub Kept : Pool Task → Type ℓ
  Kept p = Perm p.shared.started (p.shared.finished ++ in_hand p.workers)

  hands :
      (before after : List (Worker Task)) (w : Worker Task) (ts : List Task)
      → task_of w ≡ ts
      → in_hand (before ++ (w ∷ after)) ≡ in_hand before ++ (ts ++ in_hand after)
  hands before after w ts e =
      in_hand-append before (w ∷ after) ∙ ap (λ l. in_hand before ++ (l ++ in_hand after)) e

  taken_perm :
      (t : Task) (st fin hb ha : List Task)
      → Perm st (fin ++ (hb ++ ha))
      → Perm (st ++ t ∷ []) (fin ++ (hb ++ (t ∷ ha)))
  taken_perm t st fin hb ha h =
      let front : Perm (st ++ t ∷ []) (t ∷ st) =
        subst (λ l. Perm (st ++ t ∷ []) (t ∷ l)) (append-nil st) (perm_middle st []) in
      let kept : Perm (t ∷ st) (t ∷ ((fin ++ hb) ++ ha)) =
        Perm.cons t (subst (Perm st) (sym (append_assoc fin hb ha)) h) in
      subst (Perm (st ++ t ∷ [])) (append_assoc fin hb (t ∷ ha))
        (Perm.trans front (Perm.trans kept (Perm.symm (perm_middle (fin ++ hb) ha))))

  finished_perm :
      (t : Task) (st fin hb ha : List Task)
      → Perm st (fin ++ (hb ++ (t ∷ ha)))
      → Perm st ((fin ++ t ∷ []) ++ (hb ++ ha))
  finished_perm t st fin hb ha h =
      let split_off : Perm st (t ∷ ((fin ++ hb) ++ ha)) =
        Perm.trans (subst (Perm st) (sym (append_assoc fin hb (t ∷ ha))) h)
          (perm_middle (fin ++ hb) ha) in
      let joined : Perm st (t ∷ (fin ++ (hb ++ ha))) =
        subst (λ l. Perm st (t ∷ l)) (append_assoc fin hb ha) split_off in
      subst (Perm st) (sym (append_assoc fin (t ∷ []) (hb ++ ha)))
        (Perm.trans joined (Perm.symm (perm_middle fin (hb ++ ha))))

  move_perm :
      (before after : List (Worker Task)) (w w' : Worker Task) (s s' : Shared Task)
      → Moves w w' s s'
      → Perm s.started (s.finished ++ in_hand (before ++ (w ∷ after)))
      → Perm s'.started (s'.finished ++ in_hand (before ++ (w' ∷ after)))
  move_perm before after w w' s s' (takes t e e' st fin) h =
      rw (st, fin, hands before after w' (t ∷ []) e')
        (taken_perm t s.started s.finished (in_hand before) (in_hand after)
          (rw (hands before after w [] e) at h))
  move_perm before after w w' s s' (finishes t e e' st fin) h =
      rw (st, fin, hands before after w' [] e')
        (finished_perm t s.started s.finished (in_hand before) (in_hand after)
          (rw (hands before after w (t ∷ []) e) at h))
  move_perm before after w w' s s' (leaves e e' st fin) h =
      rw (st, fin, hands before after w' [] e') (rw (hands before after w [] e) at h)

  -- The two invariants of the queue together.
  pub record IsOrderly (p : Pool Task) : Type ℓ where
    pub in_order : InOrder p.shared
    pub kept : Kept p

  woken-in_hand :
      (before after : List (Worker Task))
      → in_hand (before ++ (waiting ∷ after)) ≡ in_hand (before ++ (sleeping ∷ after))
  woken-in_hand before after =
      hands before after waiting [] refl ∙ sym (hands before after sleeping [] refl)

  task_of-wake : (w : Worker Task) → task_of (wake w) ≡ task_of w
  unfolding wake
  task_of-wake waiting = refl
  task_of-wake sleeping = refl
  task_of-wake (running t) = refl
  task_of-wake exited = refl

  in_hand-wake_all : (ws : List (Worker Task)) → in_hand (wake_all ws) ≡ in_hand ws
  unfolding wake_all
  in_hand-wake_all [] = refl
  in_hand-wake_all (w ∷ ws) = rw (task_of-wake w, in_hand-wake_all ws) refl

  woken-IsOrderly :
      (p : Pool Task) (before after : List (Worker Task)) (n : ℕ)
      → p.workers ≡ before ++ (sleeping ∷ after)
      → IsOrderly p
      → IsOrderly (record p { workers = before ++ (waiting ∷ after); notifications = n })
  woken-IsOrderly p before after n e h = record {
    in_order = h.in_order;
    kept = rw (woken-in_hand before after) (rw e at h.kept);
  }

  Step-IsOrderly : {p q : Pool Task} → Step p q → IsOrderly p → IsOrderly q
  unfolding enqueue shut
  Step-IsOrderly {p} (works before after w w' s' e st to) h = subst IsOrderly (sym to) (record {
    in_order = worker_step-InOrder w w' p.shared s' st h.in_order;
    kept =
        move_perm before after w w' p.shared s' (worker_step-Moves w w' p.shared s' st)
          (rw e at h.kept);
  })
  Step-IsOrderly {p} (wakes before after e to) h =
      subst IsOrderly (sym to) (woken-IsOrderly p before after p.notifications e h)
  Step-IsOrderly {p} (enqueues t s' e to) h = subst IsOrderly (sym to) (record {
    in_order = enqueue-InOrder t p.shared s' e h.in_order;
    kept = rw ((enqueue-logs t p.shared s' e).0, (enqueue-logs t p.shared s' e).1) h.kept;
  })
  Step-IsOrderly {p} (notifies before after n c e to) h =
      subst IsOrderly (sym to) (woken-IsOrderly p before after n e h)
  Step-IsOrderly {p} (notifies_none n c e to) h =
      subst IsOrderly (sym to) (record { in_order = h.in_order; kept = h.kept })
  Step-IsOrderly {p} (shuts d to) h =
      subst IsOrderly (sym to) (record { in_order = h.in_order; kept = h.kept })
  Step-IsOrderly {p} (notifies_all d to) h =
      subst IsOrderly (sym to)
        (record { in_order = h.in_order; kept = rw (in_hand-wake_all p.workers) h.kept })

  idle-in_hand : (threads : ℕ) → in_hand (idle_workers {Task = Task} threads) ≡ []
  unfolding idle_workers
  idle-in_hand zero = refl
  idle-in_hand (suc threads) = idle-in_hand threads

  create-IsOrderly : (threads : ℕ) → IsOrderly (create {Task = Task} threads)
  unfolding create
  create-IsOrderly threads = record { in_order = refl; kept = rw (idle-in_hand threads) Perm.nil }

  -- In every state that a new pool reaches, by any interleaving of workers, callers and the
  -- destructor, the tasks taken and the tasks waiting are the accepted ones, in the order of
  -- acceptance, and the taken ones are finished or in the hand of one worker, each as often as it was
  -- taken.
  pub Reach-IsOrderly : (threads : ℕ) {p : Pool Task} → Reach (create threads) p → IsOrderly p
  Reach-IsOrderly threads here = create-IsOrderly threads
  Reach-IsOrderly threads (next r st) = Step-IsOrderly st (Reach-IsOrderly threads r)
