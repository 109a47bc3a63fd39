-- ===== src/ThreadPool/Examples.antt =====
-- A pool of one worker, as LibPcapHelper creates it, with the tasks as numbers.
use mathlib.Core.List.{Perm}
use ip_ndn_stack_cpp.Prelude.{
  ℕ, ◌+◌, ◌≤◌, ◌≡◌, refl, List, [], ◌∷◌, Bool, true, false, arith, ◌⊎◌, length,
}
use ip_ndn_stack_cpp.ThreadPool.{
  Worker, waiting, sleeping, running, exited, Shared, Pool, Destructor, alive, stopping, joining,
  create, enqueue, worker_step, shut, wake_all, total, Step, works, enqueues, notifies, shuts,
  notifies_all, Reach, here, next,
}
use ip_ndn_stack_cpp.ThreadPool.Order.{IsOrderly, Reach-IsOrderly}
use ip_ndn_stack_cpp.ThreadPool.Drain.{AllExited, exited-finished}
use ip_ndn_stack_cpp.ThreadPool.Progress.{measure}
use ip_ndn_stack_cpp.ThreadPool.Joining.{steps, joins_end}
use ip_ndn_stack_cpp.ThreadPool.Wakeups.{awake, Reach-covers}

abbrev shared_at : List ℕ → Bool → List ℕ → List ℕ → List ℕ → Shared ℕ
shared_at tasks stop accepted started finished = record {
  tasks = tasks;
  stop = stop;
  accepted = accepted;
  started = started;
  finished = finished;
}

abbrev pool_at : Shared ℕ → Worker ℕ → ℕ → Destructor → Pool ℕ
pool_at s w n d = record { shared = s; workers = w ∷ []; notifications = n; destructor = d }

abbrev slept : Pool ℕ
slept = pool_at (shared_at [] false [] [] []) sleeping 0 alive

abbrev queued : Pool ℕ
queued = pool_at (shared_at (7 ∷ []) false (7 ∷ []) [] []) sleeping 1 alive

abbrev stopped : Pool ℕ
stopped = pool_at (shared_at (7 ∷ []) true (7 ∷ []) [] []) sleeping 1 stopping

abbrev woken : Pool ℕ
woken = pool_at (shared_at (7 ∷ []) true (7 ∷ []) [] []) waiting 0 stopping

abbrev joined : Pool ℕ
joined = pool_at (shared_at (7 ∷ []) true (7 ∷ []) [] []) waiting 0 joining

abbrev busy : Pool ℕ
busy = pool_at (shared_at [] true (7 ∷ []) (7 ∷ []) []) (running 7) 0 joining

abbrev idle : Pool ℕ
idle = pool_at (shared_at [] true (7 ∷ []) (7 ∷ []) (7 ∷ [])) waiting 0 joining

abbrev ended : Pool ℕ
ended = pool_at (shared_at [] true (7 ∷ []) (7 ∷ []) (7 ∷ [])) exited 0 joining

falls_asleep : Step (create 1) slept
unfolding create worker_step
falls_asleep = works [] [] waiting sleeping _ refl refl refl

enqueued : Step slept queued
unfolding enqueue
enqueued = enqueues 7 _ refl refl

begins : Step queued stopped
unfolding shut
begins = shuts refl refl

notified : Step stopped woken
notified = notifies [] [] 0 refl refl refl

all_notified : Step woken joined
unfolding wake_all
all_notified = notifies_all refl refl

taken : Step joined busy
unfolding worker_step
taken = works [] [] waiting (running 7) _ refl refl refl

run : Step busy idle
unfolding worker_step
run = works [] [] (running 7) waiting _ refl refl refl

returned : Step idle ended
unfolding worker_step
returned = works [] [] waiting exited _ refl refl refl

-- The worker sleeps, one task is enqueued, and the pool is stopped before the notification.
abbrev to_queued : Reach (create 1) queued
to_queued = next (next here falls_asleep) enqueued

abbrev to_joined : Reach (create 1) joined
to_joined = next (next (next to_queued begins) notified) all_notified

-- The worker runs the task and returns.
abbrev to_the_end : Reach joined ended
to_the_end = next (next (next here taken) run) returned

one_task : Reach (create 1) ended
one_task = next (next (next to_joined taken) run) returned

Reach-IsOrderly_example : IsOrderly ended
Reach-IsOrderly_example = Reach-IsOrderly 1 one_task

exited-finished_example :
    (ended.shared.stop ≡ true)
    × (ended.shared.started ≡ ended.shared.accepted)
    × Perm ended.shared.accepted ended.shared.finished
exited-finished_example = exited-finished 1 exited [] one_task refl (refl, tt)

joins_end_example :
    (steps to_the_end + measure ended ≤ measure joined)
    × (AllExited ended.workers ⊎ ((q : Pool ℕ) × Step ended q))
joins_end_example = joins_end 1 to_joined refl to_the_end

Reach-covers_example :
    length queued.shared.tasks ≤ queued.notifications + total awake queued.workers
Reach-covers_example = Reach-covers 1 to_queued (omega arith)
