-- ===== src/ThreadPool.antt =====
-- ThreadPool (helper/ThreadPool.h): workers that take tasks off a shared queue until the pool is
-- stopped and the queue is empty. A task is what `enqueue` wraps; running it is a step of its own.
-- What stands between two acquisitions of the mutex is one step, a notification of the condition is
-- another, and steps of workers, callers and the destructor interleave. A wait on the condition may
-- end without a notification.
pub mod Order
pub mod Drain
pub mod Progress
pub mod Joining
pub mod Wakeups
pub mod Examples
use ip_ndn_stack_cpp.Prelude.{
  ℕ, zero, suc, ◌+◌, ◌≡◌, List, [], ◌∷◌, ◌++◌, Bool, true, false, Option, none, some, if◌then◌else◌,
}

-- The destructor has not begun, has set `stop`, or has notified all workers and joins them.
pub data Destructor : Type 0 where
  alive stopping joining : Destructor

module _ {ℓ} (Task : Type ℓ) where
  -- A worker is awake and waits for the mutex, sleeps at the condition variable, runs a task, or has
  -- returned.
  pub data Worker : Type ℓ where
    waiting : Worker
    sleeping : Worker
    running : Task → Worker
    exited : Worker

  -- What the mutex guards; and, for the statements, the tasks that were accepted, taken and run so
  -- far, oldest first.
  pub record Shared : Type ℓ where
    pub tasks : List Task
    pub stop : Bool
    pub accepted : List Task
    pub started : List Task
    pub finished : List Task

  -- `notifications` is the number of calls of `enqueue` that have given up the mutex and not called
  -- notify_one yet.
  pub record Pool : Type ℓ where
    pub shared : Shared
    pub workers : List Worker
    pub notifications : ℕ
    pub destructor : Destructor

module _ {ℓ} {Task : Type ℓ} where
  unfoldable pub idle_workers : ℕ → List (Worker Task)
  idle_workers zero = []
  idle_workers (suc threads) = waiting ∷ idle_workers threads

  -- The constructor.
  unfoldable pub create : ℕ → Pool Task
  unfolding idle_workers
  create threads = record {
    shared = record { tasks = []; stop = false; accepted = []; started = []; finished = [] };
    workers = idle_workers threads;
    notifications = 0;
    destructor = alive;
  }

  -- `none` stands for the exception "enqueue on stopped ThreadPool".
  unfoldable pub enqueue : Task → Shared Task → Option (Shared Task)
  enqueue task s =
      if s.stop
      then none
      else some (record s { tasks = s.tasks ++ task ∷ []; accepted = s.accepted ++ task ∷ [] })

  -- A worker that is awake under the lock, by the queue that it finds: it sleeps where the condition
  -- does not hold.
  unfoldable pub take_task : List Task → Shared Task → Option (Worker Task × Shared Task)
  take_task [] s = if s.stop then some (exited, s) else some (sleeping, s)
  take_task (task ∷ rest) s =
      some (running task, record s { tasks = rest; started = s.started ++ task ∷ [] })

  -- One part of a worker's loop; `none` where it sleeps or has returned.
  unfoldable pub worker_step : Worker Task → Shared Task → Option (Worker Task × Shared Task)
  unfolding take_task
  worker_step waiting s = take_task s.tasks s
  worker_step sleeping s = none
  worker_step (running task) s = some (waiting, record s { finished = s.finished ++ task ∷ [] })
  worker_step exited s = none

  -- The part of the destructor under the lock.
  unfoldable pub shut : Shared Task → Shared Task
  shut s = record s { stop = true }

  unfoldable pub wake : Worker Task → Worker Task
  wake waiting = waiting
  wake sleeping = waiting
  wake (running task) = running task
  wake exited = exited

  -- notify_all.
  unfoldable pub wake_all : List (Worker Task) → List (Worker Task)
  unfolding wake
  wake_all [] = []
  wake_all (w ∷ ws) = wake w ∷ wake_all ws

  abbrev pub total : (Worker Task → ℕ) → List (Worker Task) → ℕ
  total f [] = 0
  total f (w ∷ ws) = f w + total f ws

  abbrev pub asleep : Worker Task → ℕ
  asleep sleeping = 1
  asleep waiting = 0
  asleep (running task) = 0
  asleep exited = 0

  -- How many workers sleep.
  abbrev pub sleepers : List (Worker Task) → ℕ
  sleepers ws = total asleep ws

  -- A worker moves or wakes by itself; a caller enqueues, and then notifies one sleeping worker or
  -- none that sleeps; the destructor stops the pool, and then notifies all workers.
  pub data Step (p q : Pool Task) : Type ℓ where
    works :
        (before after : List (Worker Task)) (w w' : Worker Task) (s' : Shared Task)
        → p.workers ≡ before ++ (w ∷ after)
        → worker_step w p.shared ≡ some (w', s')
        → q ≡ record p { shared = s'; workers = before ++ (w' ∷ after) }
        → Step p q
    wakes :
        (before after : List (Worker Task))
        → p.workers ≡ before ++ (sleeping ∷ after)
        → q ≡ record p { workers = before ++ (waiting ∷ after) }
        → Step p q
    enqueues :
        (task : Task) (s' : Shared Task)
        → enqueue task p.shared ≡ some s'
        → q ≡ record p { shared = s'; notifications = p.notifications + 1 }
        → Step p q
    notifies :
        (before after : List (Worker Task)) (n : ℕ)
        → p.notifications ≡ n + 1
        → p.workers ≡ before ++ (sleeping ∷ after)
        → q ≡ record p { workers = before ++ (waiting ∷ after); notifications = n }
        → Step p q
    notifies_none :
        (n : ℕ)
        → p.notifications ≡ n + 1
        → sleepers p.workers ≡ 0
        → q ≡ record p { notifications = n }
        → Step p q
    shuts :
        p.destructor ≡ alive
        → q ≡ record p { shared = shut p.shared; destructor = stopping }
        → Step p q
    notifies_all :
        p.destructor ≡ stopping
        → q ≡ record p { workers = wake_all p.workers; destructor = joining }
        → Step p q

  pub data Reach (p : Pool Task) : Pool Task → Type ℓ where
    here : Reach p p
    next : {q r : Pool Task} → Reach p q → Step q r → Reach p r
