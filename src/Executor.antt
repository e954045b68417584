-- ===== src/Executor.antt =====
-- include/runi/orchestration/execution.hpp and src/orchestration/execution.cpp: a bounded queue of
-- tasks and a fixed set of worker threads. A task is named by a number. Each critical section of
-- the source is one function here; their interleavings are the steps of Executor/Steps.antt.
pub mod Steps
pub mod Invariant
pub mod Fifo
pub mod Shutdown
use runi.Prelude.{
  ℕ, suc, ◌+◌, ◌-◌, Bool, true, false, ◌&&◌, ◌||◌, not, Option, none, some, List, [], ◌∷◌, ◌++◌,
  Bytes, bytes, leb, ◌==◌, if◌then◌else◌, length, get_elem?, set, replicate, is_empty,
}
use runi.Error.{Error, Result, success, failure, make_error, internal}

-- Where a worker thread stands: in `condition_.wait`, in a task, or returned from `worker_loop`.
pub data Worker : Type 0 where
  waiting : Worker
  running : ℕ → Worker
  exited : Worker

pub record Executor : Type 0 where
  pub queue_capacity : ℕ
  pub queue : List ℕ
  pub workers : List Worker
  pub accepting : Bool
  -- Whether `request_stop` was called on the worker threads.
  pub stop_requested : Bool
  pub joined : Bool
  pub active : ℕ
  pub accepted : ℕ
  pub rejected : ℕ

-- The constructor; `failure` is the text of the `std::invalid_argument` that it throws.
pub data Construction : Type 0 where
  constructed : Executor → Construction
  invalid_argument : Bytes → Construction

unfoldable pub construct : ℕ → ℕ → Construction
construct worker_count queue_capacity =
    if worker_count == 0
    then invalid_argument (bytes "executor worker_count must be positive")
    else if queue_capacity == 0
    then invalid_argument (bytes "executor queue_capacity must be positive")
    else constructed (record {
      queue_capacity = queue_capacity;
      queue = [];
      workers = replicate worker_count waiting;
      accepting = true;
      stop_requested = false;
      joined = false;
      active = 0;
      accepted = 0;
      rejected = 0;
    })

abbrev pub executor_stopped : Error
executor_stopped =
    make_error internal (bytes "executor_stopped") (bytes "executor is not accepting new tasks")

abbrev pub executor_queue_full : Error
executor_queue_full = record {
  category = internal;
  code = bytes "executor_queue_full";
  message = bytes "executor queue capacity has been reached";
  retryable = true;
}

-- `enqueue`, which `submit` calls with the packaged task.
unfoldable pub enqueue : ℕ → Executor → Executor × Result (Unit {0})
enqueue task e =
    if not e.accepting
    then (record e { rejected = e.rejected + 1 }, failure executor_stopped)
    else if leb e.queue_capacity (length e.queue)
    then (record e { rejected = e.rejected + 1 }, failure executor_queue_full)
    else (record e { queue = e.queue ++ task ∷ []; accepted = e.accepted + 1 }, success tt)

-- One pass of `worker_loop` under the lock, for a worker that waits. The wait is over if the queue
-- is not empty, if the executor no longer accepts, or if the thread was asked to stop.
next_task : ℕ → Executor → List ℕ → Executor
next_task worker e [] =
    if not e.accepting || e.stop_requested
    then record e { workers = set e.workers worker exited }
    else e
next_task worker e (task ∷ rest) = record e {
  queue = rest;
  workers = set e.workers worker (running task);
  active = e.active + 1;
}

unfoldable pub wake : ℕ → Executor → Executor
unfolding next_task
wake worker e = next_task worker e e.queue

-- The end of a pass: the task returned, or its exception was swallowed.
unfoldable pub finish : ℕ → Executor → Executor
finish worker e = record e { workers = set e.workers worker waiting; active = e.active - 1 }

-- The two halves of `request_stop`: the section under the lock, and the calls on the threads.
unfoldable pub close : Executor → Executor
close e = record e { accepting = false }

unfoldable pub signal : Executor → Executor
signal e = record e { stop_requested = true }

unfoldable pub request_stop : Executor → Executor
unfolding close signal
request_stop e = signal (close e)

unfoldable pub all_exited : List Worker → Bool
all_exited [] = true
all_exited (exited ∷ ws) = all_exited ws
all_exited (w ∷ ws) = false

-- `shutdown` up to the joins of `workers_.clear()`; a second call returns at once.
unfoldable pub shutdown : Executor → Executor
unfolding request_stop
shutdown e = if e.joined then e else request_stop (record e { joined = true })

-- `snapshot`. The joins that `shutdown` waits for are over when all workers have exited; then
-- `workers_` is empty.
pub record ExecutorSnapshot : Type 0 where
  pub workers : ℕ
  pub queued : ℕ
  pub active : ℕ
  pub accepted : ℕ
  pub rejected : ℕ
  pub accepting : Bool

unfoldable pub snapshot : Executor → ExecutorSnapshot
unfolding all_exited
snapshot e = record {
  workers = if e.joined && all_exited e.workers then 0 else length e.workers;
  queued = length e.queue;
  active = e.active;
  accepted = e.accepted;
  rejected = e.rejected;
  accepting = e.accepting;
}
