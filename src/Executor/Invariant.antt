-- ===== src/Executor/Invariant.antt =====
-- src/orchestration/execution.cpp: the invariant of the executor over the steps of its threads.
use runi.Prelude.{
  ℕ, ◌≤◌, ◌<◌, ◌≡◌, refl, true, false, some, List, [], ◌∷◌, arith, get_elem?, length, length-append,
  length-set, length-replicate, total, total-set, total-replicate_zero,
}
use runi.Executor.{
  Executor, Worker, waiting, running, exited, constructed, construct, enqueue, wake, next_task,
  finish, close, signal, shutdown,
}
use runi.Executor.Steps.{
  Label, Step, submits, wakes, finishes, closes, signals, shuts_down, Run, here, next,
}

abbrev pub is_running : Worker → ℕ
is_running waiting = 0
is_running (running _) = 1
is_running exited = 0

abbrev pub has_exited : Worker → ℕ
has_exited waiting = 0
has_exited (running _) = 0
has_exited exited = 1

pub record IsValid (e : Executor) : Type 0 where
  pub bounded : length e.queue ≤ e.queue_capacity
  pub counted : e.active ≡ total is_running e.workers
  pub stops_closed : e.stop_requested ≡ true → e.accepting ≡ false
  pub exits_closed : 0 < total has_exited e.workers → e.accepting ≡ false
  pub exits_drained : 0 < total has_exited e.workers → length e.queue ≡ 0

enqueue-IsValid : (task : ℕ) (e : Executor) → IsValid e → IsValid (enqueue task e).0
unfolding enqueue
enqueue-IsValid task e v = grind (arith, length-append {0} e.queue (task ∷ []))

wake-IsValid :
    (worker : ℕ) (e : Executor) (queue : List ℕ)
    → e.queue ≡ queue
    → get_elem? e.workers worker ≡ some waiting
    → IsValid e
    → IsValid (next_task worker e queue)
unfolding next_task
wake-IsValid worker e [] q h v = ground (
  arith,
  total-set is_running e.workers worker waiting exited h,
  total-set has_exited e.workers worker waiting exited h,
)
wake-IsValid worker e (task ∷ rest) q h v = ground (
  arith,
  total-set is_running e.workers worker waiting (running task) h,
  total-set has_exited e.workers worker waiting (running task) h,
)

finish-IsValid :
    (worker task : ℕ) (e : Executor)
    → get_elem? e.workers worker ≡ some (running task)
    → IsValid e
    → IsValid (finish worker e)
unfolding finish
finish-IsValid worker task e h v = ground (
  arith,
  total-set is_running e.workers worker (running task) waiting h,
  total-set has_exited e.workers worker (running task) waiting h,
)

shutdown-IsValid : (e : Executor) → IsValid e → IsValid (shutdown e)
unfolding shutdown
shutdown-IsValid e v = ground arith

pub Step-IsValid : {e e' : Executor} {label : Label} → Step e label e' → IsValid e → IsValid e'
unfolding wake close signal
Step-IsValid {e} (submits task) v = enqueue-IsValid task e v
Step-IsValid {e} (wakes worker h) v = wake-IsValid worker e e.queue refl h v
Step-IsValid {e} (finishes worker task h) v = finish-IsValid worker task e h v
Step-IsValid (closes) v = ground arith
Step-IsValid (signals h) v = ground arith
Step-IsValid {e} (shuts_down) v = shutdown-IsValid e v

pub construct-IsValid :
    (worker_count queue_capacity : ℕ) {e : Executor}
    → construct worker_count queue_capacity ≡ constructed e
    → IsValid e
unfolding construct
construct-IsValid worker_count queue_capacity h = ground (
  arith,
  total-replicate_zero is_running worker_count waiting refl,
  total-replicate_zero has_exited worker_count waiting refl,
)

Step-capacity :
    {e e' : Executor} {label : Label}
    → Step e label e'
    → (e'.queue_capacity ≡ e.queue_capacity) × (length e'.workers ≡ length e.workers)
unfolding enqueue wake next_task finish close signal shutdown
Step-capacity {e} (submits task) = ground arith
Step-capacity {e} (wakes worker h) = (wake-capacity e.queue, wake-length e.queue)
  where
    wake-capacity : (q : List ℕ) → (next_task worker e q).queue_capacity ≡ e.queue_capacity
    wake-capacity [] = ground arith
    wake-capacity (t ∷ q) = refl

    wake-length : (q : List ℕ) → length (next_task worker e q).workers ≡ length e.workers
    wake-length [] = ground (arith, length-set e.workers worker exited)
    wake-length (t ∷ q) = length-set e.workers worker (running t)
Step-capacity {e} (finishes worker task h) = (refl, length-set e.workers worker waiting)
Step-capacity (closes) = ground arith
Step-capacity (signals h) = ground arith
Step-capacity {e} (shuts_down) = ground arith

construct-sizes :
    (worker_count queue_capacity : ℕ) {e : Executor}
    → construct worker_count queue_capacity ≡ constructed e
    → (e.queue_capacity ≡ queue_capacity) × (length e.workers ≡ worker_count)
unfolding construct
construct-sizes worker_count queue_capacity h =
    ground (arith, length-replicate worker_count waiting)

pub run-sizes :
    (worker_count queue_capacity : ℕ) {e e' : Executor} {labels : List Label}
    → construct worker_count queue_capacity ≡ constructed e
    → Run e labels e'
    → (e'.queue_capacity ≡ queue_capacity) × (length e'.workers ≡ worker_count)
run-sizes worker_count queue_capacity h here = construct-sizes worker_count queue_capacity h
run-sizes worker_count queue_capacity h (next run step) =
    ground (arith, run-sizes worker_count queue_capacity h run, Step-capacity step)

run-IsValid :
    (worker_count queue_capacity : ℕ) {e e' : Executor} {labels : List Label}
    → construct worker_count queue_capacity ≡ constructed e
    → Run e labels e'
    → IsValid e'
run-IsValid worker_count queue_capacity h here = construct-IsValid worker_count queue_capacity h
run-IsValid worker_count queue_capacity h (next run step) =
    Step-IsValid step (run-IsValid worker_count queue_capacity h run)

is_running-le : (ws : List Worker) → total is_running ws ≤ length ws
unfolding total
is_running-le [] = omega arith
is_running-le (waiting ∷ ws) = omega (arith, is_running-le ws)
is_running-le (running t ∷ ws) = omega (arith, is_running-le ws)
is_running-le (exited ∷ ws) = omega (arith, is_running-le ws)

-- Whatever the threads do after construction, in any order: the queue never holds more than
-- `queue_capacity` tasks, `active` is the number of workers that run a task and at most
-- `worker_count`, and a worker has returned only when the executor no longer accepts and no task is
-- left in the queue.
pub run_bounds :
    (worker_count queue_capacity : ℕ) {e e' : Executor} {labels : List Label}
    → construct worker_count queue_capacity ≡ constructed e
    → Run e labels e'
    → (length e'.queue ≤ queue_capacity)
      × (e'.active ≡ total is_running e'.workers)
      × (e'.active ≤ worker_count)
      × IsValid e'
run_bounds worker_count queue_capacity {e' = e'} h run =
    let v = run-IsValid worker_count queue_capacity h run in
    let s = run-sizes worker_count queue_capacity h run in
    (
      omega (arith, v.bounded, s.0),
      v.counted,
      omega (arith, v.counted, s.1, is_running-le e'.workers),
      v,
    )
