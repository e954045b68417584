-- ===== src/Executor/Shutdown.antt =====
-- src/orchestration/execution.cpp: the workers after `request_stop`, and `shutdown` after its
-- joins.
use mathlib.Core.List.{append-nil}
use runi.Prelude.{
  ℕ, ◌+◌, ◌*◌, ◌<◌, ◌≡◌, ◌≢◌, refl, ◌∙◌, true, false, some, List, [], ◌∷◌, ◌++◌, arith, get_elem?,
  length, total, total-set,
}
use runi.Executor.{
  Executor, Worker, waiting, running, exited, constructed, construct, enqueue, wake, next_task,
  finish, all_exited,
}
use runi.Executor.Steps.{Label, refuses, ends, Step, wakes, finishes, Run, submit_label, wake_label}
use runi.Executor.Invariant.{IsValid, has_exited, run_bounds, run-sizes}
use runi.Executor.Fifo.{accepted_of, begun_of, run_fifo}

-- The passes of `worker_loop` that are left: one to return, and two for each task in the queue.
abbrev pub work_left : Worker → ℕ
work_left waiting = 1
work_left (running _) = 2
work_left exited = 0

abbrev pub work : Executor → ℕ
work e = 2 * length e.queue + total work_left e.workers

wake-work :
    (worker : ℕ) (e : Executor) (queue : List ℕ)
    → e.queue ≡ queue
    → e.accepting ≡ false
    → get_elem? e.workers worker ≡ some waiting
    → work (next_task worker e queue) < work e
unfolding next_task
wake-work worker e [] q closed h =
    rw closed (ground (arith, total-set work_left e.workers worker waiting exited h))
wake-work worker e (task ∷ rest) q closed h =
    ground (arith, total-set work_left e.workers worker waiting (running task) h)

-- A worker's next pass, when it waits or when its task has returned.
pub advance : ℕ → Worker → Executor → Executor
unfolding wake finish
advance worker waiting e = wake worker e
advance worker (running task) e = finish worker e
advance worker exited e = e

pub advance-Step :
    (worker : ℕ) (w : Worker) (e : Executor)
    → get_elem? e.workers worker ≡ some w
    → w ≢ exited
    → (label : Label) × Step e label (advance worker w e)
unfolding advance
advance-Step worker waiting e h n = (wake_label e.queue, wakes worker h)
advance-Step worker (running task) e h n = (ends task, finishes worker task h)
advance-Step worker exited e h n = absurd (n refl)

-- In an executor that no longer accepts, the next pass of any worker that has not returned is a
-- step of the executor, and leaves strictly less of the number `work`.
pub advance-work :
    (worker : ℕ) (w : Worker) (e : Executor)
    → e.accepting ≡ false
    → get_elem? e.workers worker ≡ some w
    → w ≢ exited
    → ((label : Label) × Step e label (advance worker w e)) × (work (advance worker w e) < work e)
unfolding advance wake finish
advance-work worker waiting e closed h n =
    ((wake_label e.queue, wakes worker h), wake-work worker e e.queue refl closed h)
advance-work worker (running task) e closed h n = (
  (ends task, finishes worker task h),
  omega (arith, total-set work_left e.workers worker (running task) waiting h),
)
advance-work worker exited e closed h n = absurd (n refl)

exited-total : (ws : List Worker) → 0 < length ws → all_exited ws ≡ true → 0 < total has_exited ws
unfolding all_exited total
exited-total [] p h = absurd (omega arith)
exited-total (exited ∷ ws) p h = omega arith
exited-total (waiting ∷ ws) p h = ground arith
exited-total (running t ∷ ws) p h = ground arith

-- In an executor with workers, when all of them have returned after any steps from its
-- construction, each task that `submit` ever accepted was begun, in the order of acceptance, and no
-- later `submit` is accepted.
pub joined_drained :
    (worker_count queue_capacity : ℕ) {e e' : Executor} {labels : List Label}
    → construct worker_count queue_capacity ≡ constructed e
    → Run e labels e'
    → all_exited e'.workers ≡ true
    → 0 < worker_count
    → (accepted_of labels ≡ begun_of labels)
      × ((task : ℕ) → submit_label task (enqueue task e').1 ≡ refuses task)
unfolding enqueue
joined_drained worker_count queue_capacity {e} {e'} {labels} h run all p = (
  empty-queue e'.queue (v.exits_drained some_exited) (run_fifo worker_count queue_capacity h run),
  λ task. ground (arith, v.exits_closed some_exited),
)
  where
    v : IsValid e'
    v = (run_bounds worker_count queue_capacity h run).3

    some_exited : 0 < total has_exited e'.workers
    some_exited = exited-total e'.workers (omega (arith, run_sizes_of)) all
      where
        run_sizes_of : length e'.workers ≡ worker_count
        run_sizes_of = (run-sizes worker_count queue_capacity h run).1

    empty-queue :
        (q : List ℕ)
        → length q ≡ 0
        → accepted_of labels ≡ begun_of labels ++ q
        → accepted_of labels ≡ begun_of labels
    empty-queue [] n f = f ∙ append-nil (begun_of labels)
    empty-queue (t ∷ q) n f = absurd (omega arith)
