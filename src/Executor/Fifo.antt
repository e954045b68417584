-- ===== src/Executor/Fifo.antt =====
-- src/orchestration/execution.cpp: the order of the tasks over a run of the executor.
use mathlib.Core.List.{append_assoc, append-nil}
use runi.Prelude.{ℕ, ◌≡◌, refl, sym, ap, ◌∙◌, List, [], ◌∷◌, ◌++◌, arith}
use runi.Executor.{
  Executor, constructed, construct, enqueue, wake, next_task, finish, close, signal, shutdown,
}
use runi.Executor.Steps.{
  Label, accepts, begins, Step, submits, wakes, finishes, closes, signals, shuts_down, Run, here,
  next, submit_label, wake_label,
}

-- The tasks that were accepted, and those that a worker has begun, in order.
pub accepted_of : List Label → List ℕ
accepted_of [] = []
accepted_of (accepts task ∷ ls) = task ∷ accepted_of ls
accepted_of (_ ∷ ls) = accepted_of ls

pub begun_of : List Label → List ℕ
begun_of [] = []
begun_of (begins task ∷ ls) = task ∷ begun_of ls
begun_of (_ ∷ ls) = begun_of ls

accepted_of-append : (a b : List Label) → accepted_of (a ++ b) ≡ accepted_of a ++ accepted_of b
unfolding accepted_of
accepted_of-append [] b = refl
accepted_of-append (accepts task ∷ a) b = ap (◌∷◌ task) (accepted_of-append a b)
accepted_of-append (_ ∷ a) b = accepted_of-append a b

begun_of-append : (a b : List Label) → begun_of (a ++ b) ≡ begun_of a ++ begun_of b
unfolding begun_of
begun_of-append [] b = refl
begun_of-append (begins task ∷ a) b = ap (◌∷◌ task) (begun_of-append a b)
begun_of-append (_ ∷ a) b = begun_of-append a b

-- A step moves tasks from the label into the queue, or from the queue into the label.
abbrev Moves : Executor → Label → Executor → Type 0
Moves e label e' = e.queue ++ accepted_of (label ∷ []) ≡ begun_of (label ∷ []) ++ e'.queue

enqueue-Moves :
    (task : ℕ) (e : Executor) → Moves e (submit_label task (enqueue task e).1) (enqueue task e).0
unfolding enqueue accepted_of begun_of
enqueue-Moves task e = ground (arith, append-nil e.queue)

wake-Moves :
    (worker : ℕ) (e : Executor) (queue : List ℕ)
    → e.queue ≡ queue
    → Moves e (wake_label queue) (next_task worker e queue)
unfolding next_task accepted_of begun_of
wake-Moves worker e [] h = ground (arith, append-nil e.queue)
wake-Moves worker e (task ∷ rest) h = rw append-nil h

Step-Moves : {e e' : Executor} {label : Label} → Step e label e' → Moves e label e'
unfolding wake finish close signal shutdown accepted_of begun_of
Step-Moves {e} (submits task) = enqueue-Moves task e
Step-Moves {e} (wakes worker h) = wake-Moves worker e e.queue refl
Step-Moves {e} (finishes worker task h) = append-nil e.queue
Step-Moves {e} (closes) = append-nil e.queue
Step-Moves {e} (signals h) = append-nil e.queue
Step-Moves {e} (shuts_down) = ground (arith, append-nil e.queue)

pub run-Moves :
    {e e' : Executor} {labels : List Label}
    → e.queue ≡ []
    → Run e labels e'
    → accepted_of labels ≡ begun_of labels ++ e'.queue
unfolding accepted_of begun_of
run-Moves h here = sym h
run-Moves h (next {labels} {e} {e'} {label} run step) =
    rw (accepted_of-append labels (label ∷ []), begun_of-append labels (label ∷ []))
      (rw (run-Moves h run) (
        append_assoc (begun_of labels) e.queue (accepted_of (label ∷ []))
        ∙ (ap (◌++◌ (begun_of labels)) (Step-Moves step)
            ∙ sym (append_assoc (begun_of labels) (begun_of (label ∷ [])) e'.queue))))

construct-queue :
    (worker_count queue_capacity : ℕ) {e : Executor}
    → construct worker_count queue_capacity ≡ constructed e
    → e.queue ≡ []
unfolding construct
construct-queue worker_count queue_capacity h = ground arith

-- After any interleaving of the executor's steps from its construction, the tasks accepted so far
-- are, in order, those that a worker has begun and then those in the queue.
pub run_fifo :
    (worker_count queue_capacity : ℕ) {e e' : Executor} {labels : List Label}
    → construct worker_count queue_capacity ≡ constructed e
    → Run e labels e'
    → accepted_of labels ≡ begun_of labels ++ e'.queue
run_fifo worker_count queue_capacity h run =
    run-Moves (construct-queue worker_count queue_capacity h) run
