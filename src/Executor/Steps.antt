-- ===== src/Executor/Steps.antt =====
-- src/orchestration/execution.cpp: the interleavings of the executor's threads, of which any may
-- take its next critical section.
use runi.Prelude.{ℕ, ◌≡◌, false, some, List, [], ◌∷◌, ◌++◌, get_elem?}
use runi.Error.{Result, success, failure}
use runi.Executor.{Executor, waiting, running, enqueue, wake, finish, close, signal, shutdown}

-- What a step shows: a task that `submit` accepted or refused, a task that a worker began or ended,
-- or nothing.
pub data Label : Type 0 where
  accepts refuses : ℕ → Label
  begins ends : ℕ → Label
  silent : Label

-- The label of `enqueue`, from its result.
abbrev pub submit_label : ℕ → Result (Unit {0}) → Label
submit_label task (success _) = accepts task
submit_label task (failure _) = refuses task

-- The label of `wake`, from the queue that the worker found.
abbrev pub wake_label : List ℕ → Label
wake_label [] = silent
wake_label (task ∷ rest) = begins task

pub data Step (e : Executor) : Label → Executor → Type 0 where
  submits : (task : ℕ) → Step e (submit_label task (enqueue task e).1) (enqueue task e).0
  wakes :
      (worker : ℕ)
      → get_elem? e.workers worker ≡ some waiting
      → Step e (wake_label e.queue) (wake worker e)
  finishes :
      (worker task : ℕ)
      → get_elem? e.workers worker ≡ some (running task)
      → Step e (ends task) (finish worker e)
  closes : Step e silent (close e)
  signals : e.accepting ≡ false → Step e silent (signal e)
  shuts_down : Step e silent (shutdown e)

-- The steps so far, oldest first.
pub data Run (start : Executor) : List Label → Executor → Type 0 where
  here : Run start [] start
  next :
      {labels : List Label} {e e' : Executor} {label : Label}
      → Run start labels e
      → Step e label e'
      → Run start (labels ++ label ∷ []) e'
