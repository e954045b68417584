-- ===== src/Examples/Threads.antt =====
-- An executor with one worker and room for one task, until its worker has returned.
use runi.Prelude.{
  ℕ, ◌≡◌, ◌≢◌, ◌≤◌, ◌<◌, refl, true, false, some, List, [], ◌∷◌, ◌++◌, arith, length, total,
  get_elem?,
}
use runi.Executor.{
  Executor, waiting, exited, constructed, construct, enqueue, wake, finish, shutdown, snapshot,
  all_exited,
}
use runi.Executor.Steps.{
  Label, accepts, refuses, begins, ends, silent, Step, submits, wakes, finishes, shuts_down, Run,
  here, next, submit_label,
}
use runi.Executor.Invariant.{IsValid, is_running, run_bounds}
use runi.Executor.Fifo.{accepted_of, begun_of, run_fifo}
use runi.Executor.Shutdown.{work, advance, advance-work, joined_drained}

abbrev start : Executor
start = record {
  queue_capacity = 1;
  queue = [];
  workers = waiting ∷ [];
  accepting = true;
  stop_requested = false;
  joined = false;
  active = 0;
  accepted = 0;
  rejected = 0;
}

start_built : construct 1 1 ≡ constructed start
unfolding construct
start_built = refl

-- Task 5 is accepted, task 6 is refused, task 5 is run after `shutdown` was called.
abbrev stopped : Executor
stopped = record start {
  accepting = false;
  stop_requested = true;
  joined = true;
  accepted = 1;
  rejected = 1;
}

abbrev queued : Executor
queued = record stopped { queue = 5 ∷ [] }

abbrev labels : List Label
labels = accepts 5 ∷ refuses 6 ∷ silent ∷ begins 5 ∷ ends 5 ∷ silent ∷ []

abbrev final : Executor
final = record stopped { workers = exited ∷ [] }

run : Run start labels final
unfolding enqueue wake finish shutdown
run =
    next
      (next (next (next (next (next here (submits 5)) (submits 6)) shuts_down) (wakes 0 refl))
        (finishes 0 5 refl))
      (wakes 0 refl)

final-snapshot :
    snapshot final
    ≡ record { workers = 0; queued = 0; active = 0; accepted = 1; rejected = 1; accepting = false }
unfolding snapshot
final-snapshot = refl

run_bounds_example :
    (length final.queue ≤ 1)
    × (final.active ≡ total is_running final.workers)
    × (final.active ≤ 1)
    × IsValid final
run_bounds_example = run_bounds 1 1 start_built run

run_fifo_example : accepted_of labels ≡ begun_of labels ++ final.queue
run_fifo_example = run_fifo 1 1 start_built run

all_returned : all_exited final.workers ≡ true
unfolding all_exited
all_returned = refl

joined_drained_example :
    (accepted_of labels ≡ begun_of labels)
    × ((task : ℕ) → submit_label task (enqueue task final).1 ≡ refuses task)
joined_drained_example = joined_drained 1 1 start_built run all_returned (omega arith)

first_waits : get_elem? queued.workers 0 ≡ some waiting
first_waits = refl

waiting_not_exited : waiting ≢ exited
waiting_not_exited e = cc

advance-work_example :
    ((label : Label) × Step queued label (advance 0 waiting queued))
    × (work (advance 0 waiting queued) < work queued)
advance-work_example = advance-work 0 waiting queued refl first_waits waiting_not_exited
