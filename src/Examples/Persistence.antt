-- ===== src/Examples/Persistence.antt =====
-- A table with one run of one session.
use runi.Prelude.{ℕ, ◌≡◌, refl, true, false, some, List, [], ◌∷◌, Bytes, bytes, eq_bytes, mem}
use runi.Error.{Result, success, failure}
use runi.Store.Status.{
  RunStatus, status_name, run_status_from_string, valid_transition, status_name-read,
}
use runi.Store.Engine.{Engine, working, column_text, step_fails}
use runi.Store.Runs.{
  RunRow, RuntimeRunRecord, Tables, first_row, any_row, has_id, create_run, get_run, transition_run,
  recover_running_runs, run_state_conflict,
}
use runi.Store.Runs.History.{Op, ops, Evolves, ops-Evolves, ops_terminal}
use runi.Store.Runs.Idempotent.{create_run-create_run}
use runi.Store.Runs.Invariant.{IsValid, ops-IsValid}
use runi.Store.Runs.Transitions.{transition_once}
use runi.Store.Runs.Recovery.{Recovered, NoneLeft, recover_lem}

abbrev r : Bytes
r = bytes "r"

abbrev row : RunStatus → RunRow
row s = record {
  id = r;
  session_id = bytes "s";
  parent_run_id = [];
  request_id = bytes "q";
  request = bytes "do it";
  status = status_name s;
  result = [];
  error = [];
  deadline_ms = 9;
  created_at = bytes "t0";
  updated_at = bytes "t0";
}

abbrev tables : RunStatus → Tables
tables s = record { session_ids = bytes "s" ∷ []; runs = row s ∷ [] }

there : (s : RunStatus) → first_row (has_id r) (tables s).runs ≡ some (row s)
unfolding first_row eq_bytes bytes
there s = refl

valid : (s : RunStatus) → IsValid (tables s)
unfolding any_row mem eq_bytes bytes
valid s = (refl, refl, refl, (s, refl), tt)

-- A cancellation, a restart of the program, a second run with a failing engine.
abbrev broken : Engine
broken = record { fault = λ n. step_fails (bytes "disk I/O error"); constraint = [] }

abbrev some_ops : List Op
some_ops =
    Op.transitions working r RunStatus.running RunStatus.cancelling [] [] (bytes "t1")
    ∷ Op.recovers working (bytes "t2")
    ∷ Op.creates broken (row RunStatus.queued)
    ∷ []

ops-Evolves_example :
    (later : RunRow) × (first_row (has_id r) (ops (tables RunStatus.running) some_ops).runs
      ≡ some later)
    × Evolves (row RunStatus.running) later
ops-Evolves_example =
    ops-Evolves r (row RunStatus.running) (tables RunStatus.running) some_ops
      (there RunStatus.running)

ops_terminal_example :
    first_row (has_id r) (ops (tables RunStatus.failed) some_ops).runs ≡ some (row RunStatus.failed)
ops_terminal_example =
    ops_terminal r (row RunStatus.failed) RunStatus.failed (tables RunStatus.failed) some_ops
      (there RunStatus.failed) refl tt

ops-IsValid_example : IsValid (ops (tables RunStatus.running) some_ops)
ops-IsValid_example = ops-IsValid (tables RunStatus.running) some_ops (valid RunStatus.running)

abbrev empty : Tables
empty = record { session_ids = bytes "s" ∷ []; runs = [] }

abbrev queued_run : RuntimeRunRecord
queued_run = record {
  id = r;
  session_id = bytes "s";
  parent_run_id = [];
  request_id = bytes "q";
  request = bytes "do it";
  status = RunStatus.queued;
  result = [];
  error = [];
  deadline_ms = 9;
  created_at = bytes "t0";
  updated_at = bytes "t0";
}

created :
    (create_run working r (bytes "s") (bytes "q") (bytes "do it") [] 9 (bytes "t0") empty).1
    ≡ success (record { run = queued_run; created = true })
unfolding create_run run_status_from_string status_name column_text bytes eq_bytes mem any_row
    first_row
created = refl

create_run-create_run_example :
    create_run working
      (bytes "r2")
      (bytes "s")
      (bytes "q")
      (bytes "again")
      []
      7
      (bytes "t1")
      (create_run working r (bytes "s") (bytes "q") (bytes "do it") [] 9 (bytes "t0") empty).0
    ≡ (
      (create_run working r (bytes "s") (bytes "q") (bytes "do it") [] 9 (bytes "t0") empty).0,
      success (record { run = queued_run; created = false }),
    )
create_run-create_run_example =
    create_run-create_run working working r (bytes "s") (bytes "q") (bytes "do it") [] (bytes "t0")
      (bytes "r2") (bytes "s") (bytes "again") [] (bytes "t1") 9 7 empty
      (record { run = queued_run; created = true }) refl created

may_start : valid_transition RunStatus.queued RunStatus.running ≡ true
unfolding valid_transition
may_start = refl

may_cancel : valid_transition RunStatus.queued RunStatus.cancelled ≡ true
unfolding valid_transition
may_cancel = refl

-- A worker starts the run, and then its client cancels it as if it were still queued.
abbrev started : Tables × Result RuntimeRunRecord
started =
    transition_run working r RunStatus.queued RunStatus.running [] [] (bytes "t1")
      (tables RunStatus.queued)

transition_once_example :
    ((run : RuntimeRunRecord) × (started.1 ≡ success run) × (run.status ≡ RunStatus.running))
    × (transition_run working r RunStatus.queued RunStatus.cancelled [] [] (bytes "t2") started.0
        ≡ (
          started.0,
          failure (run_state_conflict (bytes "Runtime run is no longer in the expected state")),
        ))
transition_once_example =
    transition_once working working r RunStatus.queued RunStatus.running RunStatus.cancelled [] []
      (bytes "t1") [] [] (bytes "t2") (tables RunStatus.queued) (row RunStatus.queued) refl refl
      refl (valid RunStatus.queued) (there RunStatus.queued) refl may_start may_cancel

read_back :
    get_run working r (tables RunStatus.queued)
    ≡ success (record queued_run { updated_at = bytes "t0" })
unfolding get_run run_status_from_string status_name column_text bytes eq_bytes
read_back = refl

recover_lem_example :
    (n : ℕ) × ((recover_running_runs working (bytes "t1") (tables RunStatus.cancelling)).1
      ≡ success n)
    × Recovered
        (bytes "t1")
        (tables RunStatus.cancelling).runs
        (recover_running_runs working (bytes "t1") (tables RunStatus.cancelling)).0.runs
        n
    × NoneLeft (recover_running_runs working (bytes "t1") (tables RunStatus.cancelling)).0.runs
    × ((recover_running_runs working (bytes "t1") (tables RunStatus.cancelling)).0.session_ids
        ≡ (tables RunStatus.cancelling).session_ids)
recover_lem_example = recover_lem working (bytes "t1") (tables RunStatus.cancelling) refl

-- One run is recovered.
recovered : (recover_running_runs working (bytes "t1") (tables RunStatus.running)).1 ≡ success 1
unfolding recover_running_runs status_name bytes eq_bytes
recovered = refl

status_name-read_example :
    run_status_from_string (status_name RunStatus.cancelling) ≡ some RunStatus.cancelling
status_name-read_example = status_name-read RunStatus.cancelling
