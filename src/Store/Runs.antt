-- ===== src/Store/Runs.antt =====
-- src/state/state_store.cpp, the table `runs` and the operations on it: `create_run`, `get_run`,
-- `transition_run` and `recover_running_runs`. Each function takes the tables before the call and,
-- where it changes them, gives the tables after it; `now` is what `now_utc` returned. A transaction
-- that is not committed leaves the tables as they were.
pub mod Rows
pub mod History
pub mod Idempotent
pub mod Invariant
pub mod Transitions
pub mod Recovery
use runi.Prelude.{
  ℕ, zero, suc, ◌+◌, Bool, true, false, ◌&&◌, ◌||◌, not, Option, none, some, List, [], ◌∷◌, ◌++◌,
  Bytes, bytes, eq_bytes, mem, ◌==◌, if◌then◌else◌,
}
use runi.Error.{
  Error, Result, success, failure, make_error, persistence, resume_mismatch, ◌>>=◌, ◌>>◌,
}
use runi.Store.Status.{RunStatus, status_name, run_status_from_string, valid_transition}
use runi.Store.Engine.{Fault, Engine, statement, execute, column_text, sqlite_error}

-- A row of the table `runs`; its columns are texts and an integer.
pub record RunRow : Type 0 where
  pub id : Bytes
  pub session_id : Bytes
  pub parent_run_id : Bytes
  pub request_id : Bytes
  pub request : Bytes
  pub status : Bytes
  pub result : Bytes
  pub error : Bytes
  pub deadline_ms : ℕ
  pub created_at : Bytes
  pub updated_at : Bytes

pub record RuntimeRunRecord : Type 0 where
  pub id : Bytes
  pub session_id : Bytes
  pub parent_run_id : Bytes
  pub request_id : Bytes
  pub request : Bytes
  pub status : RunStatus
  pub result : Bytes
  pub error : Bytes
  pub deadline_ms : ℕ
  pub created_at : Bytes
  pub updated_at : Bytes

pub record CreateRunResult : Type 0 where
  pub run : RuntimeRunRecord
  pub created : Bool

-- The runs, and the ids of the table `sessions`, which a run must refer to.
pub record Tables : Type 0 where
  pub session_ids : List Bytes
  pub runs : List RunRow

-- The first row that a condition holds of.
unfoldable pub first_row : (RunRow → Bool) → List RunRow → Option RunRow
first_row holds [] = none
first_row holds (row ∷ rows) = if holds row then some row else first_row holds rows

unfoldable pub any_row : (RunRow → Bool) → List RunRow → Bool
any_row holds [] = false
any_row holds (row ∷ rows) = holds row || any_row holds rows

-- What `UPDATE` does, and how many rows it changes.
unfoldable pub update_rows : (RunRow → Bool) → (RunRow → RunRow) → List RunRow → List RunRow
update_rows holds change [] = []
update_rows holds change (row ∷ rows) =
    (if holds row then change row else row) ∷ update_rows holds change rows

unfoldable pub changes : (RunRow → Bool) → List RunRow → ℕ
changes holds [] = 0
changes holds (row ∷ rows) = (if holds row then 1 else 0) + changes holds rows

abbrev pub has_id : Bytes → RunRow → Bool
has_id value row = eq_bytes row.id value

abbrev pub has_request_id : Bytes → RunRow → Bool
has_request_id value row = eq_bytes row.request_id value

-- The columns of the row that `sqlite3_step` found.
unfoldable pub record_of : RunRow → Result RuntimeRunRecord
record_of row = elim (run_status_from_string (column_text row.status)) [
  | none ↦ failure (
      make_error persistence (bytes "invalid_run_status")
        (bytes "Runtime run contains an unknown status"))
  | some status ↦ success (record {
    id = column_text row.id;
    session_id = column_text row.session_id;
    parent_run_id = column_text row.parent_run_id;
    request_id = column_text row.request_id;
    request = column_text row.request;
    status = status;
    result = column_text row.result;
    error = column_text row.error;
    deadline_ms = row.deadline_ms;
    created_at = column_text row.created_at;
    updated_at = column_text row.updated_at;
  })
]

abbrev pub run_not_found : Error
run_not_found = make_error persistence (bytes "run_not_found") (bytes "Runtime run was not found")

unfoldable pub found_row : Option RunRow → Result RuntimeRunRecord
unfolding record_of
found_row none = failure run_not_found
found_row (some row) = record_of row

-- `read_run`; the condition is the column and the value that the caller gives.
unfoldable pub read_run : Fault → (RunRow → Bool) → List RunRow → Result RuntimeRunRecord
unfolding statement found_row first_row
read_run fault holds rows =
    statement fault (bytes "sqlite_read_failed") (bytes "Could not read runtime run")
    >> found_row (first_row holds rows)

-- The primary key, the unique column and the foreign key of the table.
unfoldable pub allowed : RunRow → Tables → Bool
unfolding any_row
allowed row tables =
    not (any_row (has_id row.id) tables.runs)
    && (not (any_row (has_request_id row.request_id) tables.runs)
        && mem row.session_id tables.session_ids)

-- The transaction of `create_run`.
unfoldable pub insert_run : Engine → RunRow → Tables → Result Tables
unfolding allowed execute statement sqlite_error
insert_run engine row tables =
    execute (engine.fault 1)
    >> (statement (engine.fault 2) (bytes "run_create_failed")
          (bytes "Could not create runtime run")
        >> ((if allowed row tables
              then success tt
              else failure (
                  sqlite_error (bytes "run_create_failed") (bytes "Could not create runtime run")
                    engine.constraint))
            >> (execute (engine.fault 3)
                >> success (record tables { runs = tables.runs ++ row ∷ [] }))))

abbrev pub new_row : Bytes → Bytes → Bytes → Bytes → Bytes → ℕ → Bytes → RunRow
new_row id session_id request_id request parent_run_id deadline_ms now = record {
  id = id;
  session_id = session_id;
  parent_run_id = parent_run_id;
  request_id = request_id;
  request = request;
  status = status_name RunStatus.queued;
  result = [];
  error = [];
  deadline_ms = deadline_ms;
  created_at = now;
  updated_at = now;
}

unfoldable pub created_run :
    Engine → RunRow → Tables → Result Tables → Tables × Result CreateRunResult
unfolding read_run
created_run engine row tables (failure error) = (tables, failure error)
created_run engine row tables (success inserted) = (
  inserted,
  read_run (engine.fault 4) (has_id row.id) inserted.runs >>= λ run.
      success (record { run = run; created = true }),
)

-- `create_run`, with the row that it would insert.
unfoldable pub create_row : Engine → RunRow → Tables → Tables × Result CreateRunResult
unfolding insert_run created_run
create_row engine row tables =
    elim (read_run (engine.fault 0) (has_request_id row.request_id) tables.runs) [
      | success existing ↦ (tables, success (record { run = existing; created = false }))
      | failure error ↦
          if not (eq_bytes error.code (bytes "run_not_found"))
          then (tables, failure error)
          else created_run engine row tables (insert_run engine row tables)
    ]

unfoldable pub create_run :
    Engine
    → Bytes
    → Bytes
    → Bytes
    → Bytes
    → Bytes
    → ℕ
    → Bytes
    → Tables
    → Tables × Result CreateRunResult
unfolding create_row
create_run engine id session_id request_id request parent_run_id deadline_ms now tables =
    create_row engine (new_row id session_id request_id request parent_run_id deadline_ms now)
      tables

unfoldable pub get_run : Engine → Bytes → Tables → Result RuntimeRunRecord
unfolding read_run
get_run engine id tables = read_run (engine.fault 0) (has_id id) tables.runs

abbrev pub run_state_conflict : Bytes → Error
run_state_conflict message = make_error resume_mismatch (bytes "run_state_conflict") message

abbrev pub in_state : Bytes → RunStatus → RunRow → Bool
in_state id expected row = eq_bytes row.id id && eq_bytes row.status (status_name expected)

abbrev pub moved : RunStatus → Bytes → Bytes → Bytes → RunRow → RunRow
moved desired result error now row = record row {
  status = status_name desired;
  result = result;
  error = error;
  updated_at = now;
}

unfoldable pub transition_run :
    Engine
    → Bytes
    → RunStatus
    → RunStatus
    → Bytes
    → Bytes
    → Bytes
    → Tables
    → Tables × Result RuntimeRunRecord
unfolding statement update_rows changes
transition_run engine id expected desired result error now tables =
    if not (valid_transition expected desired)
    then (
      tables,
      failure (run_state_conflict (bytes "Requested runtime run transition is not allowed")),
    )
    else elim (statement (engine.fault 0) (bytes "run_update_failed")
        (bytes "Could not update runtime run")) [
          | failure error ↦ (tables, failure error)
          | success done ↦
              let rows =
                update_rows (in_state id expected) (moved desired result error now) tables.runs in
              (
                record tables { runs = rows },
                if changes (in_state id expected) tables.runs == 0
                    then failure (
                        run_state_conflict (bytes "Runtime run is no longer in the expected state"))
                    else read_run (engine.fault 1) (has_id id) rows,
              )
        ]

abbrev pub was_running : RunRow → Bool
was_running row =
    eq_bytes row.status (status_name RunStatus.running)
    || eq_bytes row.status (status_name RunStatus.cancelling)

abbrev pub interrupt : Bytes → RunRow → RunRow
interrupt now row = record row { status = status_name RunStatus.interrupted; updated_at = now }

unfoldable pub recover_running_runs : Engine → Bytes → Tables → Tables × Result ℕ
unfolding statement update_rows changes
recover_running_runs engine now tables =
    elim (statement (engine.fault 0) (bytes "run_recovery_failed")
      (bytes "Could not recover interrupted runtime runs")) [
        | failure error ↦ (tables, failure error)
        | success done ↦ (
          record tables { runs = update_rows was_running (interrupt now) tables.runs },
          success (changes was_running tables.runs),
        )
      ]
