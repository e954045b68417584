-- ===== src/Store/Runs/History.antt =====
-- src/state/state_store.cpp: the table `runs` over a list of calls, whichever statements fail.
use runi.Prelude.{
  ◌≡◌, refl, sym, ap, ◌∙◌, subst, true, some, List, [], ◌∷◌, ◌++◌, Bytes, bytes, eq_bytes,
  eq_bytes_iff, arith, Bool-cases, ◌⊎◌, inl, inr,
}
use runi.Error.{success, Result-cases}
use runi.Store.Status.{
  RunStatus, status_name, valid_transition, IsTerminal, terminal_stays, status_name-injective,
}
use runi.Store.Engine.{Engine, statement, execute}
use runi.Store.Runs.{
  RunRow, Tables, first_row, update_rows, has_id, in_state, moved, was_running, interrupt, new_row,
  allowed, read_run, insert_run, created_run, create_row, create_run, transition_run,
  recover_running_runs,
}
use runi.Store.Runs.Rows.{changed, first_row-update, first_row-append}

-- The calls that change the table, with what SQLite does in each.
pub data Op : Type 0 where
  creates : Engine → RunRow → Op
  transitions : Engine → Bytes → RunStatus → RunStatus → Bytes → Bytes → Bytes → Op
  recovers : Engine → Bytes → Op

unfoldable pub op : Tables → Op → Tables
op tables (creates engine row) =
    (create_run engine row.id row.session_id row.request_id row.request row.parent_run_id
      row.deadline_ms row.created_at tables).0
op tables (transitions engine id expected desired result error now) =
    (transition_run engine id expected desired result error now tables).0
op tables (recovers engine now) = (recover_running_runs engine now tables).0

unfoldable pub ops : Tables → List Op → Tables
unfolding op
ops tables [] = tables
ops tables (o ∷ os) = ops (op tables o) os

-- A row and a later state of it: its status has moved along the transitions, and what identifies
-- the run and its request is as it was.
pub data Evolves (row : RunRow) : RunRow → Type 0 where
  same : Evolves row row
  moves :
      (later : RunRow) (s t : RunStatus) (result error now : Bytes)
      → Evolves row later
      → later.status ≡ status_name s
      → valid_transition s t ≡ true
      → Evolves row (record later {
        status = status_name t;
        result = result;
        error = error;
        updated_at = now;
      })

pub insert_run_tables :
    (engine : Engine) (row : RunRow) (tables inserted : Tables)
    → insert_run engine row tables ≡ success inserted
    → (inserted ≡ record tables { runs = tables.runs ++ row ∷ [] }) × (allowed row tables ≡ true)
unfolding insert_run
insert_run_tables engine row tables inserted h = elim (Result-cases (execute (engine.fault 1))) [
  | inr (e, f) ↦ absurd (cc (rw f at h))
  | inl (a, f) ↦
      elim (Result-cases (
        statement (engine.fault 2) (bytes "run_create_failed")
          (bytes "Could not create runtime run"))) [
            | inr (e, g) ↦ absurd (cc (rw (f, g) at h))
            | inl (b, g) ↦ elim (Bool-cases (allowed row tables)) [
              | inr n ↦ absurd (cc (rw (f, g, n) at h))
              | inl y ↦ elim (Result-cases (execute (engine.fault 3))) [
                | inr (e, k) ↦ absurd (cc (rw (f, g, y, k) at h))
                | inl (c, k) ↦ (cc (rw (f, g, y, k) at h), y)
              ]
            ]
          ]
]

-- A call of `create_run` leaves the tables, or adds its row to them.
pub create_row_tables :
    (engine : Engine) (row : RunRow) (tables : Tables)
    → ((create_row engine row tables).0 ≡ tables)
      ⊎ (((create_row engine row tables).0 ≡ record tables { runs = tables.runs ++ row ∷ [] })
          × (allowed row tables ≡ true))
unfolding create_row created_run
create_row_tables engine row tables =
    elim (Result-cases
      (read_run (engine.fault 0) (λ r. eq_bytes r.request_id row.request_id) tables.runs)) [
        | inl (found, e) ↦ inl (rw (e, create_row) refl)
        | inr (error, e) ↦ elim (Bool-cases (eq_bytes error.code (bytes "run_not_found"))) [
          | inr other ↦ inl (rw (e, other, create_row) refl)
          | inl missing ↦ elim (Result-cases (insert_run engine row tables)) [
            | inr (error', f) ↦ inl (rw (e, missing, f, create_row) refl)
            | inl (inserted, f) ↦
                let i = insert_run_tables engine row tables inserted f in
                inr (rw (e, missing, f, create_row) i.0, i.1)
          ]
        ]
      ]

pub transition_run_tables :
    (engine : Engine) (id : Bytes) (s t : RunStatus) (result error now : Bytes) (tables : Tables)
    → ((transition_run engine id s t result error now tables).0 ≡ tables)
      ⊎ (((transition_run engine id s t result error now tables).0 ≡ record tables {
        runs = update_rows (in_state id s) (moved t result error now) tables.runs;
      })
          × (valid_transition s t ≡ true))
unfolding transition_run
transition_run_tables engine id s t result error now tables =
    elim (Bool-cases (valid_transition s t)) [
      | inr n ↦ inl (rw n refl)
      | inl y ↦
          elim (Result-cases (
            statement (engine.fault 0) (bytes "run_update_failed")
              (bytes "Could not update runtime run"))) [
                | inr (e, f) ↦ inl (rw (y, f) refl)
                | inl (a, f) ↦ inr (rw (y, f) refl, y)
              ]
    ]

pub recover_tables :
    (engine : Engine) (now : Bytes) (tables : Tables)
    → ((recover_running_runs engine now tables).0 ≡ tables)
      ⊎ ((recover_running_runs engine now tables).0
          ≡ record tables { runs = update_rows was_running (interrupt now) tables.runs })
unfolding recover_running_runs
recover_tables engine now tables =
    elim (Result-cases (
      statement (engine.fault 0) (bytes "run_recovery_failed")
        (bytes "Could not recover interrupted runtime runs"))) [
          | inr (e, f) ↦ inl (rw (f, recover_running_runs) refl)
          | inl (a, f) ↦ inr (rw (f, recover_running_runs) refl)
        ]

Evolves-moved :
    (row later : RunRow) (id : Bytes) (s t : RunStatus) (result error now : Bytes)
    → valid_transition s t ≡ true
    → Evolves row later
    → Evolves row (changed (in_state id s) (moved t result error now) later)
Evolves-moved row later id s t result error now v e = elim (Bool-cases (in_state id s later)) [
  | inr n ↦ rw n e
  | inl y ↦ rw y (
      moves later s t result error now e
        ((eq_bytes_iff later.status (status_name s)).0 (ground arith)) v)
]

Evolves-interrupt :
    (row later : RunRow) (now : Bytes)
    → Evolves row later
    → Evolves row (changed was_running (interrupt now) later)
unfolding valid_transition
Evolves-interrupt row later now e =
    elim (Bool-cases (eq_bytes later.status (status_name RunStatus.running))) [
      | inl y ↦ rw y (
          moves later RunStatus.running RunStatus.interrupted later.result later.error now e
            ((eq_bytes_iff later.status (status_name RunStatus.running)).0 y) refl)
      | inr n ↦ elim (Bool-cases (eq_bytes later.status (status_name RunStatus.cancelling))) [
        | inl y ↦
            rw (n, y)
              (moves later RunStatus.cancelling RunStatus.interrupted later.result later.error now e
                ((eq_bytes_iff later.status (status_name RunStatus.cancelling)).0 y) refl)
        | inr m ↦ rw (n, m) e
      ]
    ]

moved-keeps-id :
    (id other : Bytes) (s t : RunStatus) (result error now : Bytes) (r : RunRow)
    → has_id id (changed (in_state other s) (moved t result error now) r) ≡ has_id id r
moved-keeps-id id other s t result error now r = ground arith

interrupt-keeps-id :
    (id now : Bytes) (r : RunRow) → has_id id (changed was_running (interrupt now) r) ≡ has_id id r
interrupt-keeps-id id now r = ground arith

-- There is a row of this id, which has evolved from the given one.
abbrev pub Later : Bytes → RunRow → Tables → Type 0
Later id row tables =
    (later : RunRow) × (first_row (has_id id) tables.runs ≡ some later) × Evolves row later

op-Later :
    (id : Bytes) (row : RunRow) (tables : Tables) (o : Op)
    → Later id row tables
    → Later id row (op tables o)
unfolding op create_run
op-Later id row tables (creates engine new) (later, there, e) =
    let added =
      new_row new.id new.session_id new.request_id new.request new.parent_run_id new.deadline_ms
        new.created_at in
    elim (create_row_tables engine added tables) [
      | inl unchanged ↦ rw unchanged (later, there, e)
      | inr (appended, ok) ↦
          rw appended (later, first_row-append (has_id id) tables.runs (added ∷ []) later there, e)
    ]
op-Later id row tables (transitions engine other s t result error now) (later, there, e) =
    elim (transition_run_tables engine other s t result error now tables) [
      | inl unchanged ↦ rw unchanged (later, there, e)
      | inr (updated, v) ↦ rw updated (
        changed (in_state other s) (moved t result error now) later,
        first_row-update (has_id id) (in_state other s) (moved t result error now)
            (moved-keeps-id id other s t result error now) tables.runs later there,
        Evolves-moved row later other s t result error now v e,
      )
    ]
op-Later id row tables (recovers engine now) (later, there, e) =
    elim (recover_tables engine now tables) [
      | inl unchanged ↦ rw unchanged (later, there, e)
      | inr updated ↦ rw updated (
        changed was_running (interrupt now) later,
        first_row-update (has_id id) was_running (interrupt now) (interrupt-keeps-id id now)
            tables.runs later there,
        Evolves-interrupt row later now e,
      )
    ]

-- However `create_run`, `transition_run` and `recover_running_runs` are called afterwards, with
-- whatever failures, the row of a run stays in the table, and it is what the row was but for its
-- status, which has moved along allowed transitions only, and the result, error and time that a
-- transition writes.
pub ops-Evolves :
    (id : Bytes) (row : RunRow) (tables : Tables) (os : List Op)
    → first_row (has_id id) tables.runs ≡ some row
    → (later : RunRow) × (first_row (has_id id) (ops tables os).runs ≡ some later)
      × Evolves row later
unfolding ops
ops-Evolves id row tables os h = from tables os (row, h, same)
  where
    from : (ts : Tables) (os : List Op) → Later id row ts → Later id row (ops ts os)
    from ts [] l = l
    from ts (o ∷ os) l = from (op ts o) os (op-Later id row ts o l)

Evolves-terminal :
    (row later : RunRow) (s : RunStatus)
    → row.status ≡ status_name s
    → IsTerminal s
    → Evolves row later
    → later ≡ row
Evolves-terminal row later s h t same = refl
Evolves-terminal row later s h t (moves before u v result error now e at_u valid) =
    let still : before ≡ row = Evolves-terminal row before s h t e in
    let named : u ≡ s = status_name-injective u s (sym at_u ∙ (ap (λ r. r.status) still ∙ h)) in
    absurd (cc (terminal_stays s v t, subst (λ x. valid_transition x v ≡ true) named valid))

-- The row of a run that has succeeded, failed or been cancelled never changes again: neither its
-- status nor its result, error or time, whatever is called and whatever fails.
pub ops_terminal :
    (id : Bytes) (row : RunRow) (s : RunStatus) (tables : Tables) (os : List Op)
    → first_row (has_id id) tables.runs ≡ some row
    → row.status ≡ status_name s
    → IsTerminal s
    → first_row (has_id id) (ops tables os).runs ≡ some row
ops_terminal id row s tables os there h t =
    let (later, found, e) = ops-Evolves id row tables os there in
    found ∙ ap (λ r. some r) (Evolves-terminal row later s h t e)
