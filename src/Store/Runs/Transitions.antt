-- ===== src/Store/Runs/Transitions.antt =====
-- src/state/state_store.cpp: `transition_run` as a comparison and an update.
use runi.Prelude.{
  ◌≡◌, ◌≢◌, refl, sym, ap, ◌∙◌, subst, true, false, some, List, [], ◌∷◌, Bytes, bytes, eq_bytes,
  eq_bytes_iff, eq_bytes_refl, arith, Bool-cases, inl, inr, ◌==◌,
}
use runi.Error.{success, failure}
use runi.Store.Status.{
  RunStatus, status_name, status_name-injective, status_name-read, valid_transition,
}
use runi.Store.Engine.{works, Engine, statement, column_text}
use runi.Store.Runs.{
  RunRow, Tables, RuntimeRunRecord, first_row, any_row, update_rows, changes, has_id, in_state,
  moved, found_row, record_of, read_run, transition_run, run_state_conflict,
}
use runi.Store.Runs.Rows.{first_row-update, update_none, changes_none, first_row_holds}
use runi.Store.Runs.Invariant.{AreValid, IsValid, transition-IsValid}

none_in_state :
    (id : Bytes) (s : RunStatus) (rows : List RunRow)
    → any_row (has_id id) rows ≡ false
    → any_row (in_state id s) rows ≡ false
unfolding any_row
none_in_state id s [] u = refl
none_in_state id s (r ∷ rows) u = ground (arith, none_in_state id s rows)

-- With unique ids, the run is not in a state that its row does not have.
not_in_state :
    (sessions : List Bytes) (id : Bytes) (s : RunStatus) (rows : List RunRow) (row : RunRow)
    → AreValid sessions rows
    → first_row (has_id id) rows ≡ some row
    → eq_bytes row.status (status_name s) ≡ false
    → any_row (in_state id s) rows ≡ false
unfolding first_row any_row
not_in_state sessions id s [] row v h n = refl
not_in_state sessions id s (r ∷ rows) row (unique, others, known, named, rest) h n =
    elim (Bool-cases (eq_bytes r.id id)) [
      | inl e ↦
          let here : some r ≡ some row = rw e at h in
          let status : eq_bytes r.status (status_name s) ≡ false = cc in
          rw (e, status)
            (none_in_state id s rows
              (subst (λ i. any_row (has_id i) rows ≡ false) ((eq_bytes_iff r.id id).0 e) unique))
      | inr e ↦ rw e (not_in_state sessions id s rows row rest (rw e at h) n)
    ]

some-changes :
    (id : Bytes) (s : RunStatus) (rows : List RunRow) (row : RunRow)
    → first_row (has_id id) rows ≡ some row
    → row.status ≡ status_name s
    → (changes (in_state id s) rows == 0) ≡ false
unfolding changes first_row
some-changes id s [] row h e = absurd (cc)
some-changes id s (r ∷ rows) row h e = elim (Bool-cases (eq_bytes r.id id)) [
  | inl y ↦
      let here : some r ≡ some row = rw y at h in
      let status : r.status ≡ status_name s = cc in
      ground (arith, eq_bytes_iff r.status (status_name s))
  | inr n ↦ ground (arith, some-changes id s rows row (rw n at h) e)
]

not_itself : (s t : RunStatus) → valid_transition s t ≡ true → s ≢ t
unfolding valid_transition
not_itself s t v e = irreflexive s (subst (λ x. valid_transition s x ≡ true) (sym e) v)
  where
    irreflexive : (s : RunStatus) → ¬ (valid_transition s s ≡ true)
    irreflexive RunStatus.queued h = cc
    irreflexive RunStatus.running h = cc
    irreflexive RunStatus.succeeded h = cc
    irreflexive RunStatus.failed h = cc
    irreflexive RunStatus.cancelling h = cc
    irreflexive RunStatus.cancelled h = cc
    irreflexive RunStatus.interrupted h = cc

column_text-status_name : (s : RunStatus) → column_text (status_name s) ≡ status_name s
unfolding column_text status_name bytes
column_text-status_name RunStatus.queued = refl
column_text-status_name RunStatus.running = refl
column_text-status_name RunStatus.succeeded = refl
column_text-status_name RunStatus.failed = refl
column_text-status_name RunStatus.cancelling = refl
column_text-status_name RunStatus.cancelled = refl
column_text-status_name RunStatus.interrupted = refl

-- What a reader makes of a row whose status is written by the program.
abbrev record_in : RunStatus → RunRow → RuntimeRunRecord
record_in s row = record {
  id = column_text row.id;
  session_id = column_text row.session_id;
  parent_run_id = column_text row.parent_run_id;
  request_id = column_text row.request_id;
  request = column_text row.request;
  status = s;
  result = column_text row.result;
  error = column_text row.error;
  deadline_ms = row.deadline_ms;
  created_at = column_text row.created_at;
  updated_at = column_text row.updated_at;
}

record_of-named :
    (row : RunRow) (s : RunStatus)
    → row.status ≡ status_name s
    → record_of row ≡ success (record_in s row)
unfolding record_of
record_of-named row s h = rw (h, column_text-status_name s, status_name-read s, record_of) refl

moves_row :
    (id : Bytes) (s t : RunStatus) (result error now : Bytes) (rows : List RunRow) (row : RunRow)
    → first_row (has_id id) rows ≡ some row
    → row.status ≡ status_name s
    → first_row (has_id id) (update_rows (in_state id s) (moved t result error now) rows)
      ≡ some (moved t result error now row)
moves_row id s t result error now rows row there named =
    first_row-update (has_id id) (in_state id s) (moved t result error now) (λ r. ground arith) rows
      row there
    ∙ rw (first_row_holds (has_id id) rows row there, named, eq_bytes_refl (status_name s)) refl

module _ (engine : Engine) (id : Bytes) (s t : RunStatus) (result error now : Bytes)
    (tables : Tables) (row : RunRow) where
  -- The transition of a run that is in the expected state succeeds: its row is moved, and read back.
  pub transition_moves :
      engine.fault 0 ≡ works
      → engine.fault 1 ≡ works
      → valid_transition s t ≡ true
      → first_row (has_id id) tables.runs ≡ some row
      → row.status ≡ status_name s
      → transition_run engine id s t result error now tables ≡ (
        record tables { runs = update_rows (in_state id s) (moved t result error now) tables.runs },
        success (record_in t (moved t result error now row)),
      )
  unfolding transition_run read_run statement found_row
  transition_moves w0 w1 v there named =
      rw
        (
          v,
          w0,
          some-changes id s tables.runs row there named,
          w1,
          moves_row id s t result error now tables.runs row there named,
          record_of-named (moved t result error now row) t refl,
        )
        refl

  -- The transition of a run that is in another state changes nothing.
  pub transition_conflicts :
      engine.fault 0 ≡ works
      → valid_transition s t ≡ true
      → IsValid tables
      → first_row (has_id id) tables.runs ≡ some row
      → row.status ≢ status_name s
      → transition_run engine id s t result error now tables ≡ (
        tables,
        failure (run_state_conflict (bytes "Runtime run is no longer in the expected state")),
      )
  unfolding transition_run statement
  transition_conflicts w v valid there other =
      rw
        (
          v,
          w,
          update_none (in_state id s) (moved t result error now) tables.runs none_there,
          changes_none (in_state id s) tables.runs none_there,
        )
        refl
    where
      none_there : any_row (in_state id s) tables.runs ≡ false
      none_there =
          not_in_state tables.session_ids id s tables.runs row valid there
            (ground (arith, eq_bytes_iff row.status (status_name s), other))

-- In valid tables that can be read and written, let a run be in a state from which the source
-- allows two transitions, to the same state or to different ones. Of two calls of `transition_run`
-- that make them, one after the other and both from that state, the first takes the run out of the
-- state and returns it in the desired one; the second changes nothing and fails with
-- `run_state_conflict`.
pub transition_once :
    (engine again : Engine) (id : Bytes) (s t u : RunStatus)
    (result error now result' error' now' : Bytes) (tables : Tables) (row : RunRow)
    → engine.fault 0 ≡ works
    → engine.fault 1 ≡ works
    → again.fault 0 ≡ works
    → IsValid tables
    → first_row (has_id id) tables.runs ≡ some row
    → row.status ≡ status_name s
    → valid_transition s t ≡ true
    → valid_transition s u ≡ true
    → ((run : RuntimeRunRecord) × ((transition_run engine id s t result error now tables).1
          ≡ success run)
        × (run.status ≡ t))
      × (transition_run again id s u result' error' now'
            (transition_run engine id s t result error now tables).0
          ≡ (
            (transition_run engine id s t result error now tables).0,
            failure (run_state_conflict (bytes "Runtime run is no longer in the expected state")),
          ))
transition_once engine again id s t u result error now result' error' now' tables row w0 w1 w valid
      there named v v' =
    (
      (record_in t (moved t result error now row), ap (λ r. r.1) first, refl),
      transition_conflicts again id s u result' error' now'
          (transition_run engine id s t result error now tables).0 (moved t result error now row) w
          v' (transition-IsValid engine id s t result error now tables valid)
          (ap (λ r. first_row (has_id id) r.0.runs) first
            ∙ moves_row id s t result error now tables.runs row there named)
          (λ e. not_itself s t v (status_name-injective s t (sym e))),
    )
  where
    first : transition_run engine id s t result error now tables ≡ (
      record tables { runs = update_rows (in_state id s) (moved t result error now) tables.runs },
      success (record_in t (moved t result error now row)),
    )
    first = transition_moves engine id s t result error now tables row w0 w1 v there named
