-- ===== src/Store/Runs/Invariant.antt =====
-- src/state/state_store.cpp: the constraints of the table `runs` over a list of calls.
use runi.Prelude.{
  ◌≡◌, refl, ap, ◌∙◌, Bool, true, false, List, [], ◌∷◌, ◌++◌, Bytes, eq_bytes, eq_bytes_iff, mem,
  arith, Bool-cases, ◌⊎◌, inl, inr,
}
use runi.Store.Status.{RunStatus, status_name}
use runi.Store.Engine.{Engine}
use runi.Store.Runs.{
  RunRow, Tables, any_row, update_rows, has_id, has_request_id, in_state, moved, was_running,
  interrupt, new_row, allowed, create_run, transition_run,
}
use runi.Store.Runs.Rows.{changed, any_row-update, any_row-append}
use runi.Store.Runs.History.{Op, op, ops, create_row_tables, transition_run_tables, recover_tables}

-- Each id and each request id stands in one row only, each row is of a session, and its status is
-- the name of one.
abbrev pub AreValid : List Bytes → List RunRow → Type 0
AreValid sessions [] = Unit {0}
AreValid sessions (row ∷ rows) =
    (any_row (has_id row.id) rows ≡ false)
    × (any_row (has_request_id row.request_id) rows ≡ false)
    × (mem row.session_id sessions ≡ true)
    × ((s : RunStatus) × (row.status ≡ status_name s))
    × AreValid sessions rows

-- A change that keeps the columns which the constraints are about.
record Keeps (holds : RunRow → Bool) (change : RunRow → RunRow) : Type 0 where
  ids : (row : RunRow) → (changed holds change row).id ≡ row.id
  requests : (row : RunRow) → (changed holds change row).request_id ≡ row.request_id
  sessions : (row : RunRow) → (changed holds change row).session_id ≡ row.session_id
  names :
      (row : RunRow)
      → (s : RunStatus) × ((changed holds change row).status ≡ row.status
          ⊎ ((changed holds change row).status ≡ status_name s))

update-AreValid :
    (sessions : List Bytes) (holds : RunRow → Bool) (change : RunRow → RunRow) (rows : List RunRow)
    → Keeps holds change
    → AreValid sessions rows
    → AreValid sessions (update_rows holds change rows)
unfolding update_rows
update-AreValid sessions holds change [] k v = tt
update-AreValid sessions holds change (row ∷ rows) k (id, request, session, (s, named), rest) = (
  any_row-update (has_id (changed holds change row).id) holds change
        (λ r. ap (λ i. eq_bytes i (changed holds change row).id) (k.ids r)) rows
      ∙ (ap (λ i. any_row (has_id i) rows) (k.ids row) ∙ id),
  any_row-update (has_request_id (changed holds change row).request_id) holds change
        (λ r. ap (λ i. eq_bytes i (changed holds change row).request_id) (k.requests r)) rows
      ∙ (ap (λ i. any_row (has_request_id i) rows) (k.requests row) ∙ request),
  ap (λ i. mem i sessions) (k.sessions row) ∙ session,
  name_of (k.names row).1,
  update-AreValid sessions holds change rows k rest,
)
  where
    name_of :
        ((changed holds change row).status ≡ row.status)
          ⊎ ((changed holds change row).status ≡ status_name (k.names row).0)
        → (t : RunStatus) × ((changed holds change row).status ≡ status_name t)
    name_of (inl e) = (s, e ∙ named)
    name_of (inr e) = ((k.names row).0, e)

eq_bytes_sym : (a b : Bytes) → eq_bytes a b ≡ eq_bytes b a
eq_bytes_sym a b = ground (arith, eq_bytes_iff a b, eq_bytes_iff b a)

append-AreValid :
    (sessions : List Bytes) (rows : List RunRow) (row : RunRow) (s : RunStatus)
    → row.status ≡ status_name s
    → mem row.session_id sessions ≡ true
    → any_row (has_id row.id) rows ≡ false
    → any_row (has_request_id row.request_id) rows ≡ false
    → AreValid sessions rows
    → AreValid sessions (rows ++ row ∷ [])
unfolding any_row
append-AreValid sessions [] row s named m i r v = (refl, refl, m, (s, named), tt)
append-AreValid sessions (first ∷ rows) row s named m i r (id, request, session, status, rest) = (
  any_row-append (has_id first.id) rows (row ∷ []) ∙ ground (arith, eq_bytes_sym row.id first.id),
  any_row-append (has_request_id first.request_id) rows (row ∷ [])
      ∙ ground (arith, eq_bytes_sym row.request_id first.request_id),
  session,
  status,
  append-AreValid sessions rows row s named m (ground arith) (ground arith) rest,
)

moved-Keeps :
    (id : Bytes) (s t : RunStatus) (result error now : Bytes)
    → Keeps (in_state id s) (moved t result error now)
moved-Keeps id s t result error now = record {
  ids = λ r. ground arith;
  requests = λ r. ground arith;
  sessions = λ r. ground arith;
  names = λ r. (
    t,
    elim (Bool-cases (in_state id s r)) [ inl y ↦ inr (rw y refl) | inr n ↦ inl (rw n refl) ],
  );
}

interrupt-Keeps : (now : Bytes) → Keeps was_running (interrupt now)
interrupt-Keeps now = record {
  ids = λ r. ground arith;
  requests = λ r. ground arith;
  sessions = λ r. ground arith;
  names = λ r. (
    RunStatus.interrupted,
    elim (Bool-cases (was_running r)) [ inl y ↦ inr (rw y refl) | inr n ↦ inl (rw n refl) ],
  );
}

abbrev pub IsValid : Tables → Type 0
IsValid tables = AreValid tables.session_ids tables.runs

pub transition-IsValid :
    (engine : Engine) (id : Bytes) (s t : RunStatus) (result error now : Bytes) (tables : Tables)
    → IsValid tables
    → IsValid (transition_run engine id s t result error now tables).0
transition-IsValid engine id s t result error now tables v =
    elim (transition_run_tables engine id s t result error now tables) [
      | inl unchanged ↦ rw unchanged v
      | inr (updated, ok) ↦ rw updated (
          update-AreValid tables.session_ids (in_state id s) (moved t result error now) tables.runs
            (moved-Keeps id s t result error now) v)
    ]

op-IsValid : (tables : Tables) (o : Op) → IsValid tables → IsValid (op tables o)
unfolding op create_run allowed
op-IsValid tables (Op.creates engine new) v =
    let added =
      new_row new.id new.session_id new.request_id new.request new.parent_run_id new.deadline_ms
        new.created_at in
    elim (create_row_tables engine added tables) [
      | inl unchanged ↦ rw unchanged v
      | inr (appended, ok) ↦ rw appended (
          append-AreValid tables.session_ids tables.runs added RunStatus.queued refl (ground arith)
            (ground arith) (ground arith) v)
    ]
op-IsValid tables (Op.transitions engine id s t result error now) v =
    transition-IsValid engine id s t result error now tables v
op-IsValid tables (Op.recovers engine now) v = elim (recover_tables engine now tables) [
  | inl unchanged ↦ rw unchanged v
  | inr updated ↦ rw updated (
      update-AreValid tables.session_ids was_running (interrupt now) tables.runs
        (interrupt-Keeps now) v)
]

-- From a valid table, no calls and no failures lead to a table that is not: run ids and request ids
-- stay unique, each run is of a session that exists, and each status is the name of one.
pub ops-IsValid : (tables : Tables) (os : List Op) → IsValid tables → IsValid (ops tables os)
unfolding ops
ops-IsValid tables [] v = v
ops-IsValid tables (o ∷ os) v = ops-IsValid (op tables o) os (op-IsValid tables o v)
