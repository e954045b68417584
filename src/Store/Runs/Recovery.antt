-- ===== src/Store/Runs/Recovery.antt =====
-- src/state/state_store.cpp: what `recover_running_runs` makes of the table.
use runi.Prelude.{
  ℕ, ◌+◌, ◌≡◌, refl, subst, true, List, [], ◌∷◌, Bytes, bytes, eq_bytes, eq_bytes_iff, Bool-cases,
  inl, inr, ◌⊎◌, arith,
}
use runi.Error.{success}
use runi.Store.Status.{status_name}
use runi.Store.Engine.{works, Engine, statement}
use runi.Store.Runs.{
  RunRow, Tables, update_rows, changes, recover_running_runs, was_running, interrupt,
}

-- The row of a run that a process was at work on.
abbrev pub IsLeft : RunRow → Type 0
IsLeft row = (row.status ≡ bytes "running") ⊎ (row.status ≡ bytes "cancelling")

-- The rows before and after a recovery at the time `now`, and how many runs it recovers.
pub data Recovered (now : Bytes) : List RunRow → List RunRow → ℕ → Type 0 where
  done : Recovered now [] [] 0
  recovers :
      (row : RunRow) (rows rows' : List RunRow) (n : ℕ)
      → IsLeft row
      → Recovered now rows rows' n
      → Recovered now
          (row ∷ rows)
          ((record row { status = bytes "interrupted"; updated_at = now }) ∷ rows')
          (1 + n)
  keeps :
      (row : RunRow) (rows rows' : List RunRow) (n : ℕ)
      → ¬ IsLeft row
      → Recovered now rows rows' n
      → Recovered now (row ∷ rows) (row ∷ rows') n

-- No row is of a run that a process was at work on.
abbrev pub NoneLeft : List RunRow → Type 0
NoneLeft [] = Unit {0}
NoneLeft (row ∷ rows) = (¬ IsLeft row) × NoneLeft rows

was_running-IsLeft : (row : RunRow) → was_running row ≡ true → IsLeft row
unfolding status_name
was_running-IsLeft row h = elim (Bool-cases (eq_bytes row.status (bytes "running"))) [
  | inl y ↦ inl ((eq_bytes_iff row.status (bytes "running")).0 y)
  | inr n ↦ inr ((eq_bytes_iff row.status (bytes "cancelling")).0 (rw n at h))
]

IsLeft-was_running : (row : RunRow) → IsLeft row → was_running row ≡ true
unfolding status_name
IsLeft-was_running row (inl e) = rw ((eq_bytes_iff row.status (bytes "running")).1 e) refl
IsLeft-was_running row (inr e) =
    let y = (eq_bytes_iff row.status (bytes "cancelling")).1 e in ground (arith, y)

Recovered-rows :
    (now : Bytes) (rows : List RunRow)
    → Recovered now rows (update_rows was_running (interrupt now) rows) (changes was_running rows)
unfolding update_rows changes status_name
Recovered-rows now [] = done
Recovered-rows now (r ∷ rows) = elim (Bool-cases (was_running r)) [
  | inl y ↦ rw y (recovers r rows _ _ (was_running-IsLeft r y) (Recovered-rows now rows))
  | inr n ↦
      let zero_more : changes was_running rows ≡ 0 + changes was_running rows = omega arith in
      rw n (
        subst (Recovered now (r ∷ rows) (r ∷ update_rows was_running (interrupt now) rows))
          zero_more
          (keeps r rows _ _ (λ left. cc (IsLeft-was_running r left)) (Recovered-rows now rows)))
]

interrupted_is_not_left :
    {status : Bytes}
    → status ≡ bytes "interrupted"
    → ¬ ((status ≡ bytes "running") ⊎ (status ≡ bytes "cancelling"))
unfolding bytes
interrupted_is_not_left e (inl r) = cc
interrupted_is_not_left e (inr r) = cc

Recovered-NoneLeft :
    {now : Bytes} {rows rows' : List RunRow} {n : ℕ} → Recovered now rows rows' n → NoneLeft rows'
Recovered-NoneLeft done = tt
Recovered-NoneLeft (recovers row rows rows' n left rest) =
    (interrupted_is_not_left refl, Recovered-NoneLeft rest)
Recovered-NoneLeft (keeps row rows rows' n other rest) = (other, Recovered-NoneLeft rest)

-- On tables that can be written, `recover_running_runs` succeeds. Each row with the status
-- `running` or `cancelling` then has the status `interrupted` and the time of the call, and is
-- otherwise as it was; every other row is as it was, the order of the rows too; no row is left with
-- one of those statuses; and the number returned is how many rows had one.
pub recover_lem :
    (engine : Engine) (now : Bytes) (tables : Tables)
    → engine.fault 0 ≡ works
    → (n : ℕ) × ((recover_running_runs engine now tables).1 ≡ success n)
      × Recovered now tables.runs (recover_running_runs engine now tables).0.runs n
      × NoneLeft (recover_running_runs engine now tables).0.runs
      × ((recover_running_runs engine now tables).0.session_ids ≡ tables.session_ids)
unfolding recover_running_runs statement
recover_lem engine now tables w =
    let all = Recovered-rows now tables.runs in
    rw (w, recover_running_runs)
      (changes was_running tables.runs, refl, all, Recovered-NoneLeft all, refl)
