-- ===== src/Store/Runs/Idempotent.antt =====
-- src/state/state_store.cpp: two calls of `create_run` with one request id.
use runi.Prelude.{
  ℕ, ◌≡◌, refl, sym, ap, ◌∙◌, Bool, false, List, Bytes, bytes, eq_bytes, eq_bytes_refl, arith,
  Bool-cases, inl, inr,
}
use runi.Error.{success, ◌>>=◌, Result-cases}
use runi.Store.Engine.{Fault, works, Engine, statement}
use runi.Store.Runs.{
  RunRow, Tables, RuntimeRunRecord, CreateRunResult, first_row, any_row, has_id, has_request_id,
  new_row, allowed, read_run, found_row, insert_run, created_run, create_row, create_run,
}
use runi.Store.Runs.Rows.{first_row-last}
use runi.Store.Runs.History.{insert_run_tables}

read_run_found :
    (fault : Fault) (holds : RunRow → Bool) (rows : List RunRow) (run : RuntimeRunRecord)
    → read_run fault holds rows ≡ success run
    → found_row (first_row holds rows) ≡ success run
unfolding read_run
read_run_found fault holds rows run h =
    elim (Result-cases
      (statement fault (bytes "sqlite_read_failed") (bytes "Could not read runtime run"))) [
        | inr (e, f) ↦ absurd (cc (rw (f, read_run) at h))
        | inl (a, f) ↦ rw (f, read_run) at h
      ]

-- Where a created run is found again.
created_found :
    (engine : Engine) (row : RunRow) (tables inserted : Tables) (result : CreateRunResult)
    → insert_run engine row tables ≡ success inserted
    → (created_run engine row tables (success inserted)).1 ≡ success result
    → found_row (first_row (has_request_id row.request_id) inserted.runs) ≡ success result.run
unfolding created_run allowed
created_found engine row tables inserted result h c =
    let (at_end, ok) = insert_run_tables engine row tables inserted h in
    let no_id : any_row (has_id row.id) tables.runs ≡ false = ground arith in
    let no_request : any_row (has_request_id row.request_id) tables.runs ≡ false = ground arith in
    let by_id = first_row-last (has_id row.id) tables.runs row no_id (eq_bytes_refl row.id) in
    let by_request =
      first_row-last (has_request_id row.request_id) tables.runs row no_request
        (eq_bytes_refl row.request_id) in
    ap (λ ts. found_row (first_row (has_request_id row.request_id) ts.runs)) at_end
    ∙ (ap (λ r. found_row r) (by_request ∙ sym by_id)
        ∙ (ap (λ ts. found_row (first_row (has_id row.id) ts.runs)) (sym at_end)
            ∙ elim (Result-cases (read_run (engine.fault 4) (has_id row.id) inserted.runs)) [
              | inr (e, f) ↦ absurd (cc (rw f at c))
              | inl (run, f) ↦
                  read_run_found (engine.fault 4) (has_id row.id) inserted.runs run f
                  ∙ ap (λ r. r >>= λ x. success x.run) (rw f at c)
            ]))

found_existing :
    (engine : Engine) (row : RunRow) (tables : Tables) (run : RuntimeRunRecord)
    → engine.fault 0 ≡ works
    → found_row (first_row (has_request_id row.request_id) tables.runs) ≡ success run
    → create_row engine row tables ≡ (tables, success (record { run = run; created = false }))
unfolding create_row read_run statement
found_existing engine row tables run w h = rw (w, create_row, read_run) (rw (h, create_row) refl)

found_again :
    (engine again : Engine) (row second : RunRow) (tables : Tables) (result : CreateRunResult)
    → again.fault 0 ≡ works
    → second.request_id ≡ row.request_id
    → (create_row engine row tables).1 ≡ success result
    → create_row again second (create_row engine row tables).0
      ≡ ((create_row engine row tables).0, success (record { run = result.run; created = false }))
unfolding create_row read_run statement
found_again engine again row second tables result w same h =
    found_existing again second (create_row engine row tables).0 result.run w (rw same there)
  where
    there :
        found_row (first_row (has_request_id row.request_id) (create_row engine row tables).0.runs)
        ≡ success result.run
    there =
        elim (Result-cases
          (read_run (engine.fault 0) (has_request_id row.request_id) tables.runs)) [
            | inl (run, e) ↦
                rw (e, create_row)
                  (read_run_found (engine.fault 0) (has_request_id row.request_id) tables.runs run e
                    ∙ ap (λ r. r >>= λ x. success x.run) (rw (e, create_row) at h))
            | inr (error, e) ↦ elim (Bool-cases (eq_bytes error.code (bytes "run_not_found"))) [
              | inr other ↦ absurd (cc (rw (e, other, create_row) at h))
              | inl missing ↦ elim (Result-cases (insert_run engine row tables)) [
                | inr (error', f) ↦ absurd (cc (rw (e, missing, f, create_row) at h))
                | inl (inserted, f) ↦
                    rw (e, missing, f, create_row)
                      (created_found engine row tables inserted result f
                        (rw (e, missing, f, create_row) at h))
              ]
            ]
          ]

-- When `create_run` has succeeded, a call with the same request id, at once and on a table that can
-- be read, returns the same run with `created` false and changes nothing, whatever the other
-- arguments are.
pub create_run-create_run :
    (engine again : Engine)
    (id session_id request_id request parent now id' session_id' request' parent' now' : Bytes)
    (deadline deadline' : ℕ) (tables : Tables) (result : CreateRunResult)
    → again.fault 0 ≡ works
    → (create_run engine id session_id request_id request parent deadline now tables).1
      ≡ success result
    → create_run again id' session_id' request_id request' parent' deadline' now'
        (create_run engine id session_id request_id request parent deadline now tables).0
      ≡ (
        (create_run engine id session_id request_id request parent deadline now tables).0,
        success (record { run = result.run; created = false }),
      )
unfolding create_run
create_run-create_run engine again id session_id request_id request parent now id' session_id'
      request' parent' now' deadline deadline' tables result w h =
    found_again engine again (new_row id session_id request_id request parent deadline now)
      (new_row id' session_id' request_id request' parent' deadline' now') tables result w refl h
