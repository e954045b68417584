-- ===== src/Store/Engine.antt =====
-- src/state/state_store.cpp: how a statement can fail, in `prepare`, `bind_text` and
-- `sqlite3_step`.
use runi.Prelude.{ℕ, Bytes, bytes, [], ◌∷◌, ◌++◌, ◌==◌, if◌then◌else◌}
use runi.Error.{Error, Result, success, failure, make_error, persistence}

-- What SQLite does with a statement; the text is `sqlite3_errmsg`.
pub data Fault : Type 0 where
  works : Fault
  prepare_fails bind_fails step_fails : Bytes → Fault

-- The faults of the statements of one call, by their number in it, and the message that SQLite has
-- for a constraint that does not hold.
pub record Engine : Type 0 where
  pub fault : ℕ → Fault
  pub constraint : Bytes

unfoldable pub sqlite_error : Bytes → Bytes → Bytes → Error
sqlite_error code message detail = make_error persistence code (message ++ (bytes ": " ++ detail))

-- A statement that is prepared, bound and stepped, with the error of its step.
unfoldable pub statement : Fault → Bytes → Bytes → Result (Unit {0})
unfolding sqlite_error
statement works code message = success tt
statement (prepare_fails detail) code message = failure (
    sqlite_error (bytes "sqlite_prepare_failed") (bytes "Could not prepare SQLite statement")
      detail)
statement (bind_fails detail) code message =
    failure
      (sqlite_error (bytes "sqlite_bind_failed") (bytes "Could not bind SQLite text value") detail)
statement (step_fails detail) code message = failure (sqlite_error code message detail)

-- `execute`, which `Transaction` calls; it neither binds nor has an own error code.
unfoldable pub execute : Fault → Result (Unit {0})
execute works = success tt
execute (prepare_fails detail) = failure (
    make_error persistence (bytes "sqlite_execute_failed")
      (bytes "SQLite statement failed: " ++ detail))
execute (bind_fails detail) = failure (
    make_error persistence (bytes "sqlite_execute_failed")
      (bytes "SQLite statement failed: " ++ detail))
execute (step_fails detail) = failure (
    make_error persistence (bytes "sqlite_execute_failed")
      (bytes "SQLite statement failed: " ++ detail))

-- `column_text` makes a string of a C string: it ends at the first zero byte.
unfoldable pub column_text : Bytes → Bytes
column_text [] = []
column_text (c ∷ cs) = if c == 0 then [] else c ∷ column_text cs

abbrev pub working : Engine
working = record { fault = λ _. works; constraint = [] }
