-- ===== src/Store/Sessions.antt =====
-- src/state/state_store.cpp, the table `sessions`: `create_session`, `get_session` and
-- `compare_and_swap_session`. `J` stands for the JSON values, `dump` for `dump_json` and `parse`
-- for `parse_object_or_empty`; `now` is what `now_utc` returned.
pub mod Rows
pub mod Versions
pub mod History
use runi.Prelude.{
  ℕ, ◌+◌, Bool, true, false, ◌&&◌, Option, none, some, List, [], ◌∷◌, ◌++◌, Bytes, bytes, eq_bytes,
  ◌==◌, if◌then◌else◌,
}
use runi.Error.{Error, Result, success, failure, make_error, persistence, resume_mismatch, ◌>>◌}
use runi.Store.Engine.{Fault, Engine, statement, column_text}

-- A row of the table.
pub record SessionRow : Type 0 where
  pub id : Bytes
  pub workspace_root : Bytes
  pub state_json : Bytes
  pub state_version : ℕ
  pub created_at : Bytes
  pub updated_at : Bytes

pub record RuntimeSessionRecord (J : Type 0) : Type 0 where
  pub id : Bytes
  pub workspace_root : Bytes
  pub state : J
  pub state_version : ℕ
  pub created_at : Bytes
  pub updated_at : Bytes

unfoldable pub find_session : Bytes → List SessionRow → Option SessionRow
find_session id [] = none
find_session id (row ∷ rows) = if eq_bytes row.id id then some row else find_session id rows

abbrev pub session_not_found : Error
session_not_found =
    make_error persistence (bytes "session_not_found") (bytes "Runtime session was not found")

abbrev pub version_conflict : Error
version_conflict =
    make_error resume_mismatch (bytes "session_version_conflict")
      (bytes "Runtime session version changed before commit")

-- The condition of the `UPDATE`, and its assignments.
abbrev pub at_version : Bytes → ℕ → SessionRow → Bool
at_version id expected row = eq_bytes row.id id && (row.state_version == expected)

abbrev pub swapped : Bytes → Bytes → SessionRow → SessionRow
swapped state_json now row = record row {
  state_json = state_json;
  state_version = row.state_version + 1;
  updated_at = now;
}

unfoldable pub swap_rows : Bytes → ℕ → Bytes → Bytes → List SessionRow → List SessionRow
swap_rows id expected state_json now [] = []
swap_rows id expected state_json now (row ∷ rows) =
    (if at_version id expected row then swapped state_json now row else row)
    ∷ swap_rows id expected state_json now rows

unfoldable pub swap_changes : Bytes → ℕ → List SessionRow → ℕ
swap_changes id expected [] = 0
swap_changes id expected (row ∷ rows) =
    (if at_version id expected row then 1 else 0) + swap_changes id expected rows

-- `INSERT OR IGNORE`: the primary key decides.
unfoldable pub insert_or_ignore : SessionRow → Option SessionRow → List SessionRow → List SessionRow
insert_or_ignore row none rows = rows ++ row ∷ []
insert_or_ignore row (some existing) rows = rows

module _ {J : Type 0} where
  abbrev pub session_of : (Bytes → J) → SessionRow → RuntimeSessionRecord J
  session_of parse row = record {
    id = column_text row.id;
    workspace_root = column_text row.workspace_root;
    state = parse (column_text row.state_json);
    state_version = row.state_version;
    created_at = column_text row.created_at;
    updated_at = column_text row.updated_at;
  }

  unfoldable pub found_session : (Bytes → J) → Option SessionRow → Result (RuntimeSessionRecord J)
  found_session parse none = failure session_not_found
  found_session parse (some row) = success (session_of parse row)

  unfoldable pub read_session :
      (Bytes → J) → Fault → Bytes → List SessionRow → Result (RuntimeSessionRecord J)
  unfolding statement found_session find_session
  read_session parse fault id rows =
      statement fault (bytes "sqlite_read_failed") (bytes "Could not read runtime session")
      >> found_session parse (find_session id rows)

  unfoldable pub create_session :
      (J → Bytes)
      → (Bytes → J)
      → Engine
      → Bytes
      → Bytes
      → J
      → Bytes
      → List SessionRow
      → List SessionRow × Result (RuntimeSessionRecord J)
  unfolding statement insert_or_ignore read_session
  create_session dump parse engine id workspace_root initial_state now rows =
      elim (statement (engine.fault 0) (bytes "session_create_failed")
        (bytes "Could not create runtime session")) [
          | failure error ↦ (rows, failure error)
          | success done ↦
              let row : SessionRow = record {
                id = id;
                workspace_root = workspace_root;
                state_json = dump initial_state;
                state_version = 0;
                created_at = now;
                updated_at = now;
              } in
              let inserted = insert_or_ignore row (find_session id rows) rows in
              (inserted, read_session parse (engine.fault 1) id inserted)
        ]

  unfoldable pub get_session :
      (Bytes → J) → Engine → Bytes → List SessionRow → Result (RuntimeSessionRecord J)
  unfolding read_session
  get_session parse engine id rows = read_session parse (engine.fault 0) id rows

  unfoldable pub compare_and_swap_session :
      (J → Bytes)
      → (Bytes → J)
      → Engine
      → Bytes
      → ℕ
      → J
      → Bytes
      → List SessionRow
      → List SessionRow × Result (RuntimeSessionRecord J)
  unfolding statement swap_rows swap_changes read_session
  compare_and_swap_session dump parse engine id expected_version state now rows =
      elim (statement (engine.fault 0) (bytes "session_update_failed")
        (bytes "Could not update runtime session")) [
          | failure error ↦ (rows, failure error)
          | success done ↦
              let after = swap_rows id expected_version (dump state) now rows in
              (
                after,
                if swap_changes id expected_version rows == 0
                    then failure version_conflict
                    else read_session parse (engine.fault 1) id after,
              )
        ]
