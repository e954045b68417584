-- ===== src/Store/Events.antt =====
-- src/state/state_store.cpp, the table `run_events`: `append_event` and `events_after`. `J` stands
-- for the JSON values, `dump` for `dump_json` and `parse` for `parse_object_or_empty`.
pub mod Order
use runi.Prelude.{
  ℕ, zero, suc, ◌+◌, max, Bool, true, false, ◌&&◌, ◌||◌, not, List, [], ◌∷◌, ◌++◌, map, Bytes,
  bytes, eq_bytes, mem, ltb, leb, ◌==◌, if◌then◌else◌,
}
use runi.Error.{Error, Result, success, failure, ◌>>=◌, ◌>>◌}
use runi.Store.Engine.{Fault, Engine, statement, execute, column_text, sqlite_error}

-- A row of the table.
pub record EventRow : Type 0 where
  pub run_id : Bytes
  pub sequence : ℕ
  pub event_type : Bytes
  pub payload_json : Bytes
  pub created_at : Bytes

pub record RuntimeEvent (J : Type 0) : Type 0 where
  pub run_id : Bytes
  pub sequence : ℕ
  pub event_type : Bytes
  pub payload : J
  pub created_at : Bytes

-- `COALESCE(MAX(sequence), 0) ... WHERE run_id = ?`.
unfoldable pub last_sequence : Bytes → List EventRow → ℕ
last_sequence run_id [] = 0
last_sequence run_id (row ∷ rows) =
    let rest = last_sequence run_id rows in
    if eq_bytes row.run_id run_id then max row.sequence rest else rest

-- The primary key.
unfoldable pub has_event : Bytes → ℕ → List EventRow → Bool
has_event run_id sequence [] = false
has_event run_id sequence (row ∷ rows) =
    (eq_bytes row.run_id run_id && (row.sequence == sequence)) || has_event run_id sequence rows

-- The second statement of the transaction, and its commit; `run_ids` is the column `id` of the runs.
unfoldable pub insert_event :
    Engine → List Bytes → EventRow → List EventRow → Result (List EventRow)
unfolding statement execute sqlite_error has_event
insert_event engine run_ids row rows =
    statement (engine.fault 2) (bytes "event_append_failed")
      (bytes "Could not append runtime event")
    >> ((if mem row.run_id run_ids && not (has_event row.run_id row.sequence rows)
          then success tt
          else failure (
              sqlite_error (bytes "event_append_failed") (bytes "Could not append runtime event")
                engine.constraint))
        >> (execute (engine.fault 3) >> success (rows ++ row ∷ [])))

abbrev pub event_row : Bytes → ℕ → Bytes → Bytes → Bytes → EventRow
event_row run_id sequence event_type payload_json now = record {
  run_id = run_id;
  sequence = sequence;
  event_type = event_type;
  payload_json = payload_json;
  created_at = now;
}

module _ {J : Type 0} where
  unfoldable pub appended :
      List EventRow
      → EventRow
      → J
      → Result (List EventRow)
      → List EventRow × Result (RuntimeEvent J)
  appended rows row payload (failure error) = (rows, failure error)
  appended rows row payload (success inserted) = (
    inserted,
    success (record {
      run_id = row.run_id;
      sequence = row.sequence;
      event_type = row.event_type;
      payload = payload;
      created_at = row.created_at;
    }),
  )

  -- `append_event`, at the time `now`.
  unfoldable pub append_event :
      (J → Bytes)
      → Engine
      → List Bytes
      → Bytes
      → Bytes
      → J
      → Bytes
      → List EventRow
      → List EventRow × Result (RuntimeEvent J)
  unfolding last_sequence insert_event appended statement execute
  append_event dump engine run_ids run_id event_type payload now rows =
      let row = event_row run_id (last_sequence run_id rows + 1) event_type (dump payload) now in
      appended rows row payload (
        execute (engine.fault 0)
        >> (statement (engine.fault 1) (bytes "event_sequence_failed")
              (bytes "Could not allocate runtime event sequence")
            >> insert_event engine run_ids row rows))

  -- The columns of one row.
  abbrev pub read_event : (Bytes → J) → EventRow → RuntimeEvent J
  read_event parse row = record {
    run_id = column_text row.run_id;
    sequence = row.sequence;
    event_type = column_text row.event_type;
    payload = parse (column_text row.payload_json);
    created_at = column_text row.created_at;
  }

-- `WHERE run_id = ? AND sequence > ?`.
unfoldable pub events_of : Bytes → ℕ → List EventRow → List EventRow
events_of run_id sequence [] = []
events_of run_id sequence (row ∷ rows) =
    let rest = events_of run_id sequence rows in
    if eq_bytes row.run_id run_id && ltb sequence row.sequence then row ∷ rest else rest

-- `ORDER BY sequence ASC`.
unfoldable pub insert_in_order : EventRow → List EventRow → List EventRow
insert_in_order row [] = row ∷ []
insert_in_order row (first ∷ rows) =
    if leb row.sequence first.sequence then row ∷ first ∷ rows else first ∷ insert_in_order row rows

unfoldable pub in_order : List EventRow → List EventRow
unfolding insert_in_order
in_order [] = []
in_order (row ∷ rows) = insert_in_order row (in_order rows)

unfoldable pub events_after :
    {J : Type 0} → (Bytes → J) → Engine → Bytes → ℕ → List EventRow → Result (List (RuntimeEvent J))
unfolding statement in_order events_of
events_after parse engine run_id sequence rows =
    statement (engine.fault 0) (bytes "event_read_failed") (bytes "Could not read runtime events")
    >> success (map (read_event parse) (in_order (events_of run_id sequence rows)))
