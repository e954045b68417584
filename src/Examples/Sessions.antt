-- ===== src/Examples/Sessions.antt =====
-- A session whose state is a text, read at version 3 by two writers.
use runi.Prelude.{ℕ, ◌≤◌, ◌≡◌, refl, some, List, [], ◌∷◌, Bytes, bytes, eq_bytes}
use runi.Error.{Result, success, failure}
use runi.Store.Engine.{working, column_text}
use runi.Store.Sessions.{
  SessionRow, RuntimeSessionRecord, find_session, session_of, create_session, get_session,
  compare_and_swap_session, version_conflict,
}
use runi.Store.Sessions.Versions.{compare_and_swap_once}
use runi.Store.Sessions.Rows.{Unique}
use runi.Store.Sessions.History.{
  Call, creates, swaps, call, calls, won, wins, Versioned, calls-Versioned,
}

abbrev text : Bytes → Bytes
text state = state

abbrev row : SessionRow
row = record {
  id = bytes "s";
  workspace_root = bytes "/w";
  state_json = bytes "old";
  state_version = 3;
  created_at = bytes "t0";
  updated_at = bytes "t0";
}

there : find_session (bytes "s") (row ∷ []) ≡ some row
unfolding find_session eq_bytes bytes
there = refl

abbrev first : List SessionRow × Result (RuntimeSessionRecord Bytes)
first =
    compare_and_swap_session text text working (bytes "s") 3 (bytes "new") (bytes "t1") (row ∷ [])

-- The session after the first write.
written :
    get_session text working (bytes "s") first.0
    ≡ success (record (session_of text row) {
      state = bytes "new";
      state_version = 4;
      updated_at = bytes "t1";
    })
unfolding get_session compare_and_swap_session bytes eq_bytes column_text
written = refl

compare_and_swap_once_example :
    (first.1
      ≡ success (record (session_of text row) {
        state = text (column_text (text (bytes "new")));
        state_version = 4;
        updated_at = column_text (bytes "t1");
      }))
    × (compare_and_swap_session text text working (bytes "s") 3 (bytes "other") (bytes "t2") first.0
        ≡ (first.0, failure version_conflict))
compare_and_swap_once_example =
    compare_and_swap_once text text working working (bytes "s") 3 (bytes "new") (bytes "other")
      (bytes "t1") (bytes "t2") (row ∷ []) row refl refl refl there refl

-- The second update expects a version that the first has left; the last one finds no session.
abbrev some_calls : List (Call Bytes)
some_calls =
    swaps working (bytes "s") 3 (bytes "new") (bytes "t1")
    ∷ swaps working (bytes "s") 3 (bytes "late") (bytes "t2")
    ∷ creates working (bytes "s") (bytes "/other") (bytes "empty") (bytes "t3")
    ∷ swaps working (bytes "u") 0 (bytes "other") (bytes "t4")
    ∷ []

row-Unique : Unique (row ∷ [])
unfolding find_session
row-Unique = (refl, tt)

calls-Versioned_example :
    (later : SessionRow) × (n : ℕ) × (find_session
        (bytes "s")
        (calls text text some_calls (row ∷ []))
      ≡ some later)
    × Versioned row n later
    × (wins text text (bytes "s") some_calls (row ∷ []) ≤ n)
calls-Versioned_example =
    calls-Versioned text text (bytes "s") some_calls (row ∷ []) row row-Unique there

one_won : wins text text (bytes "s") some_calls (row ∷ []) ≡ 1
unfolding wins won call compare_and_swap_session create_session bytes eq_bytes
one_won = refl
