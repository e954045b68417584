-- ===== src/Store/Sessions/History.antt =====
-- src/state/state_store.cpp: the table `sessions` under any calls of `create_session` and
-- `compare_and_swap_session`, one after the other, with any failures of the database.
use runi.Prelude.{
  ℕ, ◌+◌, ◌≤◌, ◌≡◌, refl, sym, ap, ◌∙◌, subst, false, some, List, [], ◌∷◌, Bytes, bytes, eq_bytes,
  eq_bytes_iff, arith, Bool-cases, Option-cases, inl, inr, ◌⊎◌, if◌then◌else◌,
}
use runi.Error.{Result, success, failure, Result-cases}
use runi.Store.Engine.{Engine, statement}
use runi.Store.Sessions.{
  SessionRow, find_session, at_version, swapped, swap_rows, swap_changes, insert_or_ignore,
  create_session, compare_and_swap_session,
}
use runi.Store.Sessions.Rows.{
  Unique, find_session-swap, swap-Unique, swap_changes-other, find_session-append, append-Unique,
}

-- A later row of the same session, after `n` updates: each stores a state and a time, and counts the
-- version up by one; the other columns stay.
pub data Versioned : SessionRow → ℕ → SessionRow → Type 0 where
  unchanged : (row : SessionRow) → Versioned row 0 row
  updated :
      (row later : SessionRow) (n : ℕ) (state_json now : Bytes)
      → Versioned
          (record row {
            state_json = state_json;
            state_version = row.state_version + 1;
            updated_at = now;
          })
          n
          later
      → Versioned row (1 + n) later

-- Whether a call gives a result.
abbrev pub given : {A : Type 0} → Result A → ℕ
given (success _) = 1
given (failure _) = 0

pub data Call (J : Type 0) : Type 0 where
  creates : Engine → Bytes → Bytes → J → Bytes → Call J
  swaps : Engine → Bytes → ℕ → J → Bytes → Call J

given_most : {A : Type 0} (r : Result A) → given r ≤ 1
given_most (success a) = omega arith
given_most (failure e) = omega arith

module _ {J : Type 0} (dump : J → Bytes) (parse : Bytes → J) where
  -- The table after a call.
  unfoldable pub call : Call J → List SessionRow → List SessionRow
  unfolding create_session compare_and_swap_session
  call (creates engine id root state now) rows =
      (create_session dump parse engine id root state now rows).0
  call (swaps engine id v state now) rows =
      (compare_and_swap_session dump parse engine id v state now rows).0

  unfoldable pub calls : List (Call J) → List SessionRow → List SessionRow
  unfolding call
  calls [] rows = rows
  calls (c ∷ cs) rows = calls cs (call c rows)

  -- 1 for a call of `compare_and_swap_session` for the session that succeeds.
  unfoldable pub won : Bytes → Call J → List SessionRow → ℕ
  unfolding compare_and_swap_session
  won id (creates engine other root state now) rows = 0
  won id (swaps engine other v state now) rows =
      if eq_bytes other id
      then given (compare_and_swap_session dump parse engine other v state now rows).1
      else 0

  unfoldable pub wins : Bytes → List (Call J) → List SessionRow → ℕ
  unfolding won call
  wins id [] rows = 0
  wins id (c ∷ cs) rows = won id c rows + wins id cs (call c rows)

  insert-Unique :
      (added : SessionRow) (rows : List SessionRow)
      → Unique rows
      → Unique (insert_or_ignore added (find_session added.id rows) rows)
  unfolding insert_or_ignore
  insert-Unique added rows u = elim (Option-cases (find_session added.id rows)) [
    | inl e ↦ rw e (append-Unique rows added u e)
    | inr (existing, e) ↦ rw e u
  ]

  -- `create_session` leaves the table, or inserts a row where its id is new.
  creates-cases :
      (engine : Engine) (id root : Bytes) (state : J) (now : Bytes) (rows : List SessionRow)
      → (call (creates engine id root state now) rows ≡ rows)
        ⊎ ((added : SessionRow) × (call (creates engine id root state now) rows
              ≡ insert_or_ignore added (find_session added.id rows) rows))
  unfolding call create_session
  creates-cases engine id root state now rows =
      elim (Result-cases (
        statement (engine.fault 0) (bytes "session_create_failed")
          (bytes "Could not create runtime session"))) [
            | inr (e, f) ↦ inl (rw (f, call, create_session) refl)
            | inl (a, f) ↦ inr (
              record {
                id = id;
                workspace_root = root;
                state_json = dump state;
                state_version = 0;
                created_at = now;
                updated_at = now;
              },
              rw (f, call, create_session) refl,
            )
          ]

  -- `compare_and_swap_session` leaves the table and fails, or updates it; it fails as well when the
  -- update changes no row.
  swaps-cases :
      (engine : Engine) (id : Bytes) (v : ℕ) (state : J) (now : Bytes) (rows : List SessionRow)
      → ((call (swaps engine id v state now) rows ≡ rows)
          × (given (compare_and_swap_session dump parse engine id v state now rows).1 ≡ 0))
        ⊎ ((call (swaps engine id v state now) rows ≡ swap_rows id v (dump state) now rows)
            × (swap_changes id v rows ≡ 0
                → given (compare_and_swap_session dump parse engine id v state now rows).1 ≡ 0))
  unfolding call compare_and_swap_session
  swaps-cases engine id v state now rows =
      elim (Result-cases (
        statement (engine.fault 0) (bytes "session_update_failed")
          (bytes "Could not update runtime session"))) [
            | inr (e, f) ↦
                inl (
                  rw (f, call, compare_and_swap_session) refl,
                  rw (f, compare_and_swap_session) refl,
                )
            | inl (a, f) ↦ inr (
              rw (f, call, compare_and_swap_session) refl,
              λ n. rw (f, compare_and_swap_session) (rw n refl),
            )
          ]

  call-Unique : (c : Call J) (rows : List SessionRow) → Unique rows → Unique (call c rows)
  call-Unique (creates engine id root state now) rows u =
      elim (creates-cases engine id root state now rows) [
        | inl e ↦ subst Unique (sym e) u
        | inr (added, e) ↦ subst Unique (sym e) (insert-Unique added rows u)
      ]
  call-Unique (swaps engine id v state now) rows u = elim (swaps-cases engine id v state now rows) [
    | inl (e, _) ↦ subst Unique (sym e) u
    | inr (e, _) ↦ subst Unique (sym e) (swap-Unique id v (dump state) now rows u)
  ]

  find_session-insert :
      (id : Bytes) (added : SessionRow) (rows : List SessionRow) (row : SessionRow)
      → find_session id rows ≡ some row
      → find_session id (insert_or_ignore added (find_session added.id rows) rows) ≡ some row
  unfolding insert_or_ignore
  find_session-insert id added rows row h = elim (Option-cases (find_session added.id rows)) [
    | inl e ↦ rw e (find_session-append id rows added row h)
    | inr (existing, e) ↦ rw e h
  ]

  -- What a call makes of the row of a session, and whether it won.
  abbrev Step : Bytes → Call J → List SessionRow → SessionRow → Type 0
  Step id c rows row =
      ((find_session id (call c rows) ≡ some row) × (won id c rows ≡ 0))
      ⊎ ((json : Bytes) × (now : Bytes) × (find_session id (call c rows)
            ≡ some (swapped json now row)))

  won_most : (id : Bytes) (c : Call J) (rows : List SessionRow) → won id c rows ≤ 1
  unfolding won
  won_most id (creates engine other root state now) rows = omega arith
  won_most id (swaps engine other v state now) rows =
      ground
        (arith, given_most (compare_and_swap_session dump parse engine other v state now rows).1)

  -- A call that does not find the session at its version does not win.
  swap_missed :
      (id other : Bytes) (engine : Engine) (v : ℕ) (state : J) (now : Bytes)
      (rows : List SessionRow) (row : SessionRow)
      → Unique rows
      → find_session id rows ≡ some row
      → at_version other v row ≡ false
      → (swap_changes other v rows ≡ 0
          → given (compare_and_swap_session dump parse engine other v state now rows).1 ≡ 0)
      → won id (swaps engine other v state now) rows ≡ 0
  unfolding won
  swap_missed id other engine v state now rows row u h n fails =
      elim (Bool-cases (eq_bytes other id)) [
        | inr m ↦ rw m refl
        | inl y ↦ rw y (
            fails (
              swap_changes-other other v rows row u
                (subst (λ i. find_session i rows ≡ some row) (sym ((eq_bytes_iff other id).0 y)) h)
                n))
      ]

  call-Step :
      (id : Bytes) (c : Call J) (rows : List SessionRow) (row : SessionRow)
      → Unique rows
      → find_session id rows ≡ some row
      → Step id c rows row
  unfolding won
  call-Step id (creates engine other root state now) rows row u h =
      elim (creates-cases engine other root state now rows) [
        | inl e ↦ inl (ap (find_session id) e ∙ h, refl)
        | inr (added, e) ↦
            inl (ap (find_session id) e ∙ find_session-insert id added rows row h, refl)
      ]
  call-Step id (swaps engine other v state now) rows row u h =
      elim (swaps-cases engine other v state now rows) [
        | inl (e, none_given) ↦ inl (ap (find_session id) e ∙ h, ground arith)
        | inr (e, fails) ↦
            let next = find_session-swap id other v (dump state) now rows row h in
            elim (Bool-cases (at_version other v row)) [
              | inl y ↦ inr (dump state, now, ap (find_session id) e ∙ (next ∙ rw y refl))
              | inr n ↦ inl (
                ap (find_session id) e ∙ (next ∙ rw n refl),
                swap_missed id other engine v state now rows row u h n fails,
              )
            ]
      ]

  -- Whatever calls of `create_session` and `compare_and_swap_session` follow, for this session and
  -- others, with any failures of the database: in a table whose ids are unique, a session stays.
  -- Its id, root and time of creation never change, each change of its state counts its version up
  -- by one, and there are at least as many such changes as calls of `compare_and_swap_session` for
  -- it that succeed.
  pub calls-Versioned :
      (id : Bytes) (cs : List (Call J)) (rows : List SessionRow) (row : SessionRow)
      → Unique rows
      → find_session id rows ≡ some row
      → (later : SessionRow) × (n : ℕ) × (find_session id (calls cs rows) ≡ some later)
        × Versioned row n later
        × (wins id cs rows ≤ n)
  unfolding calls wins
  calls-Versioned id [] rows row u h = (row, 0, h, unchanged row, omega arith)
  calls-Versioned id (c ∷ cs) rows row u h = elim (call-Step id c rows row u h) [
    | inl (stays, lost) ↦
        let (later, n, there, versioned, most) =
          calls-Versioned id cs (call c rows) row (call-Unique c rows u) stays in
        (later, n, there, versioned, omega (arith, lost, most))
    | inr (json, now, moves) ↦
        let (later, n, there, versioned, most) =
          calls-Versioned id cs (call c rows) (swapped json now row) (call-Unique c rows u) moves in
        (
          later,
          1 + n,
          there,
          updated row later n json now versioned,
          omega (arith, won_most id c rows, most),
        )
  ]
