-- ===== src/Store/Sessions/Versions.antt =====
-- src/state/state_store.cpp: the version of a session under `compare_and_swap_session`.
use runi.Prelude.{
  ℕ, suc, ◌+◌, ◌≡◌, refl, ap, ◌∙◌, true, false, some, List, [], ◌∷◌, Bytes, eq_bytes, arith,
  Bool-cases, inl, inr, ◌==◌,
}
use runi.Error.{success, failure}
use runi.Store.Engine.{works, Engine, statement, column_text}
use runi.Store.Sessions.{
  SessionRow, find_session, at_version, swapped, swap_rows, swap_changes, version_conflict,
  session_of, found_session, read_session, compare_and_swap_session,
}

find_session-swap_rows :
    (id : Bytes) (v : ℕ) (json now : Bytes) (rows : List SessionRow) (row : SessionRow)
    → find_session id rows ≡ some row
    → row.state_version ≡ v
    → (find_session id (swap_rows id v json now rows) ≡ some (swapped json now row))
      × ((swap_changes id v rows == 0) ≡ false)
unfolding find_session swap_rows swap_changes
find_session-swap_rows id v json now [] row h e = absurd (cc)
find_session-swap_rows id v json now (r ∷ rows) row h e = elim (Bool-cases (eq_bytes r.id id)) [
  | inl y ↦
      let here : some r ≡ some row = rw y at h in
      let same : r ≡ row = cc in
      let version : (r.state_version == v) ≡ true =
        ground (arith, e, ap (λ x. x.state_version) same) in
      (rw (y, version) (rw y (ap (λ x. some (swapped json now x)) same)), ground arith)
  | inr n ↦
      let rest = find_session-swap_rows id v json now rows row (rw n at h) e in
      (rw n (rw n rest.0), ground (arith, rest.1))
]

-- No row is left at a version that was swapped out.
none_left :
    (id : Bytes) (v : ℕ) (json now : Bytes) (rows : List SessionRow)
    → swap_changes id v (swap_rows id v json now rows) ≡ 0
unfolding swap_rows swap_changes
none_left id v json now [] = refl
none_left id v json now (r ∷ rows) = elim (Bool-cases (at_version id v r)) [
  | inl y ↦ rw (y, none_left id v json now rows) (ground arith)
  | inr n ↦ rw (n, none_left id v json now rows) (ground (arith, n))
]

no_changes :
    (id : Bytes) (v : ℕ) (json now : Bytes) (rows : List SessionRow)
    → swap_changes id v rows ≡ 0
    → swap_rows id v json now rows ≡ rows
unfolding swap_rows swap_changes
no_changes id v json now [] h = refl
no_changes id v json now (r ∷ rows) h = elim (Bool-cases (at_version id v r)) [
  | inl y ↦ absurd (ground arith)
  | inr n ↦ rw n (ap (◌∷◌ r) (no_changes id v json now rows (ground arith)))
]

module _ {J : Type 0} (dump : J → Bytes) (parse : Bytes → J) where
  -- A session at the expected version is swapped: its state is replaced and its version one more.
  swaps :
      (engine : Engine) (id : Bytes) (v : ℕ) (state : J) (now : Bytes) (rows : List SessionRow)
      (row : SessionRow)
      → engine.fault 0 ≡ works
      → engine.fault 1 ≡ works
      → find_session id rows ≡ some row
      → row.state_version ≡ v
      → compare_and_swap_session dump parse engine id v state now rows ≡ (
        swap_rows id v (dump state) now rows,
        success (session_of parse (swapped (dump state) now row)),
      )
  unfolding compare_and_swap_session read_session statement found_session
  swaps engine id v state now rows row w0 w1 there e =
      let found = find_session-swap_rows id v (dump state) now rows row there e in
      rw (w0, found.1, w1, found.0, compare_and_swap_session, read_session) refl

  conflicts :
      (engine : Engine) (id : Bytes) (v : ℕ) (state : J) (now : Bytes) (rows : List SessionRow)
      → engine.fault 0 ≡ works
      → swap_changes id v rows ≡ 0
      → compare_and_swap_session dump parse engine id v state now rows
        ≡ (rows, failure version_conflict)
  unfolding compare_and_swap_session statement
  conflicts engine id v state now rows w n =
      rw (w, n, no_changes id v (dump state) now rows n, compare_and_swap_session) refl

  -- Of two calls of `compare_and_swap_session` that expect the version of a session, one after the
  -- other on a table that can be read and written, the first stores its state under the next
  -- version and returns it; the second, whatever its state, changes nothing and fails with
  -- `session_version_conflict`.
  pub compare_and_swap_once :
      (engine again : Engine) (id : Bytes) (v : ℕ) (state other : J) (now now' : Bytes)
      (rows : List SessionRow) (row : SessionRow)
      → engine.fault 0 ≡ works
      → engine.fault 1 ≡ works
      → again.fault 0 ≡ works
      → find_session id rows ≡ some row
      → row.state_version ≡ v
      → ((compare_and_swap_session dump parse engine id v state now rows).1
          ≡ success (record (session_of parse row) {
            state = parse (column_text (dump state));
            state_version = suc v;
            updated_at = column_text now;
          }))
        × (compare_and_swap_session dump parse again id v other now'
              (compare_and_swap_session dump parse engine id v state now rows).0
            ≡ (
              (compare_and_swap_session dump parse engine id v state now rows).0,
              failure version_conflict,
            ))
  compare_and_swap_once engine again id v state other now now' rows row w0 w1 w there e = (
    ap (λ r. r.1) first
        ∙ ap
            (λ n. success (record (session_of parse row) {
              state = parse (column_text (dump state));
              state_version = n;
              updated_at = column_text now;
            }))
            next,
    conflicts again id v other now'
        (compare_and_swap_session dump parse engine id v state now rows).0 w
        (ap (λ r. swap_changes id v r.0) first ∙ none_left id v (dump state) now rows),
  )
    where
      first : compare_and_swap_session dump parse engine id v state now rows ≡ (
        swap_rows id v (dump state) now rows,
        success (session_of parse (swapped (dump state) now row)),
      )
      first = swaps engine id v state now rows row w0 w1 there e

      next : row.state_version + 1 ≡ suc v
      next = omega (arith, e)
