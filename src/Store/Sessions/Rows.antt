-- ===== src/Store/Sessions/Rows.antt =====
-- What the SQL statements of src/state/state_store.cpp do to the rows of `sessions`.
use runi.Prelude.{
  ℕ, ◌≡◌, refl, ap, ◌∙◌, subst, false, none, some, List, [], ◌∷◌, ◌++◌, Bytes, eq_bytes,
  eq_bytes_iff, arith, Bool-cases, inl, inr, if◌then◌else◌,
}
use runi.Store.Sessions.{SessionRow, find_session, at_version, swapped, swap_rows, swap_changes}

-- No two rows have the same id.
abbrev pub Unique : List SessionRow → Type 0
Unique [] = Unit {0}
Unique (row ∷ rows) = (find_session row.id rows ≡ none) × Unique rows

pub find_session-swap :
    (id other : Bytes) (v : ℕ) (json now : Bytes) (rows : List SessionRow) (row : SessionRow)
    → find_session id rows ≡ some row
    → find_session id (swap_rows other v json now rows)
      ≡ some (if at_version other v row then swapped json now row else row)
unfolding find_session swap_rows
find_session-swap id other v json now [] row h = absurd (cc)
find_session-swap id other v json now (r ∷ rows) row h = elim (Bool-cases (eq_bytes r.id id)) [
  | inl y ↦
      let here : some r ≡ some row = rw y at h in
      let same : r ≡ row = cc in
      subst
        (λ x.
          (if eq_bytes (if at_version other v r then swapped json now r else r).id id
            then some (if at_version other v r then swapped json now r else r)
            else find_session id (swap_rows other v json now rows))
          ≡ some (if at_version other v x then swapped json now x else x))
        same (ground (arith, y))
  | inr n ↦ ground (arith, n, find_session-swap id other v json now rows row (rw n at h))
]

pub find_session-swap_none :
    (id other : Bytes) (v : ℕ) (json now : Bytes) (rows : List SessionRow)
    → find_session id rows ≡ none
    → find_session id (swap_rows other v json now rows) ≡ none
unfolding find_session swap_rows
find_session-swap_none id other v json now [] h = refl
find_session-swap_none id other v json now (r ∷ rows) h = elim (Bool-cases (eq_bytes r.id id)) [
  | inl y ↦ absurd (cc (rw y at h))
  | inr n ↦ ground (arith, n, find_session-swap_none id other v json now rows (rw n at h))
]

pub swap-Unique :
    (other : Bytes) (v : ℕ) (json now : Bytes) (rows : List SessionRow)
    → Unique rows
    → Unique (swap_rows other v json now rows)
unfolding swap_rows
swap-Unique other v json now [] u = u
swap-Unique other v json now (r ∷ rows) u = (
  subst (λ i. find_session i (swap_rows other v json now rows) ≡ none) (ground arith)
      (find_session-swap_none r.id other v json now rows u.0),
  swap-Unique other v json now rows u.1,
)

pub swap_changes-absent :
    (id : Bytes) (v : ℕ) (rows : List SessionRow)
    → find_session id rows ≡ none
    → swap_changes id v rows ≡ 0
unfolding find_session swap_changes
swap_changes-absent id v [] h = refl
swap_changes-absent id v (r ∷ rows) h = elim (Bool-cases (eq_bytes r.id id)) [
  | inl y ↦ absurd (cc (rw y at h))
  | inr n ↦ ground (arith, n, swap_changes-absent id v rows (rw n at h))
]

-- With unique ids, an update that does not find its session at the version changes no row.
pub swap_changes-other :
    (id : Bytes) (v : ℕ) (rows : List SessionRow) (row : SessionRow)
    → Unique rows
    → find_session id rows ≡ some row
    → at_version id v row ≡ false
    → swap_changes id v rows ≡ 0
unfolding find_session swap_changes
swap_changes-other id v [] row u h n = refl
swap_changes-other id v (r ∷ rows) row u h n = elim (Bool-cases (eq_bytes r.id id)) [
  | inl y ↦
      let here : some r ≡ some row = rw y at h in
      let same : r ≡ row = cc in
      let stays : at_version id v r ≡ false = ap (at_version id v) same ∙ n in
      rw stays (
        omega (
          arith,
          swap_changes-absent id v rows
              (subst (λ i. find_session i rows ≡ none) ((eq_bytes_iff r.id id).0 y) u.0),
        ))
  | inr m ↦ ground (arith, m, swap_changes-other id v rows row u.1 (rw m at h) n)
]

pub find_session-append :
    (id : Bytes) (rows : List SessionRow) (added row : SessionRow)
    → find_session id rows ≡ some row
    → find_session id (rows ++ added ∷ []) ≡ some row
unfolding find_session
find_session-append id [] added row h = absurd (cc)
find_session-append id (r ∷ rows) added row h = elim (Bool-cases (eq_bytes r.id id)) [
  | inl y ↦ rw y (rw y at h)
  | inr n ↦ rw n (find_session-append id rows added row (rw n at h))
]

pub find_session-append_none :
    (id : Bytes) (rows : List SessionRow) (added : SessionRow)
    → find_session id rows ≡ none
    → eq_bytes added.id id ≡ false
    → find_session id (rows ++ added ∷ []) ≡ none
unfolding find_session
find_session-append_none id [] added h n = rw n refl
find_session-append_none id (r ∷ rows) added h n = elim (Bool-cases (eq_bytes r.id id)) [
  | inl y ↦ absurd (cc (rw y at h))
  | inr m ↦ rw m (find_session-append_none id rows added (rw m at h) n)
]

pub append-Unique :
    (rows : List SessionRow) (added : SessionRow)
    → Unique rows
    → find_session added.id rows ≡ none
    → Unique (rows ++ added ∷ [])
unfolding find_session
append-Unique [] added u h = (refl, tt)
append-Unique (r ∷ rows) added u h = elim (Bool-cases (eq_bytes r.id added.id)) [
  | inl y ↦ absurd (cc (rw y at h))
  | inr n ↦ (
    find_session-append_none r.id rows added u.0
        (ground (arith, n, eq_bytes_iff r.id added.id, eq_bytes_iff added.id r.id)),
    append-Unique rows added u.1 (rw n at h),
  )
]
