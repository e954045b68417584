-- ===== src/Store/Runs/Rows.antt =====
-- What the SQL statements of src/state/state_store.cpp do to the row that a query finds.
use runi.Prelude.{
  ◌≡◌, refl, ap, Bool, true, false, ◌||◌, Option, none, some, List, [], ◌∷◌, ◌++◌, if◌then◌else◌,
  arith, Bool-cases, inl, inr,
}
use runi.Store.Runs.{RunRow, first_row, any_row, update_rows, changes}

abbrev pub changed : (RunRow → Bool) → (RunRow → RunRow) → RunRow → RunRow
changed holds change row = if holds row then change row else row

module _ (sel holds : RunRow → Bool) (change : RunRow → RunRow)
    (keeps : (row : RunRow) → sel (changed holds change row) ≡ sel row) where
  pub first_row-update :
      (rows : List RunRow) (row : RunRow)
      → first_row sel rows ≡ some row
      → first_row sel (update_rows holds change rows) ≡ some (changed holds change row)
  unfolding first_row update_rows
  first_row-update [] row h = absurd (cc)
  first_row-update (r ∷ rows) row h = elim (Bool-cases (sel r)) [
    | inl e ↦ let q : some r ≡ some row = rw e at h in rw (keeps r, e) (ap (λ o. some_changed o) q)
    | inr e ↦ rw (keeps r, e) (first_row-update rows row (rw e at h))
  ]
    where
      some_changed : Option RunRow → Option RunRow
      some_changed none = none
      some_changed (some x) = some (changed holds change x)

  pub any_row-update :
      (rows : List RunRow) → any_row sel (update_rows holds change rows) ≡ any_row sel rows
  unfolding any_row update_rows
  any_row-update [] = refl
  any_row-update (r ∷ rows) = rw (keeps r, any_row-update rows) refl

pub first_row-append :
    (sel : RunRow → Bool) (rows more : List RunRow) (row : RunRow)
    → first_row sel rows ≡ some row
    → first_row sel (rows ++ more) ≡ some row
unfolding first_row
first_row-append sel [] more row h = absurd (cc)
first_row-append sel (r ∷ rows) more row h = elim (Bool-cases (sel r)) [
  | inl e ↦ rw e (rw e at h)
  | inr e ↦ rw e (first_row-append sel rows more row (rw e at h))
]

pub first_row-last :
    (sel : RunRow → Bool) (rows : List RunRow) (row : RunRow)
    → any_row sel rows ≡ false
    → sel row ≡ true
    → first_row sel (rows ++ row ∷ []) ≡ some row
unfolding first_row any_row
first_row-last sel [] row n h = rw h refl
first_row-last sel (r ∷ rows) row n h = elim (Bool-cases (sel r)) [
  | inl e ↦ absurd (ground arith)
  | inr e ↦ rw e (first_row-last sel rows row (rw e at n) h)
]

pub any_row-append :
    (sel : RunRow → Bool) (rows more : List RunRow)
    → any_row sel (rows ++ more) ≡ any_row sel rows || any_row sel more
unfolding any_row
any_row-append sel [] more = refl
any_row-append sel (r ∷ rows) more = ground (arith, any_row-append sel rows more)

-- A row that a query finds is one that its condition holds of.
pub first_row_holds :
    (sel : RunRow → Bool) (rows : List RunRow) (row : RunRow)
    → first_row sel rows ≡ some row
    → sel row ≡ true
unfolding first_row
first_row_holds sel [] row h = absurd (cc)
first_row_holds sel (r ∷ rows) row h = elim (Bool-cases (sel r)) [
  | inl e ↦ let q : some r ≡ some row = rw e at h in cc
  | inr e ↦ first_row_holds sel rows row (rw e at h)
]

pub first_row-none :
    (sel : RunRow → Bool) (rows : List RunRow)
    → any_row sel rows ≡ false
    → first_row sel rows ≡ none
unfolding first_row any_row
first_row-none sel [] n = refl
first_row-none sel (r ∷ rows) n = elim (Bool-cases (sel r)) [
  | inl e ↦ absurd (ground arith)
  | inr e ↦ rw e (first_row-none sel rows (rw e at n))
]

-- No row is changed when the condition holds of none.
pub update_none :
    (holds : RunRow → Bool) (change : RunRow → RunRow) (rows : List RunRow)
    → any_row holds rows ≡ false
    → update_rows holds change rows ≡ rows
unfolding update_rows any_row
update_none holds change [] n = refl
update_none holds change (r ∷ rows) n = elim (Bool-cases (holds r)) [
  | inl e ↦ absurd (ground arith)
  | inr e ↦ rw e (ap (◌∷◌ r) (update_none holds change rows (rw e at n)))
]

pub changes_none :
    (holds : RunRow → Bool) (rows : List RunRow)
    → any_row holds rows ≡ false
    → changes holds rows ≡ 0
unfolding changes any_row
changes_none holds [] n = refl
changes_none holds (r ∷ rows) n = ground (arith, changes_none holds rows)

pub first_row_any :
    (sel : RunRow → Bool) (rows : List RunRow) (row : RunRow)
    → first_row sel rows ≡ some row
    → any_row sel rows ≡ true
unfolding first_row any_row
first_row_any sel [] row h = absurd (cc)
first_row_any sel (r ∷ rows) row h = elim (Bool-cases (sel r)) [
  | inl e ↦ rw e refl
  | inr e ↦ rw e (first_row_any sel rows row (rw e at h))
]
