-- ===== src/Cache/Recency.antt =====
-- src/state/context_cache.cpp, `lru_`: taking a key out of the list of recency, and taking the
-- last.
use runi.Prelude.{
  suc, ◌<◌, ◌≡◌, refl, ap, ◌∙◌, true, false, ◌&&◌, not, none, some, List, [], ◌∷◌, Bytes, eq_bytes,
  eq_bytes_iff, length, arith, mem, Distinct, Bool-cases, Option-cases, inl, inr,
}
use runi.Cache.{drop_key, split_last}

pub mem-drop_key :
    (k j : Bytes) (xs : List Bytes)
    → Distinct xs
    → mem j (drop_key k xs) ≡ (not (eq_bytes k j) && mem j xs)
unfolding mem drop_key
mem-drop_key k j [] d = ground arith
mem-drop_key k j (x ∷ xs) d = elim (Bool-cases (eq_bytes k j)) [
  | inl same ↦ ground (
    arith,
    same,
    eq_bytes_iff k j,
    eq_bytes_iff x k,
    eq_bytes_iff x j,
    mem-drop_key k j xs d.1,
    ap (λ s. mem s xs) ((eq_bytes_iff k j).0 same),
  )
  | inr other ↦
      ground (arith, eq_bytes_iff k j, eq_bytes_iff x k, eq_bytes_iff x j, mem-drop_key k j xs d.1)
]

pub length-drop_key :
    (k : Bytes) (xs : List Bytes) → mem k xs ≡ true → suc (length (drop_key k xs)) ≡ length xs
unfolding mem drop_key
length-drop_key k [] h = ground arith
length-drop_key k (x ∷ xs) h = ground (arith, length-drop_key k xs)

pub drop_key-Distinct : (k : Bytes) (xs : List Bytes) → Distinct xs → Distinct (drop_key k xs)
unfolding mem drop_key
drop_key-Distinct k [] d = tt
drop_key-Distinct k (x ∷ xs) d = elim (Bool-cases (eq_bytes x k)) [
  | inl same ↦ rw same d.1
  | inr other ↦ rw other (mem-drop_key k x xs d.1 ∙ ground (arith, d.0), drop_key-Distinct k xs d.1)
]

pub split_last-none : (xs : List Bytes) → split_last xs ≡ none → length xs ≡ 0
unfolding split_last
split_last-none [] h = refl
split_last-none (x ∷ xs) h = ground arith

-- The last key is in the list, and the front is the list without it.
pub split_last-drop_key :
    (xs front : List Bytes) (last : Bytes)
    → split_last xs ≡ some (front, last)
    → Distinct xs
    → (front ≡ drop_key last xs) × (mem last xs ≡ true)
unfolding mem drop_key split_last
split_last-drop_key [] front last h d = absurd (cc)
split_last-drop_key (x ∷ []) front last h d = ground (arith, eq_bytes_iff x last)
split_last-drop_key (x ∷ y ∷ ys) front last h d = elim (Option-cases (split_last (y ∷ ys))) [
  | inl only ↦ absurd (omega (arith, split_last-none (y ∷ ys) only))
  | inr ((front', last'), more) ↦
      let ih = split_last-drop_key (y ∷ ys) front' last' more d.1 in
      let same : last' ≡ last = ground arith in
      let apart : eq_bytes x last ≡ false =
        ground (arith, eq_bytes_iff x last, same, ih.1, d.0, ap (λ s. mem s (y ∷ ys)) same) in
      let all : front ≡ x ∷ front' = ground arith in
      (rw apart (all ∙ ap (◌∷◌ x) (ih.0 ∙ ap (λ l. drop_key l (y ∷ ys)) same)), ground arith)
]

-- The key at the front of two or more is not the last.
pub split_last_front :
    (key : Bytes) (rest front : List Bytes) (last : Bytes)
    → split_last (key ∷ rest) ≡ some (front, last)
    → Distinct (key ∷ rest)
    → 0 < length rest
    → (eq_bytes last key ≡ false) × ((rest' : List Bytes) × (front ≡ key ∷ rest'))
unfolding mem split_last
split_last_front key [] front last h d p = absurd (omega arith)
split_last_front key (y ∷ ys) front last h d p = elim (Option-cases (split_last (y ∷ ys))) [
  | inl only ↦ absurd (omega (arith, split_last-none (y ∷ ys) only))
  | inr ((front', last'), more) ↦
      let s = split_last-drop_key (y ∷ ys) front' last' more d.1 in
      let same : last' ≡ last = ground arith in
      (
        ground (arith, eq_bytes_iff last key, same, s.1, d.0, ap (λ k. mem k (y ∷ ys)) same),
        (front', ground arith),
      )
]
