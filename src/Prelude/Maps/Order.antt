-- ===== src/Prelude/Maps/Order.antt =====
-- The order of the keys of a map under its operations.
use mathlib.Core.Path.{◌≡◌, refl, ap, subst}
use mathlib.Core.Bool.{true, false, ◌||◌, ◌&&◌, not}
use mathlib.Core.Option.{Option, none, some}
use mathlib.Core.List.{[], ◌∷◌}
use mathlib.Core.Logic.{inl, inr}
use native.Mathlib.Omega.{arith}
use runi.Prelude.Tests.{if◌then◌else◌, Bool-cases}
use runi.Prelude.Strings.{Bytes, eq_bytes, less, eq_bytes_iff, less_irrefl, less_trans, less_total}
use runi.Prelude.Maps.{Map, find, insert, erase, contains, find-insert, find-erase}
use runi.Prelude.Lists.{length}
use Prim.Native.Nat.{suc}

pub less→ne : (b k : Bytes) → less b k ≡ true → eq_bytes k b ≡ false
less→ne b k h = ground (arith, eq_bytes_iff k b, less_irrefl b)

module _ {ℓ} {V : Type ℓ} where
  -- Every key comes after `b`.
  abbrev pub AllAbove : Bytes → Map V → Type 0
  AllAbove b [] = Unit {0}
  AllAbove b ((k, v) ∷ m) = (less b k ≡ true) × AllAbove b m

  abbrev pub IsSorted : Map V → Type 0
  IsSorted [] = Unit {0}
  IsSorted ((k, v) ∷ m) = AllAbove k m × IsSorted m

  AllAbove-mono : (a b : Bytes) (m : Map V) → less a b ≡ true → AllAbove b m → AllAbove a m
  AllAbove-mono a b [] h s = tt
  AllAbove-mono a b ((k, v) ∷ m) h s = (less_trans a b k h s.0, AllAbove-mono a b m h s.1)

  pub find_above : (b : Bytes) (m : Map V) → AllAbove b m → find b m ≡ none
  unfolding find
  find_above b [] s = refl
  find_above b ((k, v) ∷ m) s = rw (less→ne b k s.0) (find_above b m s.1)

  insert-AllAbove :
      (b k : Bytes) (v : V) (m : Map V) → less b k ≡ true → AllAbove b m → AllAbove b (insert k v m)
  unfolding insert
  insert-AllAbove b k v [] h s = (h, tt)
  insert-AllAbove b k v ((j, w) ∷ m) h s = ground (arith, insert-AllAbove b k v m h s.1)

  pub insert-IsSorted : (k : Bytes) (v : V) (m : Map V) → IsSorted m → IsSorted (insert k v m)
  unfolding insert
  insert-IsSorted k v [] s = (tt, tt)
  insert-IsSorted k v ((j, w) ∷ m) s = elim (Bool-cases (eq_bytes j k)) [
    | inl same ↦ rw same (rw ((eq_bytes_iff j k).0 same) at s)
    | inr other ↦ rw other (elim (Bool-cases (less k j)) [
      | inl before ↦ rw before ((before, AllAbove-mono k j m before s.0), s)
      | inr after ↦ rw after (
        insert-AllAbove j k v m
            (less_total k j (ground (arith, eq_bytes_iff j k, eq_bytes_iff k j)) after) s.0,
        insert-IsSorted k v m s.1,
      )
    ])
  ]

  erase-AllAbove : (b k : Bytes) (m : Map V) → AllAbove b m → AllAbove b (erase k m)
  unfolding erase
  erase-AllAbove b k [] s = tt
  erase-AllAbove b k ((j, w) ∷ m) s = ground (arith, erase-AllAbove b k m s.1)

  pub erase-IsSorted : (k : Bytes) (m : Map V) → IsSorted m → IsSorted (erase k m)
  unfolding erase
  erase-IsSorted k [] s = tt
  erase-IsSorted k ((j, w) ∷ m) s = ground (arith, erase-AllAbove j k m s.0, erase-IsSorted k m s.1)

  -- A key that is found further down is not the first.
  pub find_below :
      (k j : Bytes) (m : Map V) {v : V} → AllAbove k m → find j m ≡ some v → eq_bytes k j ≡ false
  find_below k j m s h = ground (arith, eq_bytes_iff k j, find_above k m s)

-- `size()` as the operations change it.
module _ {ℓ} {V : Type ℓ} where
  pub length-insert :
      (k : Bytes) (v : V) (m : Map V)
      → IsSorted m
      → length (insert k v m) ≡ (if contains k m then length m else suc (length m))
  unfolding insert contains find
  length-insert k v [] s = refl
  length-insert k v ((j, w) ∷ m) s =
      ground
        (arith, length-insert k v m s.1, eq_bytes_iff j k, find_above k m, AllAbove-mono k j m, s.0)

  pub erase_absent : (k : Bytes) (m : Map V) → contains k m ≡ false → erase k m ≡ m
  unfolding erase contains find
  erase_absent k [] h = refl
  erase_absent k ((j, w) ∷ m) h = ground (arith, erase_absent k m)

  pub length-erase :
      (k : Bytes) (m : Map V)
      → IsSorted m
      → contains k m ≡ true
      → suc (length (erase k m)) ≡ length m
  unfolding erase contains find
  length-erase k [] s h = ground arith
  length-erase k ((j, w) ∷ m) s h = elim (Bool-cases (eq_bytes j k)) [
    | inl same ↦ rw same (
        ap (λ (r : Map V). suc (length r))
          (erase_absent k m (
            absent (find k m)
              (find_above k m (subst (λ b. AllAbove b m) ((eq_bytes_iff j k).0 same) s.0)))))
    | inr other ↦ rw other (ap suc (length-erase k m s.1 (ground arith)))
  ]
    where
      absent : (o : Option V) → o ≡ none → elim o [ none ↦ false | some _ ↦ true ] ≡ false
      absent none e = refl
      absent (some v) e = absurd (cc)

  pub contains-insert :
      (k j : Bytes) (v : V) (m : Map V) → contains j (insert k v m) ≡ (eq_bytes k j || contains j m)
  unfolding contains
  contains-insert k j v m = ground (arith, find-insert k j v m)

  pub contains-erase :
      (k j : Bytes) (m : Map V) → contains j (erase k m) ≡ (not (eq_bytes k j) && contains j m)
  unfolding contains
  contains-erase k j m = ground (arith, find-erase k j m)
