-- ===== src/Prelude/Maps.antt =====
-- `std::map<std::string, V, std::less<>>`: an association list in the order of its keys.
pub mod Order
use mathlib.Core.Path.{◌≡◌, refl}
use mathlib.Core.Bool.{Bool, true, false}
use mathlib.Core.Option.{Option, none, some}
use mathlib.Core.List.{List, [], ◌∷◌}
use native.Mathlib.Omega.{arith}
use runi.Prelude.Tests.{if◌then◌else◌}
use runi.Prelude.Strings.{Bytes, eq_bytes, less, eq_bytes_iff}

abbrev pub Map {ℓ} : Type ℓ → Type ℓ
Map V = List (Bytes × V)

module _ {ℓ} {V : Type ℓ} where
  -- `find`, with `none` for `end()`.
  unfoldable pub find : Bytes → Map V → Option V
  find k [] = none
  find k ((j, v) ∷ m) = if eq_bytes j k then some v else find k m

  -- `insert_or_assign`, and assignment through `operator[]`.
  unfoldable pub insert : Bytes → V → Map V → Map V
  insert k v [] = (k, v) ∷ []
  insert k v ((j, w) ∷ m) =
      if eq_bytes j k
      then (k, v) ∷ m
      else if less k j
      then (k, v) ∷ (j, w) ∷ m
      else (j, w) ∷ insert k v m

  -- `erase` by key.
  unfoldable pub erase : Bytes → Map V → Map V
  erase k [] = []
  erase k ((j, v) ∷ m) = let rest = erase k m in if eq_bytes j k then rest else (j, v) ∷ rest

  pub find-insert :
      (k j : Bytes) (v : V) (m : Map V)
      → find j (insert k v m) ≡ (if eq_bytes k j then some v else find j m)
  unfolding find insert
  find-insert k j v [] = refl
  find-insert k j v ((i, w) ∷ m) =
      ground (arith, eq_bytes_iff k j, eq_bytes_iff i k, eq_bytes_iff i j, find-insert k j v m)

  pub find-erase :
      (k j : Bytes) (m : Map V) → find j (erase k m) ≡ (if eq_bytes k j then none else find j m)
  unfolding find erase
  find-erase k j [] = ground arith
  find-erase k j ((i, w) ∷ m) =
      ground (arith, eq_bytes_iff k j, eq_bytes_iff i k, eq_bytes_iff i j, find-erase k j m)

unfoldable pub contains {ℓ} : {V : Type ℓ} → Bytes → Map V → Bool
contains k m = elim (find k m) [ none ↦ false | some _ ↦ true ]
