-- ===== src/Committer/Names.antt =====
-- src/orchestration/multi_agent.cpp: the names of the temporary files and of the backups of a
-- batch.
use mathlib.Core.List.{reverse, reverse-append, reverse-reverse, append_assoc}
use runi.Prelude.{
  ℕ, zero, suc, ◌+◌, ◌-◌, ◌*◌, ◌/◌, ◌%◌, ◌<◌, ◌≡◌, ◌≢◌, refl, sym, ap, ◌∙◌, [], ◌∷◌, ◌++◌, Bytes,
  bytes, to_string, arith, Bool-cases, inl, inr, ltb,
}
use runi.Prelude.Strings.{digits_of}
use runi.Committer.{suffix, temporary_name, backup_name}

-- The number that decimal digits spell, the least digit first.
value : Bytes → ℕ
value [] = 0
value (c ∷ cs) = (c - 48) + 10 * value cs

reverse-snoc : (xs : Bytes) (x : ℕ) → reverse (xs ++ x ∷ []) ≡ x ∷ reverse xs
reverse-snoc xs x = reverse-append xs (x ∷ [])

value-digits : (fuel n : ℕ) → n < fuel → value (reverse (digits_of fuel n)) ≡ n
unfolding value digits_of
value-digits zero n h = absurd (omega arith)
value-digits (suc fuel) n h = elim (Bool-cases (ltb n 10)) [
  | inl small ↦ rw small (omega arith)
  | inr large ↦ rw large (
      rw (reverse-snoc (digits_of fuel (n / 10)) (48 + n % 10))
        (omega (arith, value-digits fuel (n / 10) (ground arith))))
]

to_string-injective : (m n : ℕ) → to_string m ≡ to_string n → m ≡ n
unfolding to_string
to_string-injective m n e = omega (
  arith,
  value-digits (suc m) m (omega arith),
  value-digits (suc n) n (omega arith),
  ap (λ d. value (reverse d)) e,
)

-- No digit is a dash.
abbrev NoDash : Bytes → Type 0
NoDash [] = Unit {0}
NoDash (c ∷ cs) = (45 < c) × NoDash cs

digits-NoDash : (fuel n : ℕ) → NoDash (reverse (digits_of fuel n))
unfolding digits_of
digits-NoDash zero n = tt
digits-NoDash (suc fuel) n = elim (Bool-cases (ltb n 10)) [
  | inl small ↦ rw small (omega arith, tt)
  | inr large ↦ rw large (
      rw (reverse-snoc (digits_of fuel (n / 10)) (48 + n % 10))
        (omega arith, digits-NoDash fuel (n / 10)))
]

before_dash : (a b x y : Bytes) → NoDash a → NoDash b → a ++ 45 ∷ x ≡ b ++ 45 ∷ y → a ≡ b
before_dash [] [] x y h k e = refl
before_dash [] (d ∷ b) x y h k e = ground arith
before_dash (c ∷ a) [] x y h k e = ground arith
before_dash (c ∷ a) (d ∷ b) x y h k e = ground (arith, before_dash a b x y h.1 k.1)

-- A name read from its end: the extension, the index, a dash, and the rest.
ending : Bytes → ℕ → Bytes → Bytes
ending front index extension = front ++ (bytes "-" ++ (to_string index ++ extension))

reverse-ending :
    (front : Bytes) (index : ℕ) (extension : Bytes)
    → reverse (ending front index extension)
      ≡ reverse extension ++ (reverse (to_string index) ++ 45 ∷ reverse front)
unfolding ending bytes
reverse-ending front index extension =
    reverse-append front (45 ∷ (to_string index ++ extension))
    ∙ (ap (λ r. r ++ reverse front)
          (reverse-append (45 ∷ []) (to_string index ++ extension)
            ∙ ap (λ r. r ++ 45 ∷ []) (reverse-append (to_string index) extension))
        ∙ regroup (reverse extension) (reverse (to_string index)) (reverse front))
  where
    regroup : (a b c : Bytes) → ((a ++ b) ++ 45 ∷ []) ++ c ≡ a ++ (b ++ 45 ∷ c)
    regroup a b c = simp append_assoc

name_front : ℕ → Bytes → Bytes
name_front sequence target = target ++ (bytes ".runi-" ++ to_string sequence)

reversed :
    (f g : Bytes) (i j : ℕ) (x y : Bytes)
    → ending f i x ≡ ending g j y
    → reverse x ++ (reverse (to_string i) ++ 45 ∷ reverse f)
      ≡ reverse y ++ (reverse (to_string j) ++ 45 ∷ reverse g)
reversed f g i j x y e = sym (reverse-ending f i x) ∙ (ap reverse e ∙ reverse-ending g j y)

ending-injective :
    (f g : Bytes) (i j a b c d : ℕ)
    → ending f i (a ∷ b ∷ c ∷ d ∷ []) ≡ ending g j (a ∷ b ∷ c ∷ d ∷ [])
    → i ≡ j
unfolding to_string
ending-injective f g i j a b c d e = to_string-injective i j (
    sym (reverse-reverse (to_string i))
    ∙ (ap reverse (
          before_dash (reverse (to_string i)) (reverse (to_string j)) (reverse f) (reverse g)
            (digits-NoDash (suc i) i) (digits-NoDash (suc j) j)
            (cc (reversed f g i j (a ∷ b ∷ c ∷ d ∷ []) (a ∷ b ∷ c ∷ d ∷ []) e)))
        ∙ reverse-reverse (to_string j)))

temporary_name_lem :
    (sequence index : ℕ) (target : Bytes)
    → temporary_name sequence index target
      ≡ ending (name_front sequence target) index (bytes ".tmp")
unfolding temporary_name suffix ending name_front
temporary_name_lem sequence index target = simp append_assoc

backup_name_lem :
    (sequence index : ℕ) (target : Bytes)
    → backup_name sequence index target ≡ ending (name_front sequence target) index (bytes ".bak")
unfolding backup_name suffix ending name_front
backup_name_lem sequence index target = simp append_assoc

last_ne : (x y : Bytes) → reverse (bytes ".tmp") ++ x ≡ reverse (bytes ".bak") ++ y → ⊥
unfolding bytes
last_ne x y e = absurd (omega (arith, ap first e))
  where
    first : Bytes → ℕ
    first [] = 0
    first (c ∷ cs) = c

module _ (sequence : ℕ) (s t : Bytes) where
  pub temporary_ne_temporary :
      (i j : ℕ) → i ≢ j → temporary_name sequence i s ≢ temporary_name sequence j t
  unfolding bytes
  temporary_ne_temporary i j n e = n (
      ending-injective (name_front sequence s) (name_front sequence t) i j b'.' b't' b'm' b'p'
        (sym (temporary_name_lem sequence i s) ∙ (e ∙ temporary_name_lem sequence j t)))

  pub backup_ne_backup : (i j : ℕ) → i ≢ j → backup_name sequence i s ≢ backup_name sequence j t
  unfolding bytes
  backup_ne_backup i j n e = n (
      ending-injective (name_front sequence s) (name_front sequence t) i j b'.' b'b' b'a' b'k'
        (sym (backup_name_lem sequence i s) ∙ (e ∙ backup_name_lem sequence j t)))

  pub temporary_ne_backup : (i j : ℕ) → temporary_name sequence i s ≢ backup_name sequence j t
  unfolding bytes
  temporary_ne_backup i j e = last_ne _ _ (
      reversed (name_front sequence s) (name_front sequence t) i j (bytes ".tmp") (bytes ".bak")
        (sym (temporary_name_lem sequence i s) ∙ (e ∙ backup_name_lem sequence j t)))
