-- ===== src/Text/Trim.antt =====
-- src/core/text.cpp: `trim` and `trim_newlines`.
use mathlib.Core.List.{reverse, reverse-cons, reverse-append, reverse-reverse}
use runi.Prelude.{
  ℕ, ◌≡◌, refl, sym, ap, ◌∙◌, subst, Bool, true, false, [], ◌∷◌, ◌++◌, Bytes, Bool-cases, inl, inr,
}
use runi.Text.{drop_while, strip, trim, is_blank}

-- Every byte is one that `skip` accepts.
abbrev pub AllSkipped : (ℕ → Bool) → Bytes → Type 0
AllSkipped skip [] = Unit {0}
AllSkipped skip (c ∷ cs) = (skip c ≡ true) × AllSkipped skip cs

-- The text does not begin with a byte that `skip` accepts.
abbrev pub StartsKept : (ℕ → Bool) → Bytes → Type 0
StartsKept skip [] = Unit {0}
StartsKept skip (c ∷ cs) = skip c ≡ false

module _ (skip : ℕ → Bool) where
  AllSkipped-append :
      (a b : Bytes) → AllSkipped skip a → AllSkipped skip b → AllSkipped skip (a ++ b)
  AllSkipped-append [] b h k = k
  AllSkipped-append (c ∷ a) b (h, hs) k = (h, AllSkipped-append a b hs k)

  AllSkipped-reverse : (a : Bytes) → AllSkipped skip a → AllSkipped skip (reverse a)
  AllSkipped-reverse [] h = tt
  AllSkipped-reverse (c ∷ a) (h, hs) =
      rw (reverse-cons c a)
        (AllSkipped-append (reverse a) (c ∷ []) (AllSkipped-reverse a hs) (h, tt))

  drop_while_splits :
      (a : Bytes) → (front : Bytes) × AllSkipped skip front × (a ≡ front ++ drop_while skip a)
  unfolding drop_while
  drop_while_splits [] = ([], tt, refl)
  drop_while_splits (c ∷ a) = elim (Bool-cases (skip c)) [
    | inl e ↦
        let (front, all, split) = drop_while_splits a in
        (c ∷ front, (e, all), rw (e, drop_while) (ap (◌∷◌ c) split))
    | inr e ↦ ([], tt, rw (e, drop_while) refl)
  ]

  drop_while-StartsKept : (a : Bytes) → StartsKept skip (drop_while skip a)
  unfolding drop_while
  drop_while-StartsKept [] = tt
  drop_while-StartsKept (c ∷ a) = elim (Bool-cases (skip c)) [
    | inl e ↦ rw (e, drop_while) (drop_while-StartsKept a)
    | inr e ↦ rw (e, drop_while) e
  ]

  drop_while_kept : (a : Bytes) → StartsKept skip a → drop_while skip a ≡ a
  unfolding drop_while
  drop_while_kept [] h = refl
  drop_while_kept (c ∷ a) h = rw h

  StartsKept-append : (a b : Bytes) → StartsKept skip (a ++ b) → StartsKept skip a
  StartsKept-append [] b h = tt
  StartsKept-append (c ∷ a) b h = h

  -- `r` is what is left of `a` when the skipped bytes at its two ends are taken off.
  pub record Stripped (a r : Bytes) : Type 0 where
    pub front : Bytes
    pub back : Bytes
    pub splits : a ≡ front ++ (r ++ back)
    pub front_skipped : AllSkipped skip front
    pub back_skipped : AllSkipped skip back
    pub starts_kept : StartsKept skip r
    pub ends_kept : StartsKept skip (reverse r)

  strip_splits :
      (kept back : Bytes)
      → reverse kept ≡ back ++ drop_while skip (reverse kept)
      → kept ≡ reverse (drop_while skip (reverse kept)) ++ reverse back
  strip_splits kept back e =
      sym (reverse-reverse kept)
      ∙ ap reverse e
      ∙ reverse-append back (drop_while skip (reverse kept))

  -- What `strip` keeps is the text between the skipped bytes at its ends, and it has none there.
  pub strip-Stripped : (a : Bytes) → Stripped a (strip skip a)
  unfolding strip
  strip-Stripped a =
      let (front, front_all, front_split) = drop_while_splits a in
      let (back, back_all, back_split) = drop_while_splits (reverse (drop_while skip a)) in
      let e = strip_splits (drop_while skip a) back back_split in
      record {
        front = front;
        back = reverse back;
        splits = front_split ∙ ap (◌++◌ front) e;
        front_skipped = front_all;
        back_skipped = AllSkipped-reverse back back_all;
        starts_kept =
            StartsKept-append _ (reverse back)
              (subst (StartsKept skip) e (drop_while-StartsKept a));
        ends_kept = rw reverse-reverse (drop_while-StartsKept (reverse (drop_while skip a)));
      }

  pub strip_kept : (r : Bytes) → StartsKept skip r → StartsKept skip (reverse r) → strip skip r ≡ r
  strip_kept r s t =
      unfold strip in
      rw (drop_while_kept r s) (rw (drop_while_kept (reverse r) t) (reverse-reverse r))

-- `trim` takes off exactly the blanks at the two ends of a text: what it returns stands in the text
-- between blanks only, and neither begins nor ends with a blank.
pub trim-Stripped : (text : Bytes) → Stripped is_blank text (trim text)
unfolding trim
trim-Stripped text = strip-Stripped is_blank text
