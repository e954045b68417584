-- ===== src/Text/Lines.antt =====
-- src/core/text.cpp: `split_lines`.
use runi.Prelude.{
  ℕ, zero, suc, ◌≤◌, ◌≡◌, refl, ap, ◌∙◌, false, Option, none, some, List, [], ◌∷◌, ◌++◌, Bytes,
  bytes, is_empty, ◌==◌, if◌then◌else◌, arith, length, length-append,
}
use runi.Text.{join}

-- What follows a `\r`, without the `\n` that belongs to it.
unfoldable pub after_return : Bytes → Bytes
after_return [] = []
after_return (c ∷ cs) = if c == b'\n' then cs else c ∷ cs

-- Up to the first line end, and what follows it.
unfoldable pub first_line : Bytes → Bytes × Option Bytes
unfolding after_return
first_line [] = ([], none)
first_line (c ∷ cs) =
    let (line, rest) = first_line cs in
    if c == b'\n'
    then ([], some cs)
    else if c == b'\r'
    then ([], some (after_return cs))
    else (c ∷ line, rest)

-- The loop; the fuel is the number of bytes, of which each pass takes one or more.
unfoldable pub lines_from : ℕ → Bytes → List Bytes
unfolding first_line
lines_from zero text = []
lines_from (suc fuel) text =
    let (line, rest) = first_line text in
    if is_empty text
    then []
    else elim rest [ none ↦ line ∷ [] | some more ↦ line ∷ lines_from fuel more ]

unfoldable pub split_lines : Bytes → List Bytes
unfolding lines_from
split_lines text = lines_from (length text) text

-- No byte of a line ends it.
abbrev pub IsLine : Bytes → Type 0
IsLine [] = Unit {0}
IsLine (c ∷ cs) = ((c == b'\n') ≡ false) × ((c == b'\r') ≡ false) × IsLine cs

-- Lines of which the last is not empty.
abbrev pub AreLines : List Bytes → Type 0
AreLines [] = Unit {0}
AreLines (line ∷ []) = IsLine line × (is_empty line ≡ false)
AreLines (line ∷ lines) = IsLine line × AreLines lines

first_line-last : (line : Bytes) → IsLine line → first_line line ≡ (line, none)
unfolding first_line
first_line-last [] i = refl
first_line-last (c ∷ cs) (n, r, i) = rw (n, r, first_line-last cs i) refl

first_line-more :
    (line rest : Bytes) → IsLine line → first_line (line ++ b'\n' ∷ rest) ≡ (line, some rest)
unfolding first_line
first_line-more [] rest i = refl
first_line-more (c ∷ cs) rest (n, r, i) = rw (n, r, first_line-more cs rest i) refl

not_empty : (line rest : Bytes) (c : ℕ) → is_empty (line ++ c ∷ rest) ≡ false
unfolding is_empty
not_empty [] rest c = refl
not_empty (x ∷ xs) rest c = refl

lines_from-join :
    (fuel : ℕ) (lines : List Bytes)
    → AreLines lines
    → length (join lines (bytes "\n")) ≤ fuel
    → lines_from fuel (join lines (bytes "\n")) ≡ lines
unfolding lines_from join bytes
lines_from-join zero [] a le = refl
lines_from-join (suc fuel) [] a le = unfold is_empty in refl
lines_from-join zero ([] ∷ []) (i, n) le = absurd (unfold is_empty in cc)
lines_from-join zero ((c ∷ cs) ∷ []) (i, n) le = absurd (omega (arith, le))
lines_from-join (suc fuel) (line ∷ []) (i, n) le =
    rw (n, first_line-last line i, lines_from)
      (ap (λ l. l ∷ []) (ap (λ r. r.0) (first_line-last line i)))
lines_from-join zero (line ∷ next ∷ lines) (i, a) le =
    absurd (omega (arith, le, length-append line (b'\n' ∷ join (next ∷ lines) (bytes "\n"))))
lines_from-join (suc fuel) (line ∷ next ∷ lines) (i, a) le =
    let others = join (next ∷ lines) (bytes "\n") in
    let first = first_line-more line others i in
    rw (not_empty line others b'\n', first, lines_from)
      (ap (λ r. r.0 ∷ lines_from fuel others) first
        ∙ ap (◌∷◌ line) (
            lines_from-join fuel (next ∷ lines) a
              (omega (arith, le, length-append line (b'\n' ∷ others)))))

-- `split_lines` takes apart what `join` made of lines with a newline between them, when no line has
-- a line end in it and the last is not empty.
pub split_lines-join :
    (lines : List Bytes) → AreLines lines → split_lines (join lines (bytes "\n")) ≡ lines
unfolding split_lines
split_lines-join lines a = lines_from-join (length (join lines (bytes "\n"))) lines a (omega arith)
