-- ===== src/Text.antt =====
-- src/core/text.cpp: text as bytes, measured in UTF-8 characters. The proofs are in the modules
-- below.
pub mod Utf8
pub mod Trim
pub mod Lines
use Prim.Native.Nat.{bit_and}
use mathlib.Core.List.{reverse}
use runi.Prelude.{
  ℕ, zero, suc, ◌+◌, ◌-◌, ◌/◌, Bool, true, false, ◌||◌, not, List, [], ◌∷◌, ◌++◌, map, Bytes, bytes,
  to_string, ltb, leb, ◌==◌, if◌then◌else◌,
}

-- `(character & 0xc0U) == 0x80U`.
unfoldable pub is_continuation : ℕ → Bool
is_continuation character = bit_and character 0xc0 == 0x80

unfoldable pub utf8_length : Bytes → ℕ
utf8_length [] = 0
utf8_length (c ∷ cs) = (if is_continuation c then 0 else 1) + utf8_length cs

-- The loop of `utf8_prefix` after a first byte was taken: `characters` more may begin.
prefix_rest : ℕ → Bytes → Bytes
prefix_rest characters [] = []
prefix_rest zero (c ∷ cs) =
    let rest = prefix_rest zero cs in if is_continuation c then c ∷ rest else []
prefix_rest (suc n) (c ∷ cs) = c ∷ prefix_rest (if is_continuation c then suc n else n) cs

unfoldable pub utf8_prefix : Bytes → ℕ → Bytes
unfolding prefix_rest
utf8_prefix text zero = []
utf8_prefix [] (suc n) = []
utf8_prefix (c ∷ cs) (suc n) = c ∷ prefix_rest n cs

-- The loop of `utf8_suffix`, over the text from its end.
suffix_back : ℕ → Bytes → Bytes
suffix_back zero cs = []
suffix_back (suc n) [] = []
suffix_back (suc n) (c ∷ cs) = c ∷ suffix_back (if is_continuation c then suc n else n) cs

unfoldable pub utf8_suffix : Bytes → ℕ → Bytes
unfolding suffix_back
utf8_suffix text characters = reverse (suffix_back characters (reverse text))

unfoldable pub clip : Bytes → ℕ → Bytes
clip text limit =
    if leb (utf8_length text) limit
    then text
    else utf8_prefix text limit
      ++ (bytes "\n...[truncated " ++ (to_string (utf8_length text - limit) ++ bytes " chars]"))

-- `std::replace` of the line ends by blanks.
one_line : Bytes → Bytes
one_line = map λ c. if (c == b'\n') || (c == b'\r') then b' ' else c

unfoldable pub middle : Bytes → ℕ → Bytes
unfolding one_line
middle text limit =
    let line = one_line text in
    if leb (utf8_length line) limit
    then line
    else if leb limit 3
    then utf8_prefix line limit
    else let left = (limit - 3) / 2 in
      utf8_prefix line left ++ (bytes "..." ++ utf8_suffix line (limit - 3 - left))

unfoldable pub is_blank : ℕ → Bool
is_blank c = (c == b' ') || ((c == b'\t') || ((c == b'\r') || (c == b'\n')))

-- From the first byte that `skip` refuses, `find_first_not_of`.
unfoldable pub drop_while : (ℕ → Bool) → Bytes → Bytes
drop_while skip [] = []
drop_while skip (c ∷ cs) = if skip c then drop_while skip cs else c ∷ cs

-- Up to the last byte that `skip` refuses, `find_last_not_of`.
unfoldable pub strip : (ℕ → Bool) → Bytes → Bytes
unfolding drop_while
strip skip text = reverse (drop_while skip (reverse (drop_while skip text)))

unfoldable pub trim : Bytes → Bytes
unfolding strip is_blank
trim = strip is_blank

unfoldable pub trim_newlines : Bytes → Bytes
unfolding strip
trim_newlines = strip (λ c. c == b'\n')

unfoldable pub join : List Bytes → Bytes → Bytes
join [] separator = []
join (item ∷ []) separator = item
join (item ∷ items) separator = item ++ (separator ++ join items separator)

-- `std::tolower` in the C locale.
unfoldable pub lower : ℕ → ℕ
lower c = if leb b'A' c then (if leb c b'Z' then c + 32 else c) else c

unfoldable pub lower_ascii : Bytes → Bytes
unfolding lower
lower_ascii = map lower
