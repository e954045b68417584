-- ===== src/Text/Utf8.antt =====
-- src/core/text.cpp: the lengths in characters of what the clipping functions return.
use mathlib.Core.List.{reverse, reverse-cons}
use runi.Prelude.{
  ℕ, zero, suc, ◌+◌, ◌-◌, ◌≤◌, ◌/◌, min, ◌≡◌, refl, [], ◌∷◌, ◌++◌, Bytes, bytes, arith,
}
use runi.Text.{
  is_continuation, utf8_length, prefix_rest, utf8_prefix, suffix_back, utf8_suffix, middle,
  one_line,
}

pub utf8_length-append : (a b : Bytes) → utf8_length (a ++ b) ≡ utf8_length a + utf8_length b
unfolding utf8_length
utf8_length-append [] b = omega arith
utf8_length-append (c ∷ a) b = ground (arith, utf8_length-append a b)

utf8_length-reverse : (a : Bytes) → utf8_length (reverse a) ≡ utf8_length a
unfolding utf8_length
utf8_length-reverse [] = refl
utf8_length-reverse (c ∷ a) =
    rw (reverse-cons c a, utf8_length-append (reverse a) (c ∷ []))
      (ground (arith, utf8_length-reverse a))

prefix_rest-le : (n : ℕ) (cs : Bytes) → utf8_length (prefix_rest n cs) ≤ n
unfolding utf8_length prefix_rest
prefix_rest-le n [] = omega arith
prefix_rest-le zero (c ∷ cs) = ground (arith, prefix_rest-le zero cs)
prefix_rest-le (suc n) (c ∷ cs) = ground (arith, prefix_rest-le (suc n) cs, prefix_rest-le n cs)

pub utf8_prefix-le : (text : Bytes) (n : ℕ) → utf8_length (utf8_prefix text n) ≤ n
unfolding utf8_length utf8_prefix
utf8_prefix-le [] zero = omega arith
utf8_prefix-le (c ∷ cs) zero = omega arith
utf8_prefix-le [] (suc n) = omega arith
utf8_prefix-le (c ∷ cs) (suc n) = ground (arith, prefix_rest-le n cs)

suffix_back-length : (n : ℕ) (cs : Bytes) → utf8_length (suffix_back n cs) ≡ min n (utf8_length cs)
unfolding utf8_length suffix_back
suffix_back-length zero cs = omega arith
suffix_back-length (suc n) [] = omega arith
suffix_back-length (suc n) (c ∷ cs) =
    ground (arith, suffix_back-length (suc n) cs, suffix_back-length n cs)

-- A suffix of a text has as many characters as asked for, or all.
pub utf8_length-suffix :
    (text : Bytes) (n : ℕ) → utf8_length (utf8_suffix text n) ≡ min n (utf8_length text)
unfolding utf8_suffix
utf8_length-suffix text n = omega (
  arith,
  utf8_length-reverse (suffix_back n (reverse text)),
  suffix_back-length n (reverse text),
  utf8_length-reverse text,
)

utf8_length-drop_prefix :
    (line : Bytes) (left right : ℕ)
    → utf8_length (utf8_prefix line left ++ (bytes "..." ++ utf8_suffix line right))
      ≤ left + (3 + right)
utf8_length-drop_prefix line left right = omega (
  arith,
  utf8_length-append (utf8_prefix line left) (bytes "..." ++ utf8_suffix line right),
  utf8_length-append (bytes "...") (utf8_suffix line right),
  utf8_prefix-le line left,
  utf8_length-suffix line right,
  dots,
)
  where
    dots : utf8_length (bytes "...") ≡ 3
    dots = unfold bytes utf8_length is_continuation in refl

-- Whatever the text, `middle` returns at most `limit` characters.
pub utf8_length-middle : (text : Bytes) (limit : ℕ) → utf8_length (middle text limit) ≤ limit
unfolding middle
utf8_length-middle text limit = ground (
  arith,
  utf8_prefix-le (one_line text) limit,
  utf8_length-drop_prefix (one_line text) ((limit - 3) / 2) (limit - 3 - (limit - 3) / 2),
)
