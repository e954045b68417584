-- ===== src/Json/RoundTrip/Strings.antt =====
-- src/core/json_codec.cpp: `parse_string` on the text of `append_escaped`.
use mathlib.Core.List.{append_assoc}
use runi.Prelude.{
  ℕ, zero, suc, ◌+◌, ◌*◌, ◌/◌, ◌%◌, ◌^◌, ◌≤◌, ◌<◌, ◌≡◌, refl, sym, ap, true, false, none, some, [],
  ◌∷◌, ◌++◌, Bytes, bytes, ltb, leb, ◌==◌, if◌then◌else◌, arith, length, length-append, Bool-cases,
  Option-cases, inl, inr,
}
use runi.Json.Reader.{
  parsed, hex_value, hex_digits, parse_hex4, parse_unicode, utf8_of, simple_escape, parse_escape,
  plain, next_of, string_bytes, parse_string, consume,
}
use runi.Json.Printer.{hex_digit, short_escape, escape_next, escape_all, escaped}

hex_value-hex_digit : (d : ℕ) → d < 16 → hex_value (hex_digit d) ≡ some d
unfolding hex_value hex_digit
hex_value-hex_digit d h = ground arith

-- What `append_escaped` writes for one byte without `ensure_ascii`.
abbrev pub escape_one : ℕ → Bytes
escape_one c = elim (short_escape c) [
  | some letter ↦ b'\\' ∷ letter ∷ []
  | none ↦
      if ltb c 0x20
      then bytes "\\u00" ++ hex_digit (c / 2 ^ 4) ∷ hex_digit (c % 2 ^ 4) ∷ []
      else c ∷ []
]

abbrev pub escape_bytes : Bytes → Bytes
escape_bytes [] = []
escape_bytes (c ∷ cs) = escape_one c ++ escape_bytes cs

escape_one-short :
    (c letter : ℕ) → short_escape c ≡ some letter → escape_one c ≡ b'\\' ∷ letter ∷ []
escape_one-short c letter e = rw (e, escape_one) refl

escape_one-low :
    (c : ℕ)
    → short_escape c ≡ none
    → ltb c 0x20 ≡ true
    → escape_one c ≡ bytes "\\u00" ++ hex_digit (c / 2 ^ 4) ∷ hex_digit (c % 2 ^ 4) ∷ []
escape_one-low c e low = rw (e, low, escape_one) refl

escape_one-plain : (c : ℕ) → short_escape c ≡ none → ltb c 0x20 ≡ false → escape_one c ≡ c ∷ []
escape_one-plain c e high = rw (e, high, escape_one) refl

pub escape_one_pos : (c : ℕ) → 0 < length (escape_one c)
unfolding bytes
escape_one_pos c = elim (Option-cases (short_escape c)) [
  | inr (letter, e) ↦ rw (escape_one-short c letter e) (omega arith)
  | inl e ↦ elim (Bool-cases (ltb c 0x20)) [
    | inl low ↦ rw (escape_one-low c e low) (omega arith)
    | inr high ↦ rw (escape_one-plain c e high) (omega arith)
  ]
]

escape_next-false : (c : ℕ) (cs : Bytes) → escape_next false c cs ≡ (escape_one c, cs)
unfolding escape_next
escape_next-false c cs = elim (Option-cases (short_escape c)) [
  | inr (letter, e) ↦ rw (e, escape_next) (ap (λ x. (x, cs)) (sym (escape_one-short c letter e)))
  | inl e ↦ elim (Bool-cases (ltb c 0x20)) [
    | inl low ↦ rw (e, low, escape_next) (ap (λ x. (x, cs)) (sym (escape_one-low c e low)))
    | inr high ↦ rw (e, high, escape_next) (ap (λ x. (x, cs)) (sym (escape_one-plain c e high)))
  ]
]

pub escape_all-false :
    (fuel : ℕ) (text : Bytes) → length text ≤ fuel → escape_all false fuel text ≡ escape_bytes text
unfolding escape_all
escape_all-false zero [] h = refl
escape_all-false zero (c ∷ cs) h = absurd (omega arith)
escape_all-false (suc fuel) [] h = refl
escape_all-false (suc fuel) (c ∷ cs) h =
    rw (escape_next-false c cs, escape_all-false fuel cs (omega arith)) refl

-- The letter of a short escape is read as the byte that it stands for.
simple_escape-short_escape :
    (c letter : ℕ) → short_escape c ≡ some letter → simple_escape letter ≡ some c
unfolding short_escape simple_escape
simple_escape-short_escape c letter h = ground arith

next_of-short_escape : (c : ℕ) → short_escape c ≡ none → (c == b'"') ≡ false
unfolding short_escape
next_of-short_escape c h = ground arith

not_backslash : (c : ℕ) → short_escape c ≡ none → (c == b'\\') ≡ false
unfolding short_escape
not_backslash c h = ground arith

next_of-plain : (c : ℕ) → short_escape c ≡ none → ltb c 0x20 ≡ false → next_of c ≡ plain
unfolding next_of
next_of-plain c h low = rw (next_of-short_escape c h, low, not_backslash c h) refl

-- A control byte is read back from its four digits.
parse_unicode-low :
    (size c : ℕ) (rest : Bytes)
    → c < 0x20
    → parse_unicode size (b'0' ∷ b'0' ∷ hex_digit (c / 2 ^ 4) ∷ hex_digit (c % 2 ^ 4) ∷ rest)
      ≡ parsed c rest
unfolding parse_unicode parse_hex4 hex_digits
parse_unicode-low size c rest h =
    let high : hex_value (hex_digit (c / 2 ^ 4)) ≡ some (c / 2 ^ 4) =
      hex_value-hex_digit (c / 2 ^ 4) (omega arith) in
    let low : hex_value (hex_digit (c % 2 ^ 4)) ≡ some (c % 2 ^ 4) =
      hex_value-hex_digit (c % 2 ^ 4) (omega arith) in
    let enough : ltb (suc (suc (suc (suc (length rest))))) 4 ≡ false = ground arith in
    let value : (0 + c / 16) * 16 + c % 16 ≡ c = omega arith in
    let no_surrogate : leb 0xd800 c ≡ false = ground arith in
    rw (enough, high, low, parse_unicode, parse_hex4, hex_digits) (rw (value, no_surrogate) refl)

parse_escape-short :
    (size c letter : ℕ) (rest : Bytes)
    → short_escape c ≡ some letter
    → parse_escape size (letter ∷ rest) ≡ parsed (c ∷ []) rest
unfolding parse_escape
parse_escape-short size c letter rest e =
    rw (simple_escape-short_escape c letter e, parse_escape) refl

parse_escape-low :
    (size c : ℕ) (rest : Bytes)
    → c < 0x20
    → parse_escape size (b'u' ∷ b'0' ∷ b'0' ∷ hex_digit (c / 2 ^ 4) ∷ hex_digit (c % 2 ^ 4) ∷ rest)
      ≡ parsed (c ∷ []) rest
unfolding parse_escape simple_escape utf8_of
parse_escape-low size c rest h =
    let ascii : leb c 0x7f ≡ true = ground arith in
    rw (parse_unicode-low size c rest h) (rw ascii refl)

-- The fuel is more than the bytes before the closing quote.
pub string_bytes-escape_bytes :
    (size fuel : ℕ) (text rest : Bytes)
    → length (escape_bytes text) < fuel
    → string_bytes size fuel (escape_bytes text ++ b'"' ∷ rest) ≡ parsed text rest
unfolding string_bytes next_of bytes
string_bytes-escape_bytes size zero text rest h = absurd (omega arith)
string_bytes-escape_bytes size (suc fuel) [] rest h = refl
string_bytes-escape_bytes size (suc fuel) (c ∷ cs) rest h = elim (Option-cases (short_escape c)) [
  | inr (letter, e) ↦
      let one = escape_one-short c letter e in
      rw
        (
          one,
          parse_escape-short size c letter (escape_bytes cs ++ b'"' ∷ rest) e,
          string_bytes-escape_bytes size fuel cs rest left,
        )
        refl
  | inl e ↦ elim (Bool-cases (ltb c 0x20)) [
    | inl low ↦
        let one = escape_one-low c e low in
        rw
          (
            one,
            parse_escape-low size c (escape_bytes cs ++ b'"' ∷ rest) (ground arith),
            string_bytes-escape_bytes size fuel cs rest left,
          )
          refl
    | inr high ↦
        let one = escape_one-plain c e high in
        rw
          (
            one,
            next_of-plain c e high,
            string_bytes-escape_bytes size fuel cs rest left,
            string_bytes,
          )
          refl
  ]
]
  where
    left : length (escape_bytes cs) < fuel
    left = omega (arith, h, length-append (escape_one c) (escape_bytes cs), escape_one_pos c)

pub escaped-false : (text : Bytes) → escaped false text ≡ b'"' ∷ escape_bytes text ++ b'"' ∷ []
unfolding escaped
escaped-false text = rw (escape_all-false (length text) text (omega arith)) refl

-- Whatever its bytes, a string is read back, before anything.
pub parse_string-escaped :
    (size : ℕ) (text rest : Bytes)
    → parse_string size (escaped false text ++ rest) ≡ parsed text rest
unfolding parse_string consume
parse_string-escaped size text rest =
    rw (escaped-false text, append_assoc (escape_bytes text) (b'"' ∷ []) rest)
      (string_bytes-escape_bytes size (suc (length (escape_bytes text ++ b'"' ∷ rest))) text rest
        (omega (arith, length-append (escape_bytes text) (b'"' ∷ rest))))
