-- ===== src/Json/Reader.antt =====
-- src/core/json_codec.cpp, the parts of `Parser` that take bytes. What is left of the text stands for
-- `position_`; `size` is the size of the whole text, so that a message can say where it failed.
use runi.Prelude.{
  ℕ, zero, suc, ◌+◌, ◌-◌, ◌*◌, ◌/◌, ◌%◌, ◌^◌, Bool, ◌||◌, ◌&&◌, Option, none, some, [], ◌∷◌, ◌++◌,
  Bytes, bytes, ltb, leb, ◌==◌, if◌then◌else◌, length, drop, starts_with, to_string, is_empty,
}
use runi.Json.Value.{ℤ, pos, negsuc}

-- A result and the bytes after it, or the text of the exception; `out_of_fuel` is not of the program.
pub data Parsed {ℓ} (A : Type ℓ) : Type ℓ where
  parsed : A → Bytes → Parsed A
  failed : Bytes → Parsed A
  out_of_fuel : Parsed A

infixl 5 ◌>>=◌
abbrev pub ◌>>=◌ {ℓ κ} : {A : Type ℓ} {B : Type κ} → Parsed A → (A → Bytes → Parsed B) → Parsed B
parsed a rest >>= f = f a rest
failed message >>= f = failed message
out_of_fuel >>= f = out_of_fuel

-- `fail`, before the bytes that are left.
abbrev pub fail {ℓ} : {A : Type ℓ} → ℕ → Bytes → Bytes → Parsed A
fail size rest message = failed (message ++ (bytes " at byte " ++ to_string (size - length rest)))

unfoldable pub is_space : ℕ → Bool
is_space c = (c == b' ') || ((c == b'\t') || ((c == b'\r') || (c == b'\n')))

unfoldable pub skip_space : Bytes → Bytes
unfolding is_space
skip_space [] = []
skip_space (c ∷ cs) = let rest = skip_space cs in if is_space c then rest else c ∷ cs

-- `consume`, with `none` for `false`.
unfoldable pub consume : ℕ → Bytes → Option Bytes
consume expected [] = none
consume expected (c ∷ cs) = if c == expected then some cs else none

unfoldable pub parse_literal {ℓ} : {A : Type ℓ} → ℕ → Bytes → A → Bytes → Parsed A
parse_literal size literal value text =
    if starts_with text literal
    then parsed value (drop (length literal) text)
    else fail size text (bytes "invalid JSON literal")

-- `append_utf8`: the shifts are divisions and the masks remainders; the bits that `|` joins are apart.
unfoldable pub utf8_of : ℕ → Bytes
utf8_of codepoint =
    if leb codepoint 0x7f
    then codepoint ∷ []
    else if leb codepoint 0x7ff
    then (0xc0 + codepoint / 2 ^ 6) ∷ (0x80 + codepoint % 2 ^ 6) ∷ []
    else if leb codepoint 0xffff
    then (0xe0 + codepoint / 2 ^ 12)
      ∷ (0x80 + codepoint / 2 ^ 6 % 2 ^ 6)
      ∷ (0x80 + codepoint % 2 ^ 6)
      ∷ []
    else (0xf0 + codepoint / 2 ^ 18)
      ∷ (0x80 + codepoint / 2 ^ 12 % 2 ^ 6)
      ∷ (0x80 + codepoint / 2 ^ 6 % 2 ^ 6)
      ∷ (0x80 + codepoint % 2 ^ 6)
      ∷ []

unfoldable pub hex_value : ℕ → Option ℕ
hex_value c =
    if leb b'0' c && leb c b'9'
    then some (c - b'0')
    else if leb b'a' c && leb c b'f'
    then some (c - b'a' + 10)
    else if leb b'A' c && leb c b'F'
    then some (c - b'A' + 10)
    else none

-- The loop of `parse_hex4`, for the digits that are left.
unfoldable pub hex_digits : ℕ → ℕ → ℕ → Bytes → Parsed ℕ
unfolding hex_value
hex_digits size zero value text = parsed value text
hex_digits size (suc n) value [] = fail size [] (bytes "truncated JSON unicode escape")
hex_digits size (suc n) value (c ∷ cs) = elim (hex_value c) [
  | none ↦ fail size cs (bytes "invalid JSON unicode escape")
  | some digit ↦ hex_digits size n (value * 2 ^ 4 + digit) cs
]

unfoldable pub parse_hex4 : ℕ → Bytes → Parsed ℕ
unfolding hex_digits
parse_hex4 size text =
    if ltb (length text) 4
    then fail size text (bytes "truncated JSON unicode escape")
    else hex_digits size 4 0 text

-- The code point of a `\u` escape, from the bytes after the `u`: a high surrogate wants a low one.
unfoldable pub low_surrogate : ℕ → ℕ → Bytes → Parsed ℕ
unfolding parse_hex4
low_surrogate size high text =
    if starts_with text (bytes "\\u")
    then (parse_hex4 size (drop 2 text) >>= λ low rest.
        (if ltb low 0xdc00 || ltb 0xdfff low
          then fail size rest (bytes "invalid low unicode surrogate")
          else parsed (0x10000 + (high - 0xd800) * 2 ^ 10 + (low - 0xdc00)) rest))
    else fail size text (bytes "missing low unicode surrogate")

unfoldable pub parse_unicode : ℕ → Bytes → Parsed ℕ
unfolding low_surrogate parse_hex4
parse_unicode size text = parse_hex4 size text >>= λ codepoint rest.
    if leb 0xd800 codepoint && leb codepoint 0xdbff
    then low_surrogate size codepoint rest
    else parsed codepoint rest

-- The `switch` on an escape other than `\u`.
unfoldable pub simple_escape : ℕ → Option ℕ
simple_escape c =
    if c == b'"'
    then some b'"'
    else if c == b'\\'
    then some b'\\'
    else if c == b'/'
    then some b'/'
    else if c == b'b'
    then some 8
    else if c == b'f'
    then some 12
    else if c == b'n'
    then some b'\n'
    else if c == b'r'
    then some b'\r'
    else if c == b't'
    then some b'\t'
    else none

-- What an escape stands for, from the bytes after the backslash.
unfoldable pub parse_escape : ℕ → Bytes → Parsed Bytes
unfolding simple_escape parse_unicode utf8_of
parse_escape size [] = fail size [] (bytes "truncated JSON escape")
parse_escape size (c ∷ cs) = elim (simple_escape c) [
  | some escaped ↦ parsed (escaped ∷ []) cs
  | none ↦
      if c == b'u'
      then (parse_unicode size cs >>= λ codepoint rest. parsed (utf8_of codepoint) rest)
      else fail size cs (bytes "invalid JSON escape")
]

-- The three ways that a byte of a string goes on.
pub data Next : Type 0 where
  closes refused escapes plain : Next

unfoldable pub next_of : ℕ → Next
next_of c =
    if c == b'"'
    then closes
    else if ltb c 0x20
    then refused
    else if c == b'\\'
    then escapes
    else plain

-- The loop of `parse_string`; what it appends comes before what the rest appends.
unfoldable pub string_bytes : ℕ → ℕ → Bytes → Parsed Bytes
unfolding next_of parse_escape
string_bytes size zero text = out_of_fuel
string_bytes size (suc fuel) [] = fail size [] (bytes "unterminated JSON string")
string_bytes size (suc fuel) (c ∷ cs) = elim (next_of c) [
  | closes ↦ parsed [] cs
  | refused ↦ fail size cs (bytes "control character in JSON string")
  | plain ↦ string_bytes size fuel cs >>= λ output rest. parsed (c ∷ output) rest
  | escapes ↦ parse_escape size cs >>= λ escaped more.
      string_bytes size fuel more >>= λ output rest. parsed (escaped ++ output) rest
]

unfoldable pub parse_string : ℕ → Bytes → Parsed Bytes
unfolding string_bytes consume
parse_string size text = elim (consume b'"' text) [
  | none ↦ fail size text (bytes "expected JSON string")
  | some rest ↦ string_bytes size (suc (length rest)) rest
]

unfoldable pub is_digit : ℕ → Bool
is_digit c = leb b'0' c && leb c b'9'

-- The digits that come first, and what follows them.
unfoldable pub digits_first : Bytes → Bytes × Bytes
unfolding is_digit
digits_first [] = ([], [])
digits_first (c ∷ cs) =
    let (digits, rest) = digits_first cs in if is_digit c then (c ∷ digits, rest) else ([], c ∷ cs)

-- Digits of which there is at least one.
unfoldable pub some_digits : ℕ → Bytes → Bytes → Parsed Bytes
unfolding digits_first
some_digits size message text =
    let (digits, rest) = digits_first text in
    if is_empty digits then fail size text message else parsed digits rest

abbrev pub invalid_number : Bytes
invalid_number = bytes "invalid JSON number"

-- The digits before the point: one zero, or a number that starts with none.
unfoldable pub magnitude : ℕ → Bytes → Parsed Bytes
unfolding some_digits
magnitude size [] = fail size [] invalid_number
magnitude size (c ∷ cs) =
    if c == b'0' then parsed (c ∷ []) cs else some_digits size invalid_number (c ∷ cs)

unfoldable pub integer_part : ℕ → Bytes → Parsed Bytes
unfolding magnitude consume
integer_part size text = elim (consume b'-' text) [
  | none ↦ magnitude size text
  | some rest ↦ magnitude size rest >>= λ digits more. parsed (b'-' ∷ digits) more
]

unfoldable pub fraction_part : ℕ → Bytes → Parsed Bytes
unfolding some_digits consume
fraction_part size text = elim (consume b'.' text) [
  | none ↦ parsed [] text
  | some rest ↦ some_digits size invalid_number rest >>= λ digits more. parsed (b'.' ∷ digits) more
]

-- The sign of an exponent, when there is one.
unfoldable pub exponent_sign : Bytes → Bytes × Bytes
exponent_sign [] = ([], [])
exponent_sign (c ∷ cs) = if (c == b'+') || (c == b'-') then (c ∷ [], cs) else ([], c ∷ cs)

unfoldable pub exponent_part : ℕ → Bytes → Parsed Bytes
unfolding exponent_sign some_digits
exponent_part size [] = parsed [] []
exponent_part size (c ∷ cs) =
    if (c == b'e') || (c == b'E')
    then (some_digits size (bytes "invalid JSON exponent") (exponent_sign cs).1 >>= λ digits more.
        parsed (c ∷ (exponent_sign cs).0 ++ digits) more)
    else parsed [] (c ∷ cs)

-- `std::from_chars` of decimal digits.
unfoldable pub decimal : ℕ → Bytes → ℕ
decimal value [] = value
decimal value (c ∷ cs) = decimal (value * 10 + (c - b'0')) cs

-- `std::from_chars` into `std::int64_t`; `none` for the range error.
unfoldable pub from_chars : Bytes → Option ℤ
unfolding decimal consume
from_chars token = elim (consume b'-' token) [
  | none ↦ let value = decimal 0 token in if ltb value (2 ^ 63) then some (pos value) else none
  | some digits ↦
      let value = decimal 0 digits in
      if value == 0
      then some (pos 0)
      else if leb value (2 ^ 63)
      then some (negsuc (value - 1))
      else none
]
