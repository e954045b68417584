-- ===== src/Json/Fuel.antt =====
-- src/core/json_codec.cpp: the parser takes bytes at every step, so its fuel is never spent.
use runi.Prelude.{
  ℕ, zero, suc, ◌+◌, ◌-◌, ◌*◌, ◌^◌, ◌≤◌, ◌<◌, ◌≡◌, ◌⊎◌, refl, Bool, true, false, ◌||◌, ◌&&◌, none,
  some, [], ◌∷◌, ◌++◌, Bytes, bytes, ltb, leb, ◌==◌, if◌then◌else◌, arith, length, length-drop,
  drop, is_empty, starts_with, Bool-cases, Option-cases, inl, inr,
}
use runi.Json.Reader.{
  Parsed, parsed, failed, out_of_fuel, ◌>>=◌, fail, is_space, skip_space, consume, parse_literal,
  hex_value, hex_digits, parse_hex4, low_surrogate, parse_unicode, simple_escape, parse_escape,
  Next, closes, refused, escapes, plain, next_of, string_bytes, parse_string, is_digit,
  digits_first, some_digits, magnitude, integer_part, fraction_part, exponent_sign, exponent_part,
  invalid_number,
}

-- The parser does not run out of fuel, and leaves at most so many bytes.
unfoldable pub Leaves : {A : Type 0} → ℕ → Parsed A → Type 0
Leaves n (parsed a rest) = length rest ≤ n
Leaves n (failed message) = Unit {0}
Leaves n out_of_fuel = ⊥

pub parsed-Leaves :
    {A : Type 0} (n : ℕ) (a : A) (rest : Bytes) → length rest ≤ n → Leaves n (parsed a rest)
unfolding Leaves
parsed-Leaves n a rest h = h

pub fail-Leaves :
    (A : Type 0) (n size : ℕ) (text message : Bytes) → Leaves n (fail {A = A} size text message)
unfolding Leaves
fail-Leaves A n size text message = tt

pub >>=-Leaves :
    {A B : Type 0} (n m : ℕ) (p : Parsed A) (f : A → Bytes → Parsed B)
    → Leaves n p
    → ((a : A) (rest : Bytes) → length rest ≤ n → Leaves m (f a rest))
    → Leaves m (p >>= f)
unfolding Leaves
>>=-Leaves n m (parsed a rest) f h k = k a rest h
>>=-Leaves n m (failed message) f h k = tt
>>=-Leaves n m out_of_fuel f h k = absurd h

pub if-Leaves :
    {A : Type 0} (n : ℕ) (b : Bool) (p q : Parsed A)
    → Leaves n p
    → Leaves n q
    → Leaves n (if b then p else q)
if-Leaves n true p q h k = h
if-Leaves n false p q h k = k

pub Leaves-mono : {A : Type 0} (n m : ℕ) (p : Parsed A) → n ≤ m → Leaves n p → Leaves m p
unfolding Leaves
Leaves-mono n m (parsed a rest) h k = omega arith
Leaves-mono n m (failed message) h k = tt
Leaves-mono n m out_of_fuel h k = absurd k

pub length-skip_space : (text : Bytes) → length (skip_space text) ≤ length text
unfolding skip_space
length-skip_space [] = omega arith
length-skip_space (c ∷ cs) = elim (Bool-cases (is_space c)) [
  | inl e ↦ rw e (omega (arith, length-skip_space cs))
  | inr e ↦ rw e (omega arith)
]

pub consume-cases :
    (c : ℕ) (text : Bytes)
    → (consume c text ≡ none)
      ⊎ ((rest : Bytes) × (consume c text ≡ some rest) × (suc (length rest) ≡ length text))
unfolding consume
consume-cases c [] = inl refl
consume-cases c (d ∷ cs) = elim (Bool-cases (d == c)) [
  | inl e ↦ inr (cs, rw e refl, refl)
  | inr e ↦ inl (rw e refl)
]

hex_digits-Leaves :
    (size n value : ℕ) (text : Bytes) → Leaves (length text) (hex_digits size n value text)
unfolding hex_digits Leaves
hex_digits-Leaves size zero value text = omega arith
hex_digits-Leaves size (suc n) value [] = tt
hex_digits-Leaves size (suc n) value (c ∷ cs) = elim (Option-cases (hex_value c)) [
  | inl e ↦ rw (e, hex_digits) tt
  | inr (digit, e) ↦
      rw (e, hex_digits)
        (Leaves-mono (length cs) (suc (length cs)) _ (omega arith)
          (hex_digits-Leaves size n (value * 2 ^ 4 + digit) cs))
]

parse_hex4-Leaves : (size : ℕ) (text : Bytes) → Leaves (length text) (parse_hex4 size text)
unfolding parse_hex4
parse_hex4-Leaves size text =
    if-Leaves (length text) (ltb (length text) 4) _ _ (fail-Leaves ℕ _ size text _)
      (hex_digits-Leaves size 4 0 text)

low_surrogate-Leaves :
    (size high : ℕ) (text : Bytes) → Leaves (length text) (low_surrogate size high text)
unfolding low_surrogate
low_surrogate-Leaves size high text =
    if-Leaves (length text) (starts_with text (bytes "\\u")) _ _
      (>>=-Leaves (length (drop 2 text)) (length text) (parse_hex4 size (drop 2 text)) _
        (parse_hex4-Leaves size (drop 2 text))
        λ low rest h.
          if-Leaves (length text) (ltb low 0xdc00 || ltb 0xdfff low) _ _
            (fail-Leaves ℕ _ size rest _)
            (parsed-Leaves (length text) _ rest (omega (arith, length-drop 2 text))))
      (fail-Leaves ℕ _ size text _)

parse_unicode-Leaves : (size : ℕ) (text : Bytes) → Leaves (length text) (parse_unicode size text)
unfolding parse_unicode
parse_unicode-Leaves size text =
    >>=-Leaves (length text) (length text) (parse_hex4 size text) _ (parse_hex4-Leaves size text)
      λ codepoint rest h.
        if-Leaves (length text) (leb 0xd800 codepoint && leb codepoint 0xdbff) _ _
          (Leaves-mono (length rest) (length text) _ h (low_surrogate-Leaves size codepoint rest))
          (parsed-Leaves (length text) codepoint rest h)

parse_escape-Leaves : (size : ℕ) (text : Bytes) → Leaves (length text) (parse_escape size text)
unfolding parse_escape Leaves
parse_escape-Leaves size [] = tt
parse_escape-Leaves size (c ∷ cs) = elim (Option-cases (simple_escape c)) [
  | inr (escaped, e) ↦ rw (e, parse_escape) (omega arith)
  | inl e ↦
      rw (e, parse_escape)
        (if-Leaves (suc (length cs)) (c == b'u') _ _
          (>>=-Leaves (length cs) (suc (length cs)) (parse_unicode size cs) _
            (parse_unicode-Leaves size cs) λ codepoint rest h. omega arith)
          tt)
]

string_bytes-Leaves :
    (size fuel : ℕ) (text : Bytes)
    → length text < fuel
    → Leaves (length text) (string_bytes size fuel text)
unfolding string_bytes Leaves
string_bytes-Leaves size zero text h = absurd (omega arith)
string_bytes-Leaves size (suc fuel) [] h = tt
string_bytes-Leaves size (suc fuel) (c ∷ cs) h =
    of_next (next_of c) λ more k. string_bytes-Leaves size fuel more k
  where
    of_next :
        (next : Next)
        → ((more : Bytes) → length more < fuel → Leaves (length more) (string_bytes size fuel more))
        → Leaves (suc (length cs)) (elim next as (λ x. Parsed Bytes) [
          | closes ↦ parsed [] cs
          | refused ↦ fail size cs (bytes "control character in JSON string")
          | plain ↦ string_bytes size fuel cs >>= λ output rest. parsed (c ∷ output) rest
          | escapes ↦ parse_escape size cs >>= λ escaped more.
              string_bytes size fuel more >>= λ output rest. parsed (escaped ++ output) rest
        ])
    of_next closes ih = omega arith
    of_next refused ih = tt
    of_next plain ih =
        >>=-Leaves (length cs) (suc (length cs)) (string_bytes size fuel cs) _ (ih cs (omega arith))
          λ output rest k. omega arith
    of_next escapes ih =
        >>=-Leaves (length cs) (suc (length cs)) (parse_escape size cs) _
          (parse_escape-Leaves size cs)
          λ escaped more k.
            >>=-Leaves (length more) (suc (length cs)) (string_bytes size fuel more) _
              (ih more (omega arith)) λ output rest l. omega arith

pub parse_string-Leaves :
    (size : ℕ) (c : ℕ) (cs : Bytes) → Leaves (length cs) (parse_string size (c ∷ cs))
unfolding parse_string
parse_string-Leaves size c cs = elim (consume-cases b'"' (c ∷ cs)) [
  | inl e ↦ rw (e, parse_string) (fail-Leaves Bytes _ size (c ∷ cs) _)
  | inr (rest, e, h) ↦
      rw (e, parse_string)
        (Leaves-mono (length rest) (length cs) _ (omega arith)
          (string_bytes-Leaves size (suc (length rest)) rest (omega arith)))
]

pub parse_literal-Leaves :
    {A : Type 0} (size : ℕ) (literal : Bytes) (value : A) (text : Bytes)
    → 0 < length literal
    → Leaves (length text - 1) (parse_literal size literal value text)
unfolding parse_literal
parse_literal-Leaves {A} size literal value text h =
    if-Leaves (length text - 1) (starts_with text literal) _ _
      (parsed-Leaves (length text - 1) value (drop (length literal) text)
        (omega (arith, length-drop (length literal) text)))
      (fail-Leaves A _ size text _)

length-digits_first :
    (text : Bytes) → length (digits_first text).0 + length (digits_first text).1 ≡ length text
unfolding digits_first
length-digits_first [] = omega arith
length-digits_first (c ∷ cs) = elim (Bool-cases (is_digit c)) [
  | inl e ↦ rw (e, digits_first) (omega (arith, length-digits_first cs))
  | inr e ↦ rw (e, digits_first) (omega arith)
]

some_digits-Leaves :
    (size : ℕ) (message text : Bytes) → Leaves (length text - 1) (some_digits size message text)
unfolding some_digits is_empty
some_digits-Leaves size message text =
    let whole = length-digits_first text in of_digits (digits_first text).0 whole
  where
    of_digits :
        (digits : Bytes)
        → length digits + length (digits_first text).1 ≡ length text
        → Leaves (length text - 1) (
            if is_empty digits then fail size text message else parsed digits (digits_first text).1)
    of_digits [] h = fail-Leaves Bytes _ size text message
    of_digits (c ∷ cs) h = parsed-Leaves _ (c ∷ cs) (digits_first text).1 (omega arith)

magnitude-Leaves : (size : ℕ) (text : Bytes) → Leaves (length text - 1) (magnitude size text)
unfolding magnitude
magnitude-Leaves size [] = fail-Leaves Bytes 0 size [] invalid_number
magnitude-Leaves size (c ∷ cs) =
    if-Leaves (length (c ∷ cs) - 1) (c == b'0') _ _ (parsed-Leaves _ _ cs (omega arith))
      (some_digits-Leaves size invalid_number (c ∷ cs))

pub integer_part-Leaves :
    (size : ℕ) (text : Bytes) → Leaves (length text - 1) (integer_part size text)
unfolding integer_part
integer_part-Leaves size text = elim (consume-cases b'-' text) [
  | inl e ↦ rw (e, integer_part) (magnitude-Leaves size text)
  | inr (rest, e, h) ↦
      rw (e, integer_part)
        (>>=-Leaves (length rest - 1) (length text - 1) (magnitude size rest) _
          (magnitude-Leaves size rest) λ digits more k. parsed-Leaves _ _ more (omega arith))
]

pub fraction_part-Leaves :
    (size : ℕ) (text : Bytes) → Leaves (length text) (fraction_part size text)
unfolding fraction_part
fraction_part-Leaves size text = elim (consume-cases b'.' text) [
  | inl e ↦ rw (e, fraction_part) (parsed-Leaves _ [] text (omega arith))
  | inr (rest, e, h) ↦
      rw (e, fraction_part)
        (>>=-Leaves (length rest - 1) (length text) (some_digits size invalid_number rest) _
          (some_digits-Leaves size invalid_number rest)
          λ digits more k. parsed-Leaves _ _ more (omega arith))
]

length-exponent_sign : (text : Bytes) → length (exponent_sign text).1 ≤ length text
unfolding exponent_sign
length-exponent_sign [] = omega arith
length-exponent_sign (c ∷ cs) = elim (Bool-cases ((c == b'+') || (c == b'-'))) [
  | inl e ↦ rw (e, exponent_sign) (omega arith)
  | inr e ↦ rw (e, exponent_sign) (omega arith)
]

pub exponent_part-Leaves :
    (size : ℕ) (text : Bytes) → Leaves (length text) (exponent_part size text)
unfolding exponent_part
exponent_part-Leaves size [] = parsed-Leaves 0 [] [] (omega arith)
exponent_part-Leaves size (c ∷ cs) =
    if-Leaves (length (c ∷ cs)) ((c == b'e') || (c == b'E')) _ _
      (>>=-Leaves (length (exponent_sign cs).1 - 1) (length (c ∷ cs))
        (some_digits size (bytes "invalid JSON exponent") (exponent_sign cs).1) _
        (some_digits-Leaves size _ (exponent_sign cs).1)
        λ digits more k. parsed-Leaves _ _ more (omega (arith, length-exponent_sign cs)))
      (parsed-Leaves _ [] (c ∷ cs) (omega arith))
