-- ===== src/Json/RoundTrip/Numbers.antt =====
-- src/core/json_codec.cpp: `parse_number` on the text of an integer.
use runi.Prelude.Strings.{digits_of}
use runi.Prelude.{
  ℕ, zero, suc, ◌+◌, ◌-◌, ◌*◌, ◌/◌, ◌%◌, ◌^◌, ◌<◌, ◌≡◌, refl, ◌∙◌, true, false, Option, none, some,
  [], ◌∷◌, ◌++◌, Bytes, ltb, leb, ◌==◌, arith, is_empty, to_string, Bool-cases, inl, inr,
}
use runi.Json.Value.{ℤ, pos, negsuc, integer}
use runi.Json.Reader.{
  parsed, consume, is_digit, digits_first, some_digits, magnitude, integer_part, fraction_part,
  exponent_part, decimal, from_chars,
}
use runi.Json.Parser.{number_value, parse_number}
use runi.Json.Printer.{integer_text}

abbrev pub AllDigits : Bytes → Type 0
AllDigits [] = Unit {0}
AllDigits (c ∷ cs) = (is_digit c ≡ true) × AllDigits cs

-- No number goes on with these bytes.
abbrev pub Ends : Bytes → Type 0
Ends [] = Unit {0}
Ends (c ∷ cs) =
    (is_digit c ≡ false) × ((c == b'.') ≡ false) × ((c == b'e') ≡ false) × ((c == b'E') ≡ false)

AllDigits-append : (a b : Bytes) → AllDigits a → AllDigits b → AllDigits (a ++ b)
AllDigits-append [] b h k = k
AllDigits-append (c ∷ a) b h k = (h.0, AllDigits-append a b h.1 k)

decimal-append :
    (value : ℕ) (digits : Bytes) (c : ℕ)
    → decimal value (digits ++ c ∷ []) ≡ decimal value digits * 10 + (c - b'0')
unfolding decimal
decimal-append value [] c = refl
decimal-append value (d ∷ digits) c = decimal-append (value * 10 + (d - b'0')) digits c

digits_of-AllDigits : (fuel n : ℕ) → AllDigits (digits_of fuel n)
unfolding digits_of is_digit
digits_of-AllDigits zero n = tt
digits_of-AllDigits (suc fuel) n = elim (Bool-cases (ltb n 10)) [
  | inl e ↦ rw e (ground arith, tt)
  | inr e ↦ rw e (
      AllDigits-append (digits_of fuel (n / 10)) ((48 + n % 10) ∷ [])
        (digits_of-AllDigits fuel (n / 10)) (ground arith, tt))
]

decimal-digits_of : (fuel n : ℕ) → n < fuel → decimal 0 (digits_of fuel n) ≡ n
unfolding digits_of decimal
decimal-digits_of zero n h = absurd (omega arith)
decimal-digits_of (suc fuel) n h = elim (Bool-cases (ltb n 10)) [
  | inl e ↦ rw e (ground arith)
  | inr e ↦ rw e (
      decimal-append 0 (digits_of fuel (n / 10)) (48 + n % 10)
      ∙ ground (arith, e, decimal-digits_of fuel (n / 10) (ground (arith, e))))
]

-- The first digit is not zero, unless it is the only one.
first_digit :
    (fuel n : ℕ)
    → n < fuel
    → 0 < n
    → (c : ℕ) × (cs : Bytes) × (digits_of fuel n ≡ c ∷ cs) × ((c == b'0') ≡ false)
unfolding digits_of
first_digit zero n h p = absurd (omega arith)
first_digit (suc fuel) n h p = elim (Bool-cases (ltb n 10)) [
  | inl e ↦ rw e (48 + n, [], refl, ground arith)
  | inr e ↦
      let (c, cs, there, head) =
        first_digit fuel (n / 10) (ground (arith, e)) (ground (arith, e)) in
      rw (e, there) (c, cs ++ (48 + n % 10) ∷ [], refl, head)
]

digits_first-append :
    (digits rest : Bytes)
    → AllDigits digits
    → Ends rest
    → digits_first (digits ++ rest) ≡ (digits, rest)
unfolding digits_first
digits_first-append [] [] d e = refl
digits_first-append [] (c ∷ rest) d (n, p, l, u) = rw n refl
digits_first-append (c ∷ digits) rest (h, d) e = rw (h, digits_first-append digits rest d e) refl

magnitude-to_string :
    (size n : ℕ) (rest : Bytes)
    → Ends rest
    → magnitude size (to_string n ++ rest) ≡ parsed (to_string n) rest
unfolding magnitude to_string digits_of some_digits is_empty
magnitude-to_string size zero rest e = refl
magnitude-to_string size (suc n) rest e =
    let (c, cs, there, head) = first_digit (suc (suc n)) (suc n) (omega arith) (omega arith) in
    let whole : AllDigits (c ∷ cs) = rw there at (digits_of-AllDigits (suc (suc n)) (suc n)) in
    rw (there, head, digits_first-append (c ∷ cs) rest whole e) refl

-- A number starts with a digit.
pub to_string_head : (n : ℕ) → (c : ℕ) × (cs : Bytes) × (to_string n ≡ c ∷ cs) × (is_digit c ≡ true)
unfolding to_string digits_of is_digit
to_string_head zero = (48, [], refl, refl)
to_string_head (suc n) =
    let (c, cs, there, head) = first_digit (suc (suc n)) (suc n) (omega arith) (omega arith) in
    let whole : AllDigits (c ∷ cs) = rw there at (digits_of-AllDigits (suc (suc n)) (suc n)) in
    (c, cs, there, whole.0)

-- The range of `std::int64_t`.
abbrev pub InRange : ℤ → Type 0
InRange (pos n) = n < 2 ^ 63
InRange (negsuc n) = n < 2 ^ 63

pub consume-other :
    (expected c : ℕ) (cs : Bytes) → (c == expected) ≡ false → consume expected (c ∷ cs) ≡ none
unfolding consume
consume-other expected c cs h = rw h refl

no_more :
    (size : ℕ) (rest : Bytes)
    → Ends rest
    → (fraction_part size rest ≡ parsed [] rest) × (exponent_part size rest ≡ parsed [] rest)
unfolding fraction_part exponent_part consume
no_more size [] e = (refl, refl)
no_more size (c ∷ rest) (d, p, l, u) =
    (rw (consume-other b'.' c rest p, fraction_part) refl, rw (l, u) refl)

not_minus : (c : ℕ) → is_digit c ≡ true → (c == b'-') ≡ false
unfolding is_digit
not_minus c h = ground arith

positive_part :
    (size n : ℕ) (rest : Bytes)
    → Ends rest
    → integer_part size (to_string n ++ rest) ≡ parsed (to_string n) rest
unfolding integer_part
positive_part size n rest e =
    let (c, cs, there, digit) = to_string_head n in
    let other : consume b'-' (to_string n ++ rest) ≡ none =
      rw there (consume-other b'-' c (cs ++ rest) (not_minus c digit)) in
    rw (other, integer_part) (magnitude-to_string size n rest e)

negative_part :
    (size n : ℕ) (rest : Bytes)
    → Ends rest
    → integer_part size (b'-' ∷ to_string n ++ rest) ≡ parsed (b'-' ∷ to_string n) rest
unfolding integer_part consume
negative_part size n rest e = rw (magnitude-to_string size n rest e) refl

pub integer_part-integer_text :
    (size : ℕ) (z : ℤ) (rest : Bytes)
    → Ends rest
    → integer_part size (integer_text z ++ rest) ≡ parsed (integer_text z) rest
unfolding integer_text
integer_part-integer_text size (pos n) rest e = positive_part size n rest e
integer_part-integer_text size (negsuc n) rest e = negative_part size (suc n) rest e

decimal-to_string : (n : ℕ) → decimal 0 (to_string n) ≡ n
unfolding to_string
decimal-to_string n = decimal-digits_of (suc n) n (omega arith)

pub from_chars-integer_text : (z : ℤ) → InRange z → from_chars (integer_text z) ≡ some z
unfolding from_chars integer_text
from_chars-integer_text (pos n) h =
    let (c, cs, there, digit) = to_string_head n in
    let other : consume b'-' (to_string n) ≡ none =
      rw there (consume-other b'-' c cs (not_minus c digit)) in
    let below : ltb n (2 ^ 63) ≡ true = ground arith in
    rw (other, decimal-to_string n, below, from_chars) refl
from_chars-integer_text (negsuc n) h =
    let below : leb (suc n) (2 ^ 63) ≡ true = ground arith in
    let less : suc n - 1 ≡ n = omega arith in
    let positive : (suc n == 0) ≡ false = ground arith in
    unfold consume in rw (decimal-to_string (suc n), below, less, positive) refl

-- An integer in range is read back, before anything that no number goes on with.
pub parse_number-integer_text :
    {D : Type 0} (strtod : Bytes → Option D) (size : ℕ) (z : ℤ) (rest : Bytes)
    → InRange z
    → Ends rest
    → parse_number strtod size (integer_text z ++ rest) ≡ parsed (integer z) rest
unfolding parse_number number_value is_empty
parse_number-integer_text strtod size z rest h e =
    rw
      (
        integer_part-integer_text size z rest e,
        (no_more size rest e).0,
        (no_more size rest e).1,
        from_chars-integer_text z h,
      )
      refl
