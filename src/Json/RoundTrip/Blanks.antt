-- ===== src/Json/RoundTrip/Blanks.antt =====
-- src/core/json_codec.cpp: blanks in a text, and the texts that begin with neither a blank nor a bracket.
use runi.Prelude.{
  ℕ, zero, suc, ◌+◌, ◌*◌, ◌<◌, ◌≡◌, refl, true, false, Option, none, some, [], ◌∷◌, ◌++◌, Bytes,
  ◌==◌, arith, length, length-append, Bool-cases, inl, inr, replicate,
}
use runi.Json.Value.{ℤ, pos, negsuc}
use runi.Json.Reader.{Parsed, parsed, ◌>>=◌, is_space, skip_space, consume, is_digit}
use runi.Json.Parser.{token_of, opens_number}
use runi.Json.Printer.{new_line, integer_text}
use runi.Json.RoundTrip.Numbers.{Ends, to_string_head}

length-append_bytes : (a b : Bytes) → length (a ++ b) ≡ length a + length b
length-append_bytes = length-append

ruleset lengths = (arith, length-append_bytes)

-- A text that does not start with a blank or a closing bracket.
abbrev pub Starts : Bytes → Type 0
Starts [] = ⊥
Starts (c ∷ cs) = (is_space c ≡ false) × ((c == b']') ≡ false)

pub Starts-append : (a b : Bytes) → Starts a → Starts (a ++ b)
Starts-append [] b s = absurd s
Starts-append (c ∷ cs) b s = s

pub skip_space-Starts : (text : Bytes) → Starts text → skip_space text ≡ text
unfolding skip_space
skip_space-Starts [] s = absurd s
skip_space-Starts (c ∷ cs) s = rw s.0 refl

pub consume-Starts : (text : Bytes) → Starts text → consume b']' text ≡ none
unfolding consume
consume-Starts [] s = absurd s
consume-Starts (c ∷ cs) s = rw s.1 refl

pub length-Starts : (text : Bytes) → Starts text → 0 < length text
length-Starts [] s = absurd s
length-Starts (c ∷ cs) s = omega arith

pub skip_space-blanks :
    (n : ℕ) (text : Bytes) → skip_space (replicate n b' ' ++ text) ≡ skip_space text
unfolding skip_space is_space
skip_space-blanks zero text = refl
skip_space-blanks (suc n) text = skip_space-blanks n text

pub skip_space-new_line :
    (indent : Option ℕ) (depth : ℕ) (text : Bytes)
    → skip_space (new_line indent depth ++ text) ≡ skip_space text
unfolding skip_space is_space new_line
skip_space-new_line none depth text = refl
skip_space-new_line (some width) depth text = skip_space-blanks (width * depth) text

pub skip_space-skip_space : (text : Bytes) → skip_space (skip_space text) ≡ skip_space text
unfolding skip_space
skip_space-skip_space [] = refl
skip_space-skip_space (c ∷ cs) = elim (Bool-cases (is_space c)) [
  | inl e ↦ rw e (skip_space-skip_space cs)
  | inr e ↦ rw e (rw e refl)
]

pub Ends-new_line :
    (indent : Option ℕ) (depth c : ℕ) (text : Bytes)
    → Ends (c ∷ text)
    → Ends (new_line indent depth ++ c ∷ text)
unfolding new_line is_digit
Ends-new_line none depth c text e = e
Ends-new_line (some width) depth c text e = (refl, refl, refl, refl)

pub integer_text-head :
    (z : ℤ)
    → (c : ℕ) × (cs : Bytes) × (integer_text z ≡ c ∷ cs)
      × (token_of c ≡ opens_number)
      × (is_space c ≡ false)
      × ((c == b']') ≡ false)
unfolding integer_text token_of is_digit is_space
integer_text-head (pos n) =
    let (c, cs, there, digit) = to_string_head n in
    (c, cs, there, ground arith, ground arith, ground arith)
integer_text-head (negsuc n) = (b'-', _, refl, refl, refl, refl)

-- One step of a parser that succeeds.
pub >>=-parsed :
    {A B : Type 0} (p : Parsed A) (f : A → Bytes → Parsed B) (a : A) (rest : Bytes) {q : Parsed B}
    → p ≡ parsed a rest
    → f a rest ≡ q
    → p >>= f ≡ q
>>=-parsed p f a rest h k = rw h k

abbrev pub AllBlank : Bytes → Type 0
AllBlank [] = Unit {0}
AllBlank (c ∷ cs) = (is_space c ≡ true) × AllBlank cs

pub skip_space-AllBlank : (text : Bytes) → AllBlank text → skip_space text ≡ []
unfolding skip_space
skip_space-AllBlank [] h = refl
skip_space-AllBlank (c ∷ cs) (h, hs) = rw h (skip_space-AllBlank cs hs)

pub AllBlank-Ends : (text : Bytes) → AllBlank text → Ends text
unfolding is_space is_digit
AllBlank-Ends [] h = tt
AllBlank-Ends (c ∷ cs) (h, hs) = (ground arith, ground arith, ground arith, ground arith)
