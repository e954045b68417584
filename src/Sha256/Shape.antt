-- ===== src/Sha256/Shape.antt =====
-- src/core/sha256.cpp: the length of what is hashed, that no two texts are padded to the same, and the
-- form of the digest.
use mathlib.Core.List.{append_assoc, head-eq_of_cons-eq, tail-eq_of_cons-eq}
use runi.Prelude.{
  ℕ, zero, suc, ◌+◌, ◌-◌, ◌*◌, ◌/◌, ◌%◌, ◌^◌, ◌≤◌, ◌<◌, ◌≡◌, ◌≢◌, refl, sym, ap, ◌∙◌, true, ◌||◌,
  ◌&&◌, List, [], ◌∷◌, ◌++◌, Bytes, ◌==◌, leb, arith, length, length-append, Bool-cases, inl, inr,
}
use runi.Json.Printer.{hex_digit}
use runi.Sha256.{zeros, big_endian, padded, hex_word, hex_words, process, initial_state, sha256}

length-zeros :
    (fuel size : ℕ) → (120 - size % 64) % 64 ≤ fuel → (size + length (zeros fuel size)) % 64 ≡ 56
unfolding zeros
length-zeros zero size h = omega arith
length-zeros (suc fuel) size h = elim (Bool-cases (size % 64 == 56)) [
  | inl e ↦ rw e (ground arith)
  | inr e ↦
      let left : (120 - suc size % 64) % 64 ≤ fuel = ground arith in
      let rest = length-zeros fuel (suc size) left in rw e (omega arith)
]

length-big_endian : (n value : ℕ) → length (big_endian n value) ≡ n
unfolding big_endian
length-big_endian zero value = refl
length-big_endian (suc n) value = ap suc (length-big_endian n value)

abbrev padding : Bytes → Bytes
padding text = 0x80 ∷ zeros 64 (suc (length text)) ++ big_endian 8 (length text * 8 % 2 ^ 64)

pub length-padded : (text : Bytes) → length (padded text) % 64 ≡ 0
unfolding padded
length-padded text =
    let last = big_endian 8 (length text * 8 % 2 ^ 64) in
    let whole = length-append text (padding text) in
    let tail = length-append (zeros 64 (suc (length text))) last in
    let eight = length-big_endian 8 (length text * 8 % 2 ^ 64) in
    let fill = length-zeros 64 (suc (length text)) (omega arith) in omega arith

-- Two texts with as many bytes at the front are the same if they are with what follows.
append-front : (a b x y : Bytes) → a ++ x ≡ b ++ y → length a ≡ length b → (a ≡ b) × (x ≡ y)
append-front [] [] x y h k = (refl, h)
append-front [] (d ∷ b) x y h k = absurd (omega arith)
append-front (c ∷ a) [] x y h k = absurd (omega arith)
append-front (c ∷ a) (d ∷ b) x y h k =
    let (front, back) = append-front a b x y (tail-eq_of_cons-eq h) (omega arith) in
    (rw (head-eq_of_cons-eq h, front) refl, back)

big_endian-injective : (v w : ℕ) → v < 2 ^ 64 → w < 2 ^ 64 → big_endian 8 v ≡ big_endian 8 w → v ≡ w
unfolding big_endian
big_endian-injective v w h k e =
    let e0 = head-eq_of_cons-eq e in
    let t0 = tail-eq_of_cons-eq e in
    let e1 = head-eq_of_cons-eq t0 in
    let t1 = tail-eq_of_cons-eq t0 in
    let e2 = head-eq_of_cons-eq t1 in
    let t2 = tail-eq_of_cons-eq t1 in
    let e3 = head-eq_of_cons-eq t2 in
    let t3 = tail-eq_of_cons-eq t2 in
    let e4 = head-eq_of_cons-eq t3 in
    let t4 = tail-eq_of_cons-eq t3 in
    let e5 = head-eq_of_cons-eq t4 in
    let t5 = tail-eq_of_cons-eq t4 in
    let e6 = head-eq_of_cons-eq t5 in
    let e7 = head-eq_of_cons-eq (tail-eq_of_cons-eq t5) in omega arith

-- A digit or a letter from `a` to `f`.
abbrev pub AllHex : Bytes → Type 0
AllHex [] = Unit {0}
AllHex (c ∷ cs) = (((leb 48 c && leb c 57) || (leb 97 c && leb c 102)) ≡ true) × AllHex cs

hex_digit-hex :
    (n : ℕ)
    → n < 16
    → ((leb 48 (hex_digit n) && leb (hex_digit n) 57)
        || (leb 97 (hex_digit n) && leb (hex_digit n) 102))
      ≡ true
unfolding hex_digit
hex_digit-hex n h = ground arith

AllHex-append : (a b : Bytes) → AllHex a → AllHex b → AllHex (a ++ b)
AllHex-append [] b h k = k
AllHex-append (c ∷ a) b h k = (h.0, AllHex-append a b h.1 k)

hex_word-AllHex : (n value : ℕ) → (length (hex_word n value) ≡ n) × AllHex (hex_word n value)
unfolding hex_word
hex_word-AllHex zero value = (refl, tt)
hex_word-AllHex (suc n) value =
    let (size, digits) = hex_word-AllHex n value in
    (ap suc size, (hex_digit-hex (value / 2 ^ (4 * n) % 2 ^ 4) (omega arith), digits))

hex_words-AllHex :
    (values : List ℕ) → (length (hex_words values) ≡ 8 * length values) × AllHex (hex_words values)
unfolding hex_words
hex_words-AllHex [] = (refl, tt)
hex_words-AllHex (value ∷ values) =
    let (size, digits) = hex_word-AllHex 8 value in
    let (sizes, others) = hex_words-AllHex values in
    let whole = length-append (hex_word 8 value) (hex_words values) in
    (omega arith, AllHex-append (hex_word 8 value) (hex_words values) digits others)

-- The digest of any text is 64 characters, each a digit or a letter from `a` to `f`.
pub sha256-AllHex : (text : Bytes) → (length (sha256 text) ≡ 64) × AllHex (sha256 text)
unfolding sha256
sha256-AllHex text =
    let s = process (length (padded text) / 64) (padded text) initial_state in
    hex_words-AllHex (s.a ∷ s.b ∷ s.c ∷ s.d ∷ s.e ∷ s.f ∷ s.g ∷ s.h ∷ [])

padded-injective :
    (a b : Bytes) → length a < 2 ^ 61 → length b < 2 ^ 61 → padded a ≡ padded b → a ≡ b
unfolding padded
padded-injective a b h k e =
    let front : Bytes → Bytes = λ text. 0x80 ∷ zeros 64 (suc (length text)) in
    let last : Bytes → Bytes = λ text. big_endian 8 (length text * 8 % 2 ^ 64) in
    let whole : (a ++ front a) ++ last a ≡ (b ++ front b) ++ last b =
      append_assoc a (front a) (last a) ∙ (e ∙ sym (append_assoc b (front b) (last b))) in
    let size_a = length-append (a ++ front a) (last a) in
    let size_b = length-append (b ++ front b) (last b) in
    let same = ap length whole in
    let eight_a = length-big_endian 8 (length a * 8 % 2 ^ 64) in
    let eight_b = length-big_endian 8 (length b * 8 % 2 ^ 64) in
    let (fronts, lasts) =
      append-front (a ++ front a) (b ++ front b) (last a) (last b) whole (omega arith) in
    let sizes =
      big_endian-injective (length a * 8 % 2 ^ 64) (length b * 8 % 2 ^ 64) (omega arith)
        (omega arith) lasts in
    (append-front a b (front a) (front b) fronts (omega arith)).0

-- Two texts that differ, of fewer than 2 ^ 61 bytes each, are padded to byte sequences that differ:
-- what `sha256` works on tells the texts apart.
pub padded_distinct :
    (a b : Bytes) → length a < 2 ^ 61 → length b < 2 ^ 61 → a ≢ b → padded a ≢ padded b
padded_distinct a b h k n e = n (padded-injective a b h k e)
