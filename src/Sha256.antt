-- ===== src/Sha256.antt =====
-- src/core/sha256.cpp: `sha256`. A word is a number below 2 ^ 32. The proofs are in the module below.
pub mod Shape
use Prim.Native.Nat.{bit_and, bit_or, bit_xor}
use mathlib.Core.List.{reverse}
use runi.Prelude.{
  ℕ, zero, suc, ◌+◌, ◌-◌, ◌*◌, ◌/◌, ◌%◌, ◌^◌, Bool, true, false, List, [], ◌∷◌, ◌++◌, Bytes, bytes,
  ◌==◌, if◌then◌else◌, length, take, drop,
}
use runi.Json.Printer.{hex_digit}

abbrev pub k : List ℕ
k =
    0x428a2f98 ∷ 0x71374491 ∷ 0xb5c0fbcf ∷ 0xe9b5dba5 ∷ 0x3956c25b ∷ 0x59f111f1 ∷ 0x923f82a4
    ∷ 0xab1c5ed5 ∷ 0xd807aa98 ∷ 0x12835b01 ∷ 0x243185be ∷ 0x550c7dc3 ∷ 0x72be5d74 ∷ 0x80deb1fe
    ∷ 0x9bdc06a7 ∷ 0xc19bf174 ∷ 0xe49b69c1 ∷ 0xefbe4786 ∷ 0x0fc19dc6 ∷ 0x240ca1cc ∷ 0x2de92c6f
    ∷ 0x4a7484aa ∷ 0x5cb0a9dc ∷ 0x76f988da ∷ 0x983e5152 ∷ 0xa831c66d ∷ 0xb00327c8 ∷ 0xbf597fc7
    ∷ 0xc6e00bf3 ∷ 0xd5a79147 ∷ 0x06ca6351 ∷ 0x14292967 ∷ 0x27b70a85 ∷ 0x2e1b2138 ∷ 0x4d2c6dfc
    ∷ 0x53380d13 ∷ 0x650a7354 ∷ 0x766a0abb ∷ 0x81c2c92e ∷ 0x92722c85 ∷ 0xa2bfe8a1 ∷ 0xa81a664b
    ∷ 0xc24b8b70 ∷ 0xc76c51a3 ∷ 0xd192e819 ∷ 0xd6990624 ∷ 0xf40e3585 ∷ 0x106aa070 ∷ 0x19a4c116
    ∷ 0x1e376c08 ∷ 0x2748774c ∷ 0x34b0bcb5 ∷ 0x391c0cb3 ∷ 0x4ed8aa4a ∷ 0x5b9cca4f ∷ 0x682e6ff3
    ∷ 0x748f82ee ∷ 0x78a5636f ∷ 0x84c87814 ∷ 0x8cc70208 ∷ 0x90befffa ∷ 0xa4506ceb ∷ 0xbef9a3f7
    ∷ 0xc67178f2 ∷ []

unfoldable pub rotate_right : ℕ → ℕ → ℕ
rotate_right value count = bit_or (value / 2 ^ count) (value * 2 ^ (32 - count) % 2 ^ 32)

-- The zeros that make the length 56 more than a multiple of 64; fewer than 64 are needed.
unfoldable pub zeros : ℕ → ℕ → Bytes
zeros zero size = []
zeros (suc fuel) size = let rest = zeros fuel (suc size) in if size % 64 == 56 then [] else 0 ∷ rest

-- The low bytes of a number, the highest first.
unfoldable pub big_endian : ℕ → ℕ → Bytes
big_endian zero value = []
big_endian (suc n) value = value / 2 ^ (8 * n) % 2 ^ 8 ∷ big_endian n value

-- The text with its padding and its length in bits.
unfoldable pub padded : Bytes → Bytes
unfolding zeros big_endian
padded text =
    text ++ (0x80 ∷ zeros 64 (suc (length text)) ++ big_endian 8 (length text * 8 % 2 ^ 64))

-- The words of a block of bytes.
unfoldable pub words_of : Bytes → List ℕ
words_of (b0 ∷ b1 ∷ b2 ∷ b3 ∷ rest) =
    bit_or (bit_or (bit_or (b0 * 2 ^ 24) (b1 * 2 ^ 16)) (b2 * 2 ^ 8)) b3 ∷ words_of rest
words_of _ = []

-- `words[index - n]`, with the latest word first.
unfoldable pub back : ℕ → List ℕ → ℕ
back n [] = 0
back zero (w ∷ ws) = 0
back (suc zero) (w ∷ ws) = w
back (suc (suc n)) (w ∷ ws) = back (suc n) ws

unfoldable pub next_word : List ℕ → ℕ
unfolding back rotate_right
next_word words =
    let w15 = back 15 words in
    let w2 = back 2 words in
    let s0 = bit_xor (bit_xor (rotate_right w15 7) (rotate_right w15 18)) (w15 / 2 ^ 3) in
    let s1 = bit_xor (bit_xor (rotate_right w2 17) (rotate_right w2 19)) (w2 / 2 ^ 10) in
    (back 16 words + s0 + back 7 words + s1) % 2 ^ 32

-- As many words more, the latest first.
unfoldable pub expand : ℕ → List ℕ → List ℕ
unfolding next_word
expand zero words = words
expand (suc n) words = expand n (next_word words ∷ words)

-- The 64 words of a block.
unfoldable pub schedule : Bytes → List ℕ
unfolding words_of expand
schedule block = reverse (expand 48 (reverse (words_of block)))

pub record State : Type 0 where
  pub a : ℕ
  pub b : ℕ
  pub c : ℕ
  pub d : ℕ
  pub e : ℕ
  pub f : ℕ
  pub g : ℕ
  pub h : ℕ

abbrev pub initial_state : State
initial_state = record {
  a = 0x6a09e667;
  b = 0xbb67ae85;
  c = 0x3c6ef372;
  d = 0xa54ff53a;
  e = 0x510e527f;
  f = 0x9b05688c;
  g = 0x1f83d9ab;
  h = 0x5be0cd19;
}

unfoldable pub round : State → ℕ → ℕ → State
unfolding rotate_right
round s constant word =
    let s1 = bit_xor (bit_xor (rotate_right s.e 6) (rotate_right s.e 11)) (rotate_right s.e 25) in
    let choice = bit_xor (bit_and s.e s.f) (bit_and (2 ^ 32 - 1 - s.e) s.g) in
    let temp1 = (s.h + s1 + choice + constant + word) % 2 ^ 32 in
    let s0 = bit_xor (bit_xor (rotate_right s.a 2) (rotate_right s.a 13)) (rotate_right s.a 22) in
    let majority = bit_xor (bit_xor (bit_and s.a s.b) (bit_and s.a s.c)) (bit_and s.b s.c) in
    let temp2 = (s0 + majority) % 2 ^ 32 in
    record {
      a = (temp1 + temp2) % 2 ^ 32;
      b = s.a;
      c = s.b;
      d = s.c;
      e = (s.d + temp1) % 2 ^ 32;
      f = s.e;
      g = s.f;
      h = s.g;
    }

unfoldable pub rounds : List ℕ → List ℕ → State → State
unfolding round
rounds (constant ∷ constants) (word ∷ words) s = rounds constants words (round s constant word)
rounds _ _ s = s

unfoldable pub add_state : State → State → State
add_state s t = record {
  a = (s.a + t.a) % 2 ^ 32;
  b = (s.b + t.b) % 2 ^ 32;
  c = (s.c + t.c) % 2 ^ 32;
  d = (s.d + t.d) % 2 ^ 32;
  e = (s.e + t.e) % 2 ^ 32;
  f = (s.f + t.f) % 2 ^ 32;
  g = (s.g + t.g) % 2 ^ 32;
  h = (s.h + t.h) % 2 ^ 32;
}

-- The loop over the blocks, of which there are as many as the fuel.
unfoldable pub process : ℕ → Bytes → State → State
unfolding schedule rounds add_state
process zero text s = s
process (suc n) text s =
    process n (drop 64 text) (add_state s (rounds k (schedule (take 64 text)) s))

-- `std::setw(8) << std::hex`.
unfoldable pub hex_word : ℕ → ℕ → Bytes
unfolding hex_digit
hex_word zero value = []
hex_word (suc n) value = hex_digit (value / 2 ^ (4 * n) % 2 ^ 4) ∷ hex_word n value

unfoldable pub hex_words : List ℕ → Bytes
unfolding hex_word
hex_words [] = []
hex_words (value ∷ values) = hex_word 8 value ++ hex_words values

unfoldable pub hex_state : State → Bytes
unfolding hex_words
hex_state s = hex_words (s.a ∷ s.b ∷ s.c ∷ s.d ∷ s.e ∷ s.f ∷ s.g ∷ s.h ∷ [])

unfoldable pub sha256 : Bytes → Bytes
unfolding padded process hex_state
sha256 text = hex_state (process (length (padded text) / 64) (padded text) initial_state)
