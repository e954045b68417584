-- ===== src/Json/Printer.antt =====
-- src/core/json_codec.cpp: `append_json` and its callers. What a function appends is what it returns.
use Prim.Native.Nat.{bit_and, bit_or}
use runi.Prelude.{
  ℕ, zero, suc, ◌+◌, ◌-◌, ◌*◌, ◌/◌, ◌%◌, ◌^◌, Bool, true, false, ◌||◌, ◌&&◌, not, Option, none,
  some, [], ◌∷◌, ◌++◌, Bytes, bytes, ltb, leb, ◌==◌, if◌then◌else◌, length, replicate, to_string,
}
use runi.Json.Value.{
  JsonValue, Items, Fields, ℤ, pos, negsuc, null, bool, integer, real, string, array, object, nil,
  cons, end, field,
}

-- `hex[nibble]`.
unfoldable pub hex_digit : ℕ → ℕ
hex_digit nibble = if ltb nibble 10 then b'0' + nibble else b'a' + (nibble - 10)

-- `append_u16`.
unfoldable pub u16_escape : ℕ → Bytes
unfolding hex_digit
u16_escape codepoint =
    b'\\'
    ∷ b'u'
    ∷ hex_digit (codepoint / 2 ^ 12 % 2 ^ 4)
    ∷ hex_digit (codepoint / 2 ^ 8 % 2 ^ 4)
    ∷ hex_digit (codepoint / 2 ^ 4 % 2 ^ 4)
    ∷ hex_digit (codepoint % 2 ^ 4)
    ∷ []

-- The bits and the number of bytes that the first byte of a character announces, if there are as many.
unfoldable pub lead_byte : ℕ → Bytes → ℕ × ℕ
lead_byte c cs =
    if (bit_and c 0xe0 == 0xc0) && leb 1 (length cs)
    then (bit_and c 0x1f, 1)
    else if (bit_and c 0xf0 == 0xe0) && leb 2 (length cs)
    then (bit_and c 0x0f, 2)
    else if (bit_and c 0xf8 == 0xf0) && leb 3 (length cs)
    then (bit_and c 0x07, 3)
    else (0xfffd, 0)

-- The continuation bytes, with the code point so far; `none` when one of them is none.
unfoldable pub continuations : ℕ → ℕ → Bytes → Option (ℕ × Bytes)
continuations zero codepoint cs = some (codepoint, cs)
continuations (suc n) codepoint [] = none
continuations (suc n) codepoint (c ∷ cs) =
    let rest = continuations n (bit_or (codepoint * 2 ^ 6) (bit_and c 0x3f)) cs in
    if bit_and c 0xc0 == 0x80 then rest else none

unfoldable pub codepoint_escape : ℕ → Bytes
unfolding u16_escape
codepoint_escape codepoint =
    if leb codepoint 0xffff
    then u16_escape codepoint
    else u16_escape (0xd800 + (codepoint - 0x10000) / 2 ^ 10)
      ++ u16_escape (0xdc00 + (codepoint - 0x10000) % 2 ^ 10)

-- A byte of 0x80 or more with `ensure_ascii`: its escape, and the bytes that are left.
unfoldable pub wide_escape : ℕ → Bytes → Bytes × Bytes
unfolding lead_byte continuations codepoint_escape
wide_escape c cs =
    let (bits, count) = lead_byte c cs in
    if count == 0 then (u16_escape 0xfffd, cs) else elim (continuations count bits cs) [
      | none ↦ (u16_escape 0xfffd, cs)
      | some (codepoint, rest) ↦ (codepoint_escape codepoint, rest)
    ]

-- The cases of the `switch` before its default, with the letter after the backslash.
unfoldable pub short_escape : ℕ → Option ℕ
short_escape c =
    if c == b'"'
    then some b'"'
    else if c == b'\\'
    then some b'\\'
    else if c == 8
    then some b'b'
    else if c == 12
    then some b'f'
    else if c == b'\n'
    then some b'n'
    else if c == b'\r'
    then some b'r'
    else if c == b'\t'
    then some b't'
    else none

-- One pass of the loop of `append_escaped`: what it appends, and the bytes that are left.
unfoldable pub escape_next : Bool → ℕ → Bytes → Bytes × Bytes
unfolding short_escape hex_digit wide_escape
escape_next ensure_ascii c cs = elim (short_escape c) [
  | some letter ↦ (b'\\' ∷ letter ∷ [], cs)
  | none ↦
      if ltb c 0x20
      then (bytes "\\u00" ++ hex_digit (c / 2 ^ 4) ∷ hex_digit (c % 2 ^ 4) ∷ [], cs)
      else if not ensure_ascii || ltb c 0x80
      then (c ∷ [], cs)
      else wide_escape c cs
]

-- The loop; the fuel is the number of bytes, of which each pass takes one or more.
unfoldable pub escape_all : Bool → ℕ → Bytes → Bytes
unfolding escape_next
escape_all ensure_ascii zero text = []
escape_all ensure_ascii (suc fuel) [] = []
escape_all ensure_ascii (suc fuel) (c ∷ cs) =
    (escape_next ensure_ascii c cs).0
    ++ escape_all ensure_ascii fuel (escape_next ensure_ascii c cs).1

-- `append_escaped`.
unfoldable pub escaped : Bool → Bytes → Bytes
unfolding escape_all
escaped ensure_ascii text = b'"' ∷ escape_all ensure_ascii (length text) text ++ b'"' ∷ []

-- `std::to_string` of a `std::int64_t`.
unfoldable pub integer_text : ℤ → Bytes
integer_text (pos n) = to_string n
integer_text (negsuc n) = b'-' ∷ to_string (suc n)

has_point : Bytes → Bool
has_point [] = false
has_point (c ∷ cs) = (c == b'.') || ((c == b'e') || ((c == b'E') || has_point cs))

-- The text of a `double`; `to_chars` is `std::to_chars` into 64 bytes, `none` when they do not hold it.
unfoldable pub double_text : {D : Type 0} → (D → Option Bytes) → D → Bytes
unfolding has_point
double_text to_chars value = elim (to_chars value) [
  | none ↦ bytes "0.0"
  | some number ↦ if has_point number then number else number ++ bytes ".0"
]

-- The last three arguments of `append_json`; the indent is `none` when it is negative.
pub record Style : Type 0 where
  pub indent : Option ℕ
  pub ensure_ascii : Bool
  pub spaced : Bool

-- A new line with its indentation, when the style is pretty.
unfoldable pub new_line : Option ℕ → ℕ → Bytes
new_line none depth = []
new_line (some width) depth = b'\n' ∷ replicate (width * depth) b' '

unfoldable pub comma : Bool → Bytes
comma first = if first then [] else b',' ∷ []

is_pretty : Option ℕ → Bool
is_pretty none = false
is_pretty (some width) = true

unfoldable pub colon : Style → Bytes
unfolding is_pretty
colon style = if is_pretty style.indent || style.spaced then bytes ": " else bytes ":"

-- `real_text` is what is appended for a `double`, as by `double_text`.
module _ {D : Type 0} (real_text : D → Bytes) (style : Style) where
  -- The end of an array or an object, which is on a line of its own unless it is empty.
  unfoldable pub close_items : ℕ → Items D → Bytes
  unfolding new_line
  close_items depth nil = b']' ∷ []
  close_items depth (cons item items) = new_line style.indent depth ++ b']' ∷ []

  unfoldable pub close_fields : ℕ → Fields D → Bytes
  unfolding new_line
  close_fields depth end = b'}' ∷ []
  close_fields depth (field key item fields) = new_line style.indent depth ++ b'}' ∷ []

  unfoldable mutual
    unfolding integer_text escaped comma new_line colon close_items close_fields

    pub print : ℕ → JsonValue D → Bytes
    print depth null = bytes "null"
    print depth (bool true) = bytes "true"
    print depth (bool false) = bytes "false"
    print depth (integer n) = integer_text n
    print depth (real d) = real_text d
    print depth (string s) = escaped style.ensure_ascii s
    print depth (array items) = b'[' ∷ print_items depth true items ++ close_items depth items
    print depth (object fields) = b'{' ∷ print_fields depth true fields ++ close_fields depth fields

    pub print_items : ℕ → Bool → Items D → Bytes
    print_items depth first nil = []
    print_items depth first (cons item items) =
        comma first
        ++ (new_line style.indent (suc depth)
            ++ (print (suc depth) item ++ print_items depth false items))

    pub print_fields : ℕ → Bool → Fields D → Bytes
    print_fields depth first end = []
    print_fields depth first (field key item fields) =
        comma first
        ++ (new_line style.indent (suc depth)
            ++ (escaped style.ensure_ascii key
                ++ (colon style ++ (print (suc depth) item ++ print_fields depth false fields))))

unfoldable pub dump_json : {D : Type 0} → (D → Bytes) → Option ℕ → Bool → JsonValue D → Bytes
unfolding print
dump_json real_text indent ensure_ascii value =
    print real_text (record { indent = indent; ensure_ascii = ensure_ascii; spaced = false }) 0
      value

-- The loop of `dump_compatible_json`: a blank after each comma that is not in a string.
unfoldable pub space_commas : Bool → Bool → Bytes → Bytes
space_commas in_string is_escaped [] = []
space_commas false is_escaped (c ∷ cs) = elim (c == b'"') [
  | true ↦ c ∷ space_commas true is_escaped cs
  | false ↦ elim (c == b',') [
    | true ↦ c ∷ b' ' ∷ space_commas false is_escaped cs
    | false ↦ c ∷ space_commas false is_escaped cs
  ]
]
space_commas true true (c ∷ cs) = c ∷ space_commas true false cs
space_commas true false (c ∷ cs) = elim (c == b'\\') [
  | true ↦ c ∷ space_commas true true cs
  | false ↦ c ∷ space_commas (not (c == b'"')) false cs
]

unfoldable pub dump_compatible_json : {D : Type 0} → (D → Bytes) → Bool → JsonValue D → Bytes
unfolding print space_commas
dump_compatible_json real_text ensure_ascii value =
    space_commas false false (
      print real_text (record { indent = none; ensure_ascii = ensure_ascii; spaced = true }) 0
        value)
