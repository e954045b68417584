-- ===== src/Json/Parser.antt =====
-- src/core/json_codec.cpp, `Parser` and `parse_json`: recursive descent, over the bytes that are left.
-- A call spends a unit of fuel, since what a call leaves is no structural part of its input.
use runi.Prelude.{
  ℕ, zero, suc, ◌+◌, ◌*◌, true, false, ◌||◌, Option, none, some, [], ◌∷◌, ◌++◌, Bytes, bytes, ◌==◌,
  if◌then◌else◌, length, is_empty,
}
use runi.Error.{Result, success, failure, make_error, parse}
use runi.Json.Value.{
  JsonValue, Items, Fields, null, bool, integer, real, string, array, object, nil, cons, end,
  insert_field,
}
use runi.Json.Reader.{
  Parsed, parsed, failed, out_of_fuel, ◌>>=◌, fail, skip_space, consume, parse_literal,
  parse_string, integer_part, fraction_part, exponent_part, from_chars, invalid_number, is_digit,
}

-- The `switch` of `parse_value`.
pub data Token : Type 0 where
  opens_null opens_true opens_false opens_string opens_array opens_object opens_number no_token :
      Token

unfoldable pub token_of : ℕ → Token
unfolding is_digit
token_of c =
    if c == b'n'
    then opens_null
    else if c == b't'
    then opens_true
    else if c == b'f'
    then opens_false
    else if c == b'"'
    then opens_string
    else if c == b'['
    then opens_array
    else if c == b'{'
    then opens_object
    else if (c == b'-') || is_digit c
    then opens_number
    else no_token

-- `strtod` is `std::strtod` on a whole token, with `none` for a value that is not finite.
module _ {D : Type 0} (strtod : Bytes → Option D) (size : ℕ) where
  unfoldable pub real_number : Bytes → Bytes → Parsed (JsonValue D)
  real_number token rest = elim (strtod token) [
    | none ↦ fail size rest invalid_number
    | some value ↦ parsed (real value) rest
  ]

  unfoldable pub number_value : Bytes → Bytes → Bytes → Parsed (JsonValue D)
  unfolding real_number from_chars
  number_value digits more rest =
      if is_empty more
      then elim (from_chars digits) [
        | some value ↦ parsed (integer value) rest
        | none ↦ real_number digits rest
      ]
      else real_number (digits ++ more) rest

  unfoldable pub parse_number : Bytes → Parsed (JsonValue D)
  unfolding number_value integer_part fraction_part exponent_part
  parse_number text = integer_part size text >>= λ digits r1.
      fraction_part size r1 >>= λ fraction r2.
      exponent_part size r2 >>= λ exponent r3. number_value digits (fraction ++ exponent) r3

  unfoldable mutual
    unfolding token_of parse_literal parse_string parse_number skip_space consume insert_field

    pub parse_value : ℕ → Bytes → Parsed (JsonValue D)
    parse_value zero text = out_of_fuel
    parse_value (suc fuel) [] = fail size [] (bytes "unexpected end of JSON")
    parse_value (suc fuel) (c ∷ cs) = elim (token_of c) [
      | opens_null ↦ parse_literal size (bytes "null") null (c ∷ cs)
      | opens_true ↦ parse_literal size (bytes "true") (bool true) (c ∷ cs)
      | opens_false ↦ parse_literal size (bytes "false") (bool false) (c ∷ cs)
      | opens_string ↦ parse_string size (c ∷ cs) >>= λ s rest. parsed (string s) rest
      | opens_array ↦ parse_array fuel cs
      | opens_object ↦ parse_object fuel cs
      | opens_number ↦ parse_number (c ∷ cs)
      | no_token ↦ fail size (c ∷ cs) (bytes "unexpected JSON token")
    ]

    pub parse_array : ℕ → Bytes → Parsed (JsonValue D)
    parse_array zero text = out_of_fuel
    parse_array (suc fuel) text = elim (consume b']' (skip_space text)) [
      | some rest ↦ parsed (array nil) rest
      | none ↦ parse_items fuel (skip_space text) >>= λ items rest. parsed (array items) rest
    ]

    -- The loop of `parse_array`.
    pub parse_items : ℕ → Bytes → Parsed (Items D)
    parse_items zero text = out_of_fuel
    parse_items (suc fuel) text = parse_value fuel (skip_space text) >>= λ item r1.
        elim (consume b']' (skip_space r1)) [
          | some rest ↦ parsed (cons item nil) rest
          | none ↦ elim (consume b',' (skip_space r1)) [
            | none ↦ fail size (skip_space r1) (bytes "expected comma in JSON array")
            | some more ↦ parse_items fuel more >>= λ items rest. parsed (cons item items) rest
          ]
        ]

    pub parse_object : ℕ → Bytes → Parsed (JsonValue D)
    parse_object zero text = out_of_fuel
    parse_object (suc fuel) text = elim (consume b'}' (skip_space text)) [
      | some rest ↦ parsed (object end) rest
      | none ↦
          parse_fields fuel end (skip_space text) >>= λ fields rest. parsed (object fields) rest
    ]

    -- The loop of `parse_object`, with the fields so far.
    pub parse_fields : ℕ → Fields D → Bytes → Parsed (Fields D)
    parse_fields zero fields text = out_of_fuel
    parse_fields (suc fuel) fields text = elim (consume b'"' (skip_space text)) [
      | none ↦ fail size (skip_space text) (bytes "expected JSON object key")
      | some opened ↦ parse_string size (skip_space text) >>= λ key r1.
          elim (consume b':' (skip_space r1)) [
            | none ↦ fail size (skip_space r1) (bytes "expected colon after JSON object key")
            | some r2 ↦ parse_value fuel (skip_space r2) >>= λ item r3.
                elim (consume b'}' (skip_space r3)) [
                  | some rest ↦ parsed (insert_field key item fields) rest
                  | none ↦ elim (consume b',' (skip_space r3)) [
                    | none ↦ fail size (skip_space r3) (bytes "expected comma in JSON object")
                    | some more ↦ parse_fields fuel (insert_field key item fields) more
                  ]
                ]
          ]
    ]

-- `Parser::parse`.
unfoldable pub parse_text {ℓ} : {A : Type ℓ} → ℕ → Parsed A → Parsed A
unfolding skip_space
parse_text size (failed message) = failed message
parse_text size out_of_fuel = out_of_fuel
parse_text size (parsed value rest) =
    if is_empty (skip_space rest)
    then parsed value []
    else fail size (skip_space rest) (bytes "unexpected trailing JSON content")

-- The `catch` of `parse_json`; a parse that is out of fuel has no place in the source.
unfoldable pub caught {ℓ} : {A : Type ℓ} → Parsed A → Result A
caught (parsed value rest) = success value
caught (failed message) = failure (make_error parse (bytes "invalid_json") message)
caught out_of_fuel = failure (make_error parse (bytes "out_of_fuel") [])

abbrev pub enough : Bytes → ℕ
enough text = 4 * length text + 4

unfoldable pub parse_json : {D : Type 0} → (Bytes → Option D) → Bytes → Result (JsonValue D)
unfolding caught parse_text parse_value skip_space
parse_json strtod text =
    caught
      (parse_text (length text) (parse_value strtod (length text) (enough text) (skip_space text)))
