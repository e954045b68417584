-- ===== src/Json/RoundTrip/Steps.antt =====
-- src/core/json_codec.cpp, `Parser`: single steps of the parser, and the values that are no array or object.
use runi.Prelude.{
  ℕ, zero, suc, ◌≡◌, refl, true, false, Option, none, some, ◌∷◌, ◌++◌, Bytes, bytes, Option-cases,
  inl, inr, starts_with,
}
use runi.Json.Value.{
  JsonValue, Items, Fields, ℤ, null, bool, integer, string, array, object, nil, cons, end,
  insert_field,
}
use runi.Json.Reader.{parsed, skip_space, consume, parse_string}
use runi.Json.Parser.{
  parse_number, parse_value, parse_array, parse_items, parse_object, parse_fields,
}
use runi.Json.Printer.{integer_text, escaped}
use runi.Json.RoundTrip.Numbers.{Ends, InRange, parse_number-integer_text}
use runi.Json.RoundTrip.Strings.{escaped-false, parse_string-escaped}
use runi.Json.RoundTrip.Blanks.{skip_space-skip_space, integer_text-head, >>=-parsed}

module _ {D : Type 0} (strtod : Bytes → Option D) (size : ℕ) where
  pub read_null :
      (fuel : ℕ) (rest : Bytes)
      → parse_value strtod size (suc fuel) (bytes "null" ++ rest) ≡ parsed null rest
  unfolding parse_value bytes starts_with
  read_null fuel rest = refl

  pub read_true :
      (fuel : ℕ) (rest : Bytes)
      → parse_value strtod size (suc fuel) (bytes "true" ++ rest) ≡ parsed (bool true) rest
  unfolding parse_value bytes starts_with
  read_true fuel rest = refl

  pub read_false :
      (fuel : ℕ) (rest : Bytes)
      → parse_value strtod size (suc fuel) (bytes "false" ++ rest) ≡ parsed (bool false) rest
  unfolding parse_value bytes starts_with
  read_false fuel rest = refl

  pub read_string :
      (fuel : ℕ) (s rest : Bytes)
      → parse_value strtod size (suc fuel) (escaped false s ++ rest) ≡ parsed (string s) rest
  unfolding parse_value
  read_string fuel s rest =
      let whole = parse_string-escaped size s rest in
      rw (escaped-false s) (rw (rw (escaped-false s) at whole) refl)

  pub read_integer :
      (fuel : ℕ) (z : ℤ) (rest : Bytes)
      → InRange z
      → Ends rest
      → parse_value strtod size (suc fuel) (integer_text z ++ rest) ≡ parsed (integer z) rest
  unfolding parse_value
  read_integer fuel z rest x e =
      let (c, cs, there, token, space, bracket) = integer_text-head z in
      let number : parse_number strtod size (c ∷ cs ++ rest) ≡ parsed (integer z) rest =
        rw there at (parse_number-integer_text strtod size z rest x e) in
      rw there (rw (token, parse_value) number)

  pub parse_items-skip :
      (fuel : ℕ) (a b : Bytes)
      → skip_space a ≡ skip_space b
      → parse_items strtod size fuel a ≡ parse_items strtod size fuel b
  unfolding parse_value
  parse_items-skip zero a b h = refl
  parse_items-skip (suc fuel) a b h = rw (h, parse_items) refl

  pub parse_fields-skip :
      (fuel : ℕ) (before : Fields D) (a b : Bytes)
      → skip_space a ≡ skip_space b
      → parse_fields strtod size fuel before a ≡ parse_fields strtod size fuel before b
  unfolding parse_value
  parse_fields-skip zero before a b h = refl
  parse_fields-skip (suc fuel) before a b h = elim (Option-cases (consume b'"' (skip_space b))) [
    | inl e ↦ rw (h, parse_fields) (rw (e, parse_fields) (rw h refl))
    | inr (x, e) ↦ rw (h, parse_fields) (rw (e, parse_fields) (rw h refl))
  ]

  pub parse_array-items :
      (fuel : ℕ) (text : Bytes) (items : Items D) (rest : Bytes)
      → consume b']' (skip_space text) ≡ none
      → parse_items strtod size fuel text ≡ parsed items rest
      → parse_array strtod size (suc fuel) text ≡ parsed (array items) rest
  unfolding parse_value
  parse_array-items fuel text items rest h k =
      rw
        (
          h,
          parse_items-skip fuel (skip_space text) text (skip_space-skip_space text),
          k,
          parse_array,
        )
        refl

  pub parse_object-fields :
      (fuel : ℕ) (text : Bytes) (fields : Fields D) (rest : Bytes)
      → consume b'}' (skip_space text) ≡ none
      → parse_fields strtod size fuel end text ≡ parsed fields rest
      → parse_object strtod size (suc fuel) text ≡ parsed (object fields) rest
  unfolding parse_value
  parse_object-fields fuel text fields rest h k =
      rw
        (
          h,
          parse_fields-skip fuel end (skip_space text) text (skip_space-skip_space text),
          k,
          parse_object,
        )
        refl

  pub parse_items-last :
      (fuel : ℕ) (text : Bytes) (item : JsonValue D) (r1 rest : Bytes)
      → parse_value strtod size fuel (skip_space text) ≡ parsed item r1
      → consume b']' (skip_space r1) ≡ some rest
      → parse_items strtod size (suc fuel) text ≡ parsed (cons item nil) rest
  unfolding parse_value
  parse_items-last fuel text item r1 rest h k =
      >>=-parsed (parse_value strtod size fuel (skip_space text)) _ item r1 h (rw k refl)

  pub parse_items-more :
      (fuel : ℕ) (text : Bytes) (item : JsonValue D) (items : Items D) (r1 more rest : Bytes)
      → parse_value strtod size fuel (skip_space text) ≡ parsed item r1
      → consume b']' (skip_space r1) ≡ none
      → consume b',' (skip_space r1) ≡ some more
      → parse_items strtod size fuel more ≡ parsed items rest
      → parse_items strtod size (suc fuel) text ≡ parsed (cons item items) rest
  unfolding parse_value
  parse_items-more fuel text item items r1 more rest h k l m =
      >>=-parsed (parse_value strtod size fuel (skip_space text)) _ item r1 h (rw (k, l, m) refl)

  module _ (fuel : ℕ) (before : Fields D) (text opened key r1 r2 r3 : Bytes) (item : JsonValue D)
      (quoted : consume b'"' (skip_space text) ≡ some opened)
      (at_key : parse_string size (skip_space text) ≡ parsed key r1)
      (at_colon : consume b':' (skip_space r1) ≡ some r2)
      (at_item : parse_value strtod size fuel (skip_space r2) ≡ parsed item r3) where
    pub parse_fields-last :
        (rest : Bytes)
        → consume b'}' (skip_space r3) ≡ some rest
        → parse_fields strtod size (suc fuel) before text
          ≡ parsed (insert_field key item before) rest
    unfolding parse_value
    parse_fields-last rest k =
        rw (quoted, parse_fields)
          (>>=-parsed (parse_string size (skip_space text)) _ key r1 at_key (
            rw at_colon (
              >>=-parsed (parse_value strtod size fuel (skip_space r2)) _ item r3 at_item
                (rw k refl))))

    pub parse_fields-more :
        (more : Bytes)
        → consume b'}' (skip_space r3) ≡ none
        → consume b',' (skip_space r3) ≡ some more
        → parse_fields strtod size (suc fuel) before text
          ≡ parse_fields strtod size fuel (insert_field key item before) more
    unfolding parse_value
    parse_fields-more more k l =
        rw (quoted, parse_fields)
          (>>=-parsed (parse_string size (skip_space text)) _ key r1 at_key (
            rw at_colon (
              >>=-parsed (parse_value strtod size fuel (skip_space r2)) _ item r3 at_item
                (rw (k, l) refl))))
