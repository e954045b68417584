-- ===== src/Json/Terminates.antt =====
-- src/core/json_codec.cpp: `parse_json` has an answer to every text.
use runi.Prelude.{
  ℕ, zero, suc, ◌+◌, ◌-◌, ◌*◌, ◌<◌, ◌≡◌, ◌⊎◌, refl, true, false, Option, [], ◌∷◌, ◌++◌, Bytes,
  bytes, arith, length, is_empty, to_string, Bool-cases, Option-cases, inl, inr,
}
use runi.Json.Value.{JsonValue, Items, Fields}
use runi.Json.Reader.{
  Parsed, parsed, failed, out_of_fuel, skip_space, parse_literal, parse_string, integer_part,
  fraction_part, exponent_part, from_chars,
}
use runi.Error.{make_error, success, failure, parse}
use runi.Json.Value.{end, insert_field, null, bool}
use runi.Json.Fuel.{
  Leaves, parsed-Leaves, fail-Leaves, >>=-Leaves, if-Leaves, Leaves-mono, length-skip_space,
  consume-cases, parse_string-Leaves, parse_literal-Leaves, integer_part-Leaves,
  fraction_part-Leaves, exponent_part-Leaves,
}
use runi.Json.Parser.{
  Token, opens_null, opens_true, opens_false, opens_string, opens_array, opens_object, opens_number,
  no_token, token_of, real_number, number_value, parse_number, parse_value, parse_array,
  parse_items, parse_object, parse_fields, parse_text, caught, enough, parse_json,
}

switch-Leaves :
    {A : Type 0} (n : ℕ) (token : Token) (p0 p1 p2 p3 p4 p5 p6 p7 : Parsed A)
    → Leaves n p0
    → Leaves n p1
    → Leaves n p2
    → Leaves n p3
    → Leaves n p4
    → Leaves n p5
    → Leaves n p6
    → Leaves n p7
    → Leaves n (elim token [
      | opens_null ↦ p0
      | opens_true ↦ p1
      | opens_false ↦ p2
      | opens_string ↦ p3
      | opens_array ↦ p4
      | opens_object ↦ p5
      | opens_number ↦ p6
      | no_token ↦ p7
    ])
switch-Leaves n opens_null p0 p1 p2 p3 p4 p5 p6 p7 h0 h1 h2 h3 h4 h5 h6 h7 = h0
switch-Leaves n opens_true p0 p1 p2 p3 p4 p5 p6 p7 h0 h1 h2 h3 h4 h5 h6 h7 = h1
switch-Leaves n opens_false p0 p1 p2 p3 p4 p5 p6 p7 h0 h1 h2 h3 h4 h5 h6 h7 = h2
switch-Leaves n opens_string p0 p1 p2 p3 p4 p5 p6 p7 h0 h1 h2 h3 h4 h5 h6 h7 = h3
switch-Leaves n opens_array p0 p1 p2 p3 p4 p5 p6 p7 h0 h1 h2 h3 h4 h5 h6 h7 = h4
switch-Leaves n opens_object p0 p1 p2 p3 p4 p5 p6 p7 h0 h1 h2 h3 h4 h5 h6 h7 = h5
switch-Leaves n opens_number p0 p1 p2 p3 p4 p5 p6 p7 h0 h1 h2 h3 h4 h5 h6 h7 = h6
switch-Leaves n no_token p0 p1 p2 p3 p4 p5 p6 p7 h0 h1 h2 h3 h4 h5 h6 h7 = h7

null_long : 0 < length (bytes "null")
unfolding bytes
null_long = omega arith

true_long : 0 < length (bytes "true")
unfolding bytes
true_long = omega arith

false_long : 0 < length (bytes "false")
unfolding bytes
false_long = omega arith

module _ {D : Type 0} (strtod : Bytes → Option D) (size : ℕ) where
  real_number-Leaves :
      (token rest : Bytes) → Leaves (length rest) (real_number strtod size token rest)
  unfolding real_number Leaves
  real_number-Leaves token rest = elim (Option-cases (strtod token)) [
    | inl e ↦ rw (e, real_number) tt
    | inr (value, e) ↦ rw (e, real_number) (omega arith)
  ]

  number_value-Leaves :
      (digits more rest : Bytes) → Leaves (length rest) (number_value strtod size digits more rest)
  unfolding number_value
  number_value-Leaves digits more rest = elim (Option-cases (from_chars digits)) [
    | inl e ↦
        rw (e, number_value)
          (if-Leaves (length rest) (is_empty more) _ _ (real_number-Leaves digits rest)
            (real_number-Leaves (digits ++ more) rest))
    | inr (value, e) ↦
        rw (e, number_value)
          (if-Leaves (length rest) (is_empty more) _ _ (parsed-Leaves _ _ rest (omega arith))
            (real_number-Leaves (digits ++ more) rest))
  ]

  parse_number-Leaves :
      (c : ℕ) (cs : Bytes) → Leaves (length cs) (parse_number strtod size (c ∷ cs))
  unfolding parse_number
  parse_number-Leaves c cs =
      >>=-Leaves (length (c ∷ cs) - 1) (length cs) (integer_part size (c ∷ cs)) _
        (integer_part-Leaves size (c ∷ cs))
        λ digits r1 h1.
          >>=-Leaves (length r1) (length cs) (fraction_part size r1) _
            (fraction_part-Leaves size r1)
            λ fraction r2 h2.
              >>=-Leaves (length r2) (length cs) (exponent_part size r2) _
                (exponent_part-Leaves size r2)
                λ exponent r3 h3.
                  Leaves-mono (length r3) (length cs) _ (omega arith)
                    (number_value-Leaves digits (fraction ++ exponent) r3)

  literal-Leaves :
      (literal : Bytes) (value : JsonValue D) (c : ℕ) (cs : Bytes)
      → 0 < length literal
      → Leaves (length cs) (parse_literal size literal value (c ∷ cs))
  literal-Leaves literal value c cs h =
      Leaves-mono (length (c ∷ cs) - 1) (length cs) _ (omega arith)
        (parse_literal-Leaves size literal value (c ∷ cs) h)

  string_at-Leaves : (text : Bytes) → Leaves (length text) (parse_string size (skip_space text))
  string_at-Leaves text =
      Leaves-mono (length (skip_space text)) (length text) _ (length-skip_space text)
        (of_text (skip_space text))
    where
      of_text : (t : Bytes) → Leaves (length t) (parse_string size t)
      of_text [] = unfold parse_string in fail-Leaves Bytes _ size [] _
      of_text (c ∷ cs) =
          Leaves-mono (length cs) (suc (length cs)) _ (omega arith) (parse_string-Leaves size c cs)

  mutual
    unfolding parse_value

    value-Leaves :
        (fuel : ℕ) (text : Bytes)
        → 4 * length text < fuel
        → Leaves (length text - 1) (parse_value strtod size fuel text)
    value-Leaves zero text h = absurd (omega arith)
    value-Leaves (suc fuel) [] h = fail-Leaves (JsonValue D) _ size [] _
    value-Leaves (suc fuel) (c ∷ cs) h =
        Leaves-mono (length cs) (length (c ∷ cs) - 1) _ (omega arith) (
          switch-Leaves (length cs) (token_of c) _ _ _ _ _ _ _ _
            (literal-Leaves (bytes "null") null c cs null_long)
            (literal-Leaves (bytes "true") (bool true) c cs true_long)
            (literal-Leaves (bytes "false") (bool false) c cs false_long)
            (>>=-Leaves (length cs) (length cs) (parse_string size (c ∷ cs)) _
              (parse_string-Leaves size c cs) λ s rest k. parsed-Leaves _ _ rest k)
            (array-Leaves fuel cs (omega arith)) (object-Leaves fuel cs (omega arith))
            (parse_number-Leaves c cs) (fail-Leaves (JsonValue D) _ size (c ∷ cs) _))

    array-Leaves :
        (fuel : ℕ) (text : Bytes)
        → 4 * length text + 3 < fuel
        → Leaves (length text) (parse_array strtod size fuel text)
    array-Leaves zero text h = absurd (omega arith)
    array-Leaves (suc fuel) text h =
        let shorter = length-skip_space text in
        elim (consume-cases b']' (skip_space text)) [
          | inr (rest, e, k) ↦ rw (e, parse_array) (parsed-Leaves _ _ rest (omega arith))
          | inl e ↦
              rw (e, parse_array)
                (>>=-Leaves (length (skip_space text)) (length text)
                  (parse_items strtod size fuel (skip_space text)) _
                  (items-Leaves fuel (skip_space text) (omega arith))
                  λ items rest k. parsed-Leaves _ _ rest (omega arith))
        ]

    items-Leaves :
        (fuel : ℕ) (text : Bytes)
        → 4 * length text + 2 < fuel
        → Leaves (length text) (parse_items strtod size fuel text)
    items-Leaves zero text h = absurd (omega arith)
    items-Leaves (suc fuel) text h =
        let shorter = length-skip_space text in
        >>=-Leaves (length (skip_space text) - 1) (length text)
          (parse_value strtod size fuel (skip_space text)) _
          (value-Leaves fuel (skip_space text) (omega arith))
          λ item r1 k.
            let shorter1 = length-skip_space r1 in
            elim (consume-cases b']' (skip_space r1)) [
              | inr (rest, e, l) ↦ rw e (parsed-Leaves _ _ rest (omega arith))
              | inl e ↦ elim (consume-cases b',' (skip_space r1)) [
                | inl f ↦ rw (e, f) (fail-Leaves (Items D) _ size (skip_space r1) _)
                | inr (more, f, l) ↦
                    rw (e, f)
                      (>>=-Leaves (length more) (length text) (parse_items strtod size fuel more) _
                        (items-Leaves fuel more (omega arith))
                        λ items rest m. parsed-Leaves _ _ rest (omega arith))
              ]
            ]

    object-Leaves :
        (fuel : ℕ) (text : Bytes)
        → 4 * length text + 3 < fuel
        → Leaves (length text) (parse_object strtod size fuel text)
    object-Leaves zero text h = absurd (omega arith)
    object-Leaves (suc fuel) text h =
        let shorter = length-skip_space text in
        elim (consume-cases b'}' (skip_space text)) [
          | inr (rest, e, k) ↦ rw (e, parse_object) (parsed-Leaves _ _ rest (omega arith))
          | inl e ↦
              rw (e, parse_object)
                (>>=-Leaves (length (skip_space text)) (length text)
                  (parse_fields strtod size fuel end (skip_space text)) _
                  (fields-Leaves fuel end (skip_space text) (omega arith))
                  λ fields rest k. parsed-Leaves _ _ rest (omega arith))
        ]

    fields-Leaves :
        (fuel : ℕ) (fields : Fields D) (text : Bytes)
        → 4 * length text + 2 < fuel
        → Leaves (length text) (parse_fields strtod size fuel fields text)
    fields-Leaves zero fields text h = absurd (omega arith)
    fields-Leaves (suc fuel) fields text h =
        let shorter = length-skip_space text in
        elim (consume-cases b'"' (skip_space text)) [
          | inl e ↦ rw (e, parse_fields) (fail-Leaves (Fields D) _ size (skip_space text) _)
          | inr (opened, e, o) ↦
              rw (e, parse_fields)
                (>>=-Leaves (length text) (length text) (parse_string size (skip_space text)) _
                  (string_at-Leaves text)
                  λ key r1 k.
                    let shorter1 = length-skip_space r1 in
                    elim (consume-cases b':' (skip_space r1)) [
                      | inl f ↦ rw f (fail-Leaves (Fields D) _ size (skip_space r1) _)
                      | inr (r2, f, l) ↦
                          let shorter2 = length-skip_space r2 in
                          rw f (
                            >>=-Leaves (length (skip_space r2) - 1) (length text)
                              (parse_value strtod size fuel (skip_space r2)) _
                              (value-Leaves fuel (skip_space r2) (omega arith))
                              λ item r3 m.
                                let shorter3 = length-skip_space r3 in
                                elim (consume-cases b'}' (skip_space r3)) [
                                  | inr (rest, g, q) ↦ rw g (parsed-Leaves _ _ rest (omega arith))
                                  | inl g ↦ elim (consume-cases b',' (skip_space r3)) [
                                    | inl i ↦
                                        rw (g, i) (fail-Leaves (Fields D) _ size (skip_space r3) _)
                                    | inr (more, i, q) ↦
                                        rw (g, i)
                                          (Leaves-mono (length more) (length text) _ (omega arith) (
                                            fields-Leaves fuel (insert_field key item fields) more
                                              (omega arith)))
                                  ]
                                ])
                    ])
        ]

caught_text :
    {A : Type 0} (n size : ℕ) (p : Parsed A)
    → Leaves n p
    → ((v : A) × (caught (parse_text size p) ≡ success v))
      ⊎ ((message : Bytes) × (caught (parse_text size p)
            ≡ failure (make_error parse (bytes "invalid_json") message)))
unfolding caught parse_text Leaves
caught_text n size (parsed v rest) h = elim (Bool-cases (is_empty (skip_space rest))) [
  | inl e ↦ inl (v, rw e refl)
  | inr e ↦ inr (
    bytes "unexpected trailing JSON content"
        ++ (bytes " at byte " ++ to_string (size - length (skip_space rest))),
    rw e refl,
  )
]
caught_text n size (failed message) h = inr (message, refl)
caught_text n size out_of_fuel h = absurd h

-- `parse_json` has an answer to every text, a value or the error `invalid_json`: the fuel of the
-- model is never spent.
pub parse_json-returns :
    {D : Type 0} (strtod : Bytes → Option D) (text : Bytes)
    → ((v : JsonValue D) × (parse_json strtod text ≡ success v))
      ⊎ ((message : Bytes) × (parse_json strtod text
            ≡ failure (make_error parse (bytes "invalid_json") message)))
unfolding parse_json
parse_json-returns strtod text =
    let shorter = length-skip_space text in
    caught_text _ (length text) (parse_value strtod (length text) (enough text) (skip_space text))
      (value-Leaves strtod (length text) (enough text) (skip_space text) (omega arith))
