-- ===== src/Json/RoundTrip/Printed.antt =====
-- src/core/json_codec.cpp, `append_json`: what the text of a value looks like to the parser.
use mathlib.Core.List.{append_assoc}
use runi.Prelude.{
  ℕ, suc, ◌+◌, ◌≤◌, ◌≡◌, refl, sym, ap, ◌∙◌, subst, Bool, true, false, Option, none, some, [], ◌∷◌,
  ◌++◌, Bytes, bytes, arith, length, length-append,
}
use runi.Json.Value.{
  JsonValue, Items, Fields, null, bool, integer, real, string, array, object, nil, cons, end, field,
}
use runi.Json.Reader.{is_space, skip_space, consume, is_digit}
use runi.Json.Printer.{
  Style, new_line, comma, colon, escaped, close_items, close_fields, print, print_items,
  print_fields,
}
use runi.Json.RoundTrip.Mapped.{IsReadable}
use runi.Json.RoundTrip.Numbers.{Ends}
use runi.Json.RoundTrip.Strings.{escape_bytes, escaped-false}
use runi.Json.RoundTrip.Blanks.{
  Starts, Starts-append, skip_space-Starts, skip_space-new_line, Ends-new_line, integer_text-head,
}

abbrev pub style : Option ℕ → Bool → Style
style indent spaced = record { indent = indent; ensure_ascii = false; spaced = spaced }

module _ {D : Type 0} (real_text : D → Bytes) (indent : Option ℕ) (spaced : Bool) where
  abbrev pub out : ℕ → JsonValue D → Bytes
  out = print real_text (style indent spaced)

  abbrev pub items_out : ℕ → Items D → Bytes
  items_out depth items = print_items real_text (style indent spaced) depth true items

  abbrev pub fields_out : ℕ → Fields D → Bytes
  fields_out depth fields = print_fields real_text (style indent spaced) depth true fields

  pub print-Starts : (depth : ℕ) (v : JsonValue D) → IsReadable v → Starts (out depth v)
  unfolding print bytes is_space
  print-Starts depth null x = (refl, refl)
  print-Starts depth (bool true) x = (refl, refl)
  print-Starts depth (bool false) x = (refl, refl)
  print-Starts depth (integer z) x =
      let (c, cs, there, token, space, bracket) = integer_text-head z in rw there (space, bracket)
  print-Starts depth (real d) x = absurd x
  print-Starts depth (string s) x = subst Starts (sym (escaped-false s)) (refl, refl)
  print-Starts depth (array items) x = (refl, refl)
  print-Starts depth (object fields) x = (refl, refl)

  -- What follows the colon is read after the blank that a (style indent spaced) may put there.
  pub colon-consume :
      (text : Bytes)
      → (more : Bytes) × (consume b':' (skip_space (colon (style indent spaced) ++ text))
          ≡ some more)
        × (skip_space more ≡ skip_space text)
  unfolding colon bytes skip_space is_space consume
  colon-consume text = of_style indent spaced
    where
      of_style :
          (i : Option ℕ) (b : Bool)
          → (more : Bytes) × (consume b':' (
                skip_space
                  (colon (record { indent = i; ensure_ascii = false; spaced = b }) ++ text))
              ≡ some more)
            × (skip_space more ≡ skip_space text)
      of_style (some width) b = (b' ' ∷ text, refl, refl)
      of_style none true = (b' ' ∷ text, refl, refl)
      of_style none false = (text, refl, refl)

  pub Ends-close :
      (depth c : ℕ) (rest : Bytes) → Ends (c ∷ rest) → Ends (new_line indent depth ++ c ∷ rest)
  Ends-close depth c rest e = Ends-new_line indent depth c rest e

  -- The first item, after the blanks before it.
  pub items_skip :
      (depth : ℕ) (item : JsonValue D) (items : Items D) (rest : Bytes)
      → IsReadable item
      → skip_space (items_out depth (cons item items) ++ rest)
        ≡ out (suc depth) item
          ++ (print_items real_text (style indent spaced) depth false items ++ rest)
  unfolding print comma
  items_skip depth item items rest x =
      ap skip_space (
        append_assoc (new_line indent (suc depth))
          (out (suc depth) item ++ print_items real_text (style indent spaced) depth false items)
          rest)
      ∙ (skip_space-new_line indent (suc depth) _
          ∙ (ap skip_space (
                append_assoc (out (suc depth) item)
                  (print_items real_text (style indent spaced) depth false items) rest)
              ∙ skip_space-Starts _
                  (Starts-append (out (suc depth) item) _ (print-Starts (suc depth) item x))))

  pub fields_skip :
      (depth : ℕ) (key : Bytes) (item : JsonValue D) (fields : Fields D) (rest : Bytes)
      → skip_space (fields_out depth (field key item fields) ++ rest)
        ≡ escaped false key
          ++ (colon (style indent spaced)
              ++ (out (suc depth) item
                  ++ (print_fields real_text (style indent spaced) depth false fields ++ rest)))
  unfolding print comma
  fields_skip depth key item fields rest =
      let last = print_fields real_text (style indent spaced) depth false fields in
      let shown =
        escaped false key ++ (colon (style indent spaced) ++ (out (suc depth) item ++ last)) in
      let quoted : Starts (escaped false key) =
        subst Starts (sym (escaped-false key)) (unfold is_space in (refl, refl)) in
      let others = colon (style indent spaced) ++ (out (suc depth) item ++ (last ++ rest)) in
      let apart : shown ++ rest ≡ escaped false key ++ others =
        append_assoc (escaped false key)
          (colon (style indent spaced) ++ (out (suc depth) item ++ last)) rest
        ∙ ap (λ b. escaped false key ++ b)
            (append_assoc (colon (style indent spaced)) (out (suc depth) item ++ last) rest
              ∙ ap (λ b. colon (style indent spaced) ++ b)
                  (append_assoc (out (suc depth) item) last rest)) in
      ap skip_space (append_assoc (new_line indent (suc depth)) shown rest)
      ∙ (skip_space-new_line indent (suc depth) (shown ++ rest)
          ∙ (ap skip_space apart
              ∙ skip_space-Starts (escaped false key ++ others)
                  (Starts-append (escaped false key) others quoted)))

  pub items_tail-Ends :
      (depth : ℕ) (items : Items D) (rest : Bytes)
      → Ends (
          print_items real_text (style indent spaced) depth false items
          ++ (new_line indent depth ++ b']' ∷ rest))
  unfolding print comma is_digit
  items_tail-Ends depth nil rest = Ends-close depth b']' rest (refl, refl, refl, refl)
  items_tail-Ends depth (cons item items) rest = (refl, refl, refl, refl)

  pub fields_tail-Ends :
      (depth : ℕ) (fields : Fields D) (rest : Bytes)
      → Ends (
          print_fields real_text (style indent spaced) depth false fields
          ++ (new_line indent depth ++ b'}' ∷ rest))
  unfolding print comma is_digit
  fields_tail-Ends depth end rest = Ends-close depth b'}' rest (refl, refl, refl, refl)
  fields_tail-Ends depth (field key item fields) rest = (refl, refl, refl, refl)

  pub length-items_out :
      (depth : ℕ) (item : JsonValue D) (items : Items D)
      → length (out (suc depth) item)
          + length (print_items real_text (style indent spaced) depth false items)
        ≤ length (items_out depth (cons item items))
  unfolding print comma
  length-items_out depth item items =
      let last = print_items real_text (style indent spaced) depth false items in
      let whole = length-append (new_line indent (suc depth)) (out (suc depth) item ++ last) in
      let parts = length-append (out (suc depth) item) last in omega arith

  pub length-fields_out :
      (depth : ℕ) (key : Bytes) (item : JsonValue D) (fields : Fields D)
      → length (out (suc depth) item)
          + length (print_fields real_text (style indent spaced) depth false fields)
        ≤ length (fields_out depth (field key item fields))
  unfolding print comma
  length-fields_out depth key item fields =
      let last = print_fields real_text (style indent spaced) depth false fields in
      let l1 =
        length-append (new_line indent (suc depth))
          (escaped false key ++ (colon (style indent spaced) ++ (out (suc depth) item ++ last))) in
      let l2 =
        length-append (escaped false key)
          (colon (style indent spaced) ++ (out (suc depth) item ++ last)) in
      let l3 = length-append (colon (style indent spaced)) (out (suc depth) item ++ last) in
      let l4 = length-append (out (suc depth) item) last in omega arith

  pub length-array :
      (depth : ℕ) (items : Items D)
      → suc (length (items_out depth items)) ≤ length (out depth (array items))
  unfolding print
  length-array depth items =
      let whole =
        length-append (items_out depth items)
          (close_items real_text (style indent spaced) depth items) in
      omega arith

  pub length-object :
      (depth : ℕ) (fields : Fields D)
      → suc (length (fields_out depth fields)) ≤ length (out depth (object fields))
  unfolding print
  length-object depth fields =
      let whole =
        length-append (fields_out depth fields)
          (close_fields real_text (style indent spaced) depth fields) in
      omega arith

  pub items_next :
      (depth : ℕ) (item : JsonValue D) (items : Items D)
      → length (print_items real_text (style indent spaced) depth false (cons item items))
        ≡ suc (length (items_out depth (cons item items)))
  unfolding print comma
  items_next depth item items = refl

  pub fields_next :
      (depth : ℕ) (key : Bytes) (item : JsonValue D) (fields : Fields D)
      → length (print_fields real_text (style indent spaced) depth false (field key item fields))
        ≡ suc (length (fields_out depth (field key item fields)))
  unfolding print comma
  fields_next depth key item fields = refl

  pub quote-consume :
      (key rest : Bytes)
      → consume b'"' (escaped false key ++ rest) ≡ some (escape_bytes key ++ (b'"' ∷ []) ++ rest)
  unfolding consume
  quote-consume key rest = rw (escaped-false key) refl

  pub skip_space-out :
      (depth : ℕ) (item : JsonValue D) (rest : Bytes)
      → IsReadable item
      → skip_space (out (suc depth) item ++ rest) ≡ out (suc depth) item ++ rest
  skip_space-out depth item rest x =
      skip_space-Starts _
        (Starts-append (out (suc depth) item) rest (print-Starts (suc depth) item x))
