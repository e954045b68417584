-- ===== src/Json/RoundTrip/Values.antt =====
-- src/core/json_codec.cpp: `parse_json` on the text of `dump_json`.
use mathlib.Core.List.{append-nil}
use runi.Prelude.{
  ℕ, zero, suc, ◌*◌, ◌<◌, ◌≡◌, refl, sym, ap, ◌∙◌, Bool, true, false, Option, [], ◌∷◌, ◌++◌,
  length-append, Bytes, bytes, arith, length, is_empty,
}
use runi.Error.{success}
use runi.Json.Value.{
  JsonValue, Items, Fields, null, bool, integer, real, string, array, object, nil, cons, end, field,
  insert_field,
}
use runi.Json.Reader.{parsed, skip_space, consume, parse_string}
use runi.Json.Parser.{
  parse_value, parse_items, parse_fields, parse_text, caught, parse_json, enough,
}
use runi.Json.Printer.{new_line, close_items, close_fields, print, print_fields, dump_json}
use runi.Json.RoundTrip.Fields.{IsExact, insert_all}
use runi.Json.RoundTrip.Mapped.{
  IsReadable, ItemsReadable, FieldsReadable, mapped, mapped_items, mapped_fields, IsExact-mapped,
}
use runi.Json.RoundTrip.Numbers.{Ends}
use runi.Json.RoundTrip.Strings.{parse_string-escaped}
use runi.Json.RoundTrip.Blanks.{
  AllBlank, AllBlank-Ends, skip_space-AllBlank, Starts-append, skip_space-Starts,
  skip_space-new_line,
}
use runi.Json.RoundTrip.Printed.{
  colon-consume, fields_next, fields_out, fields_skip, fields_tail-Ends, items_next, items_out,
  items_skip, items_tail-Ends, length-array, length-fields_out, length-items_out, length-object,
  out, print-Starts, quote-consume, skip_space-out, style,
}
use runi.Json.RoundTrip.Steps.{
  parse_fields-last, parse_fields-more, parse_items-last, parse_items-more, read_true, read_false,
  read_integer, read_null, read_string,
}
use runi.Json.RoundTrip.Nested.{array_read, object_read}

module _ {D : Type 0} (real_text : D → Bytes) (strtod : Bytes → Option D) (size : ℕ)
    (indent : Option ℕ) (spaced : Bool) where
  not_below : (n : ℕ) → ¬ (n < 0)
  not_below n h = omega arith

  mutual
    unfolding parse_value print close_items close_fields bytes

    read_value :
        (fuel depth : ℕ) (v : JsonValue D) (rest : Bytes)
        → IsReadable v
        → Ends rest
        → 4 * length (out real_text indent spaced depth v) < fuel
        → parse_value strtod size fuel (out real_text indent spaced depth v ++ rest)
          ≡ parsed (mapped v) rest
    read_value zero depth v rest x e h = absurd (not_below _ h)
    read_value (suc fuel) depth null rest x e h = read_null strtod size fuel rest
    read_value (suc fuel) depth (bool true) rest x e h = read_true strtod size fuel rest
    read_value (suc fuel) depth (bool false) rest x e h = read_false strtod size fuel rest
    read_value (suc fuel) depth (integer z) rest x e h = read_integer strtod size fuel z rest x e
    read_value (suc fuel) depth (real d) rest x e h = absurd x
    read_value (suc fuel) depth (string s) rest x e h = read_string strtod size fuel s rest
    read_value (suc zero) depth (array items) rest x e h =
        let shown = length-array real_text indent spaced depth items in
        absurd (not_below 0 (omega arith))
    read_value (suc (suc fuel)) depth (array nil) rest x e h = refl
    read_value (suc (suc fuel)) depth (array (cons item items)) rest x e h =
        let shown = length-array real_text indent spaced depth (cons item items) in
        array_read real_text strtod size indent spaced depth fuel item items
          (mapped_items (cons item items)) rest x.0
          (read_items fuel depth item items rest x (omega arith))
    read_value (suc zero) depth (object fields) rest x e h =
        let shown = length-object real_text indent spaced depth fields in
        absurd (not_below 0 (omega arith))
    read_value (suc (suc fuel)) depth (object end) rest x e h = refl
    read_value (suc (suc fuel)) depth (object (field key item fields)) rest x e h =
        let shown = length-object real_text indent spaced depth (field key item fields) in
        object_read real_text strtod size indent spaced depth fuel key item fields
          (insert_all end (mapped_fields (field key item fields))) rest
          (read_fields fuel depth end key item fields rest x (omega arith))

    read_items :
        (fuel depth : ℕ) (item : JsonValue D) (items : Items D) (rest : Bytes)
        → ItemsReadable (cons item items)
        → suc (4 * length (items_out real_text indent spaced depth (cons item items))) < fuel
        → parse_items strtod size fuel (
            items_out real_text indent spaced depth (cons item items)
            ++ (new_line indent depth ++ b']' ∷ rest))
          ≡ parsed (mapped_items (cons item items)) rest
    read_items zero depth item items rest x h = absurd (not_below _ h)
    read_items (suc fuel) depth item nil rest (x, xs) h =
        let tail = new_line indent depth ++ b']' ∷ rest in
        let shown = length-items_out real_text indent spaced depth item nil in
        parse_items-last strtod size fuel
          (items_out real_text indent spaced depth (cons item nil) ++ tail) (mapped item) _ rest
          (ap (parse_value strtod size fuel)
              (items_skip real_text indent spaced depth item nil tail x)
            ∙ read_value fuel (suc depth) item _ x
                (items_tail-Ends real_text indent spaced depth nil rest) (omega arith))
          (ap (consume b']') (skip_space-new_line indent depth (b']' ∷ rest)))
    read_items (suc fuel) depth item (cons next items) rest (x, xs) h =
        let tail = new_line indent depth ++ b']' ∷ rest in
        let shown = length-items_out real_text indent spaced depth item (cons next items) in
        let next_shown = items_next real_text indent spaced depth next items in
        parse_items-more strtod size fuel
          (items_out real_text indent spaced depth (cons item (cons next items)) ++ tail)
          (mapped item) (mapped_items (cons next items)) _ _ rest
          (ap (parse_value strtod size fuel)
              (items_skip real_text indent spaced depth item (cons next items) tail x)
            ∙ read_value fuel (suc depth) item _ x
                (items_tail-Ends real_text indent spaced depth (cons next items) rest)
                (omega arith))
          refl refl (read_items fuel depth next items rest xs (omega arith))

    read_fields :
        (fuel depth : ℕ) (before : Fields D) (key : Bytes) (item : JsonValue D) (fields : Fields D)
        (rest : Bytes)
        → FieldsReadable (field key item fields)
        → suc (4 * length (fields_out real_text indent spaced depth (field key item fields))) < fuel
        → parse_fields strtod size fuel before (
            fields_out real_text indent spaced depth (field key item fields)
            ++ (new_line indent depth ++ b'}' ∷ rest))
          ≡ parsed (insert_all before (mapped_fields (field key item fields))) rest
    read_fields zero depth before key item fields rest x h = absurd (not_below _ h)
    read_fields (suc fuel) depth before key item end rest (x, xs) h =
        let tail = new_line indent depth ++ b'}' ∷ rest in
        let shown = length-fields_out real_text indent spaced depth key item end in
        let (r2, at_colon, skipped) =
          colon-consume real_text indent spaced
            (out real_text indent spaced (suc depth) item ++ tail) in
        parse_fields-last strtod size fuel before
          (fields_out real_text indent spaced depth (field key item end) ++ tail) _ key _ r2 tail
          (mapped item)
          (ap (consume b'"') (fields_skip real_text indent spaced depth key item end tail)
            ∙ quote-consume real_text indent spaced key _)
          (ap (parse_string size) (fields_skip real_text indent spaced depth key item end tail)
            ∙ parse_string-escaped size key _)
          at_colon
          (ap (parse_value strtod size fuel)
              (skipped ∙ skip_space-out real_text indent spaced depth item tail x)
            ∙ read_value fuel (suc depth) item tail x
                (fields_tail-Ends real_text indent spaced depth end rest) (omega arith))
          rest (ap (consume b'}') (skip_space-new_line indent depth (b'}' ∷ rest)))
    read_fields (suc fuel) depth before key item (field k2 next fields) rest (x, xs) h =
        let tail = new_line indent depth ++ b'}' ∷ rest in
        let last =
          print_fields real_text (style indent spaced) depth false (field k2 next fields) ++ tail in
        let shown =
          length-fields_out real_text indent spaced depth key item (field k2 next fields) in
        let next_shown = fields_next real_text indent spaced depth k2 next fields in
        let (r2, at_colon, skipped) =
          colon-consume real_text indent spaced
            (out real_text indent spaced (suc depth) item ++ last) in
        parse_fields-more strtod size fuel before
          (fields_out real_text indent spaced depth (field key item (field k2 next fields)) ++ tail)
          _ key _ r2 last (mapped item)
          (ap (consume b'"')
              (fields_skip real_text indent spaced depth key item (field k2 next fields) tail)
            ∙ quote-consume real_text indent spaced key _)
          (ap (parse_string size)
              (fields_skip real_text indent spaced depth key item (field k2 next fields) tail)
            ∙ parse_string-escaped size key _)
          at_colon
          (ap (parse_value strtod size fuel)
              (skipped ∙ skip_space-out real_text indent spaced depth item last x)
            ∙ read_value fuel (suc depth) item last x
                (fields_tail-Ends real_text indent spaced depth (field k2 next fields) rest)
                (omega arith))
          (fields_out real_text indent spaced depth (field k2 next fields) ++ tail) refl refl
        ∙ read_fields fuel depth (insert_field key (mapped item) before) k2 next fields rest xs
            (omega arith)

-- `parse_json` reads the text that `dump_json` writes of fields in any order, the inner ones too, as
-- the value in which each object is the map that `insert_or_assign` makes of its fields; blanks may
-- follow the text.
pub parse_json-padded :
    {D : Type 0} (real_text : D → Bytes) (strtod : Bytes → Option D) (indent : Option ℕ)
    (v : JsonValue D) (rest : Bytes)
    → IsReadable v
    → AllBlank rest
    → parse_json strtod (dump_json real_text indent false v ++ rest) ≡ success (mapped v)
unfolding parse_json dump_json is_empty parse_text
parse_json-padded real_text strtod indent v rest x blank =
    let shown = out real_text indent false 0 v in
    let text = shown ++ rest in
    let start = Starts-append shown rest (print-Starts real_text indent false 0 v x) in
    let size = length-append shown rest in
    let whole =
      read_value real_text strtod (length text) indent false (enough text) 0 v rest x
        (AllBlank-Ends rest blank) (omega (arith, size)) in
    let read : parse_value strtod (length text) (enough text) (skip_space text)
        ≡ parsed (mapped v) rest =
      ap (parse_value strtod (length text) (enough text)) (skip_space-Starts text start) ∙ whole in
    ap (λ p. caught (parse_text (length text) p)) read ∙ rw (skip_space-AllBlank rest blank) refl

pub parse_json-mapped :
    {D : Type 0} (real_text : D → Bytes) (strtod : Bytes → Option D) (indent : Option ℕ)
    (v : JsonValue D)
    → IsReadable v
    → parse_json strtod (dump_json real_text indent false v) ≡ success (mapped v)
parse_json-mapped real_text strtod indent v x =
    ap (parse_json strtod) (sym (append-nil (dump_json real_text indent false v)))
    ∙ parse_json-padded real_text strtod indent v [] x tt

-- `parse_json` succeeds on the text that `dump_json` writes without `ensure_ascii`, and gives the
-- value back, whatever the indent: for values with no `double` in them, with integers of 64 bits,
-- and with objects in the order of their keys. The strings may hold any bytes.
pub parse_json-dump_json :
    {D : Type 0} (real_text : D → Bytes) (strtod : Bytes → Option D) (indent : Option ℕ)
    (v : JsonValue D)
    → IsExact v
    → parse_json strtod (dump_json real_text indent false v) ≡ success v
parse_json-dump_json real_text strtod indent v x =
    let (readable, same) = IsExact-mapped v x in
    parse_json-mapped real_text strtod indent v readable ∙ ap success same
