-- ===== src/Json/RoundTrip/Nested.antt =====
-- src/core/json_codec.cpp: the brackets around the items and the fields that are read.
use mathlib.Core.List.{append_assoc}
use runi.Prelude.{ℕ, suc, ◌≡◌, ap, ◌∙◌, Bool, false, Option, none, [], ◌∷◌, ◌++◌, Bytes}
use runi.Json.Value.{JsonValue, Items, Fields, array, object, cons, end, field}
use runi.Json.Reader.{parsed, skip_space, consume}
use runi.Json.Parser.{parse_value, parse_array, parse_items, parse_object, parse_fields}
use runi.Json.Printer.{new_line, colon, close_items, close_fields, print, print_fields}
use runi.Json.RoundTrip.Mapped.{IsReadable}
use runi.Json.RoundTrip.Strings.{escaped-false}
use runi.Json.RoundTrip.Blanks.{Starts-append, consume-Starts}
use runi.Json.RoundTrip.Printed.{
  fields_out, fields_skip, items_out, items_skip, out, print-Starts, style,
}
use runi.Json.RoundTrip.Steps.{parse_array-items, parse_object-fields}

module _ {D : Type 0} (real_text : D → Bytes) (strtod : Bytes → Option D) (size : ℕ)
    (indent : Option ℕ) (spaced : Bool) where
  pub array_read :
      (depth fuel : ℕ) (item : JsonValue D) (items result : Items D) (rest : Bytes)
      → IsReadable item
      → parse_items strtod size fuel (
          items_out real_text indent spaced depth (cons item items)
          ++ (new_line indent depth ++ b']' ∷ rest))
        ≡ parsed result rest
      → parse_value strtod size
          (suc (suc fuel))
          (out real_text indent spaced depth (array (cons item items)) ++ rest)
        ≡ parsed (array result) rest
  unfolding parse_value print close_items
  array_read depth fuel item items result rest x h =
      let tail = new_line indent depth ++ b']' ∷ rest in
      let whole : (items_out real_text indent spaced depth (cons item items)
              ++ (new_line indent depth ++ b']' ∷ []))
            ++ rest
          ≡ items_out real_text indent spaced depth (cons item items) ++ tail =
        append_assoc (items_out real_text indent spaced depth (cons item items))
          (new_line indent depth ++ b']' ∷ []) rest
        ∙ ap (λ b. items_out real_text indent spaced depth (cons item items) ++ b)
            (append_assoc (new_line indent depth) (b']' ∷ []) rest) in
      let skipped = items_skip real_text indent spaced depth item items tail x in
      let unclosed : consume b']'
            (skip_space (items_out real_text indent spaced depth (cons item items) ++ tail))
          ≡ none =
        ap (consume b']') skipped
        ∙ consume-Starts _ (
            Starts-append (out real_text indent spaced (suc depth) item) _
              (print-Starts real_text indent spaced (suc depth) item x)) in
      ap (λ b. parse_array strtod size (suc fuel) b) whole
      ∙ parse_array-items strtod size fuel
          (items_out real_text indent spaced depth (cons item items) ++ tail) result rest unclosed h

  pub object_read :
      (depth fuel : ℕ) (key : Bytes) (item : JsonValue D) (fields result : Fields D) (rest : Bytes)
      → parse_fields strtod size fuel end (
          fields_out real_text indent spaced depth (field key item fields)
          ++ (new_line indent depth ++ b'}' ∷ rest))
        ≡ parsed result rest
      → parse_value strtod size
          (suc (suc fuel))
          (out real_text indent spaced depth (object (field key item fields)) ++ rest)
        ≡ parsed (object result) rest
  unfolding parse_value print close_fields
  object_read depth fuel key item fields result rest h =
      let tail = new_line indent depth ++ b'}' ∷ rest in
      let whole : (fields_out real_text indent spaced depth (field key item fields)
              ++ (new_line indent depth ++ b'}' ∷ []))
            ++ rest
          ≡ fields_out real_text indent spaced depth (field key item fields) ++ tail =
        append_assoc (fields_out real_text indent spaced depth (field key item fields))
          (new_line indent depth ++ b'}' ∷ []) rest
        ∙ ap (λ b. fields_out real_text indent spaced depth (field key item fields) ++ b)
            (append_assoc (new_line indent depth) (b'}' ∷ []) rest) in
      let others =
        colon (style indent spaced)
        ++ (out real_text indent spaced (suc depth) item
            ++ (print_fields real_text (style indent spaced) depth false fields ++ tail)) in
      let unclosed : consume b'}'
            (skip_space (fields_out real_text indent spaced depth (field key item fields) ++ tail))
          ≡ none =
        ap (consume b'}') (
          fields_skip real_text indent spaced depth key item fields tail
          ∙ ap (λ b. b ++ others) (escaped-false key)) in
      ap (λ b. parse_object strtod size (suc fuel) b) whole
      ∙ parse_object-fields strtod size fuel
          (fields_out real_text indent spaced depth (field key item fields) ++ tail) result rest
          unclosed h
