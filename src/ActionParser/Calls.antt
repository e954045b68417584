-- ===== src/ActionParser/Calls.antt =====
-- src/agent/action_parser.cpp: a call that is written as JSON between its tags.
use mathlib.Core.List.{append_assoc, reverse-append}
use runi.Prelude.{
  ℕ, ◌≡◌, refl, sym, ap, ◌∙◌, subst, true, false, Option, some, [], ◌∷◌, ◌++◌, Bytes, bytes, ◌==◌,
  arith, length, take, is_empty, starts_with, Option-cases, inl, inr,
}
use runi.Error.{success}
use runi.Text.{trim, is_blank}
use runi.Text.Trim.{strip_kept, StartsKept}
use runi.Json.Value.{JsonValue, Fields, string, object, end, field, find_field}
use runi.Json.Parser.{parse_json}
use runi.Json.Printer.{Style, dump_json, print_fields, close_fields, new_line}
use runi.Json.RoundTrip.Fields.{insert_all}
use runi.Json.RoundTrip.Mapped.{FieldsReadable, mapped_fields, last_of, find_field-mapped}
use runi.Json.RoundTrip.Values.{parse_json-mapped}
use runi.ActionParser.{
  tool_call, find, action_precedes_final, extract, until_tag, end_tag, call_with, json_call, parse,
}

-- No byte of the text is `<`.
abbrev pub NoTag : Bytes → Type 0
NoTag [] = Unit {0}
NoTag (c ∷ cs) = ((c == b'<') ≡ false) × NoTag cs

starts_with_append : (pattern rest : Bytes) → starts_with (pattern ++ rest) pattern ≡ true
unfolding starts_with
starts_with_append [] rest = refl
starts_with_append (c ∷ cs) rest = ground (arith, starts_with_append cs rest)

-- A pattern that begins with `<` is first found where the text ends that has none.
find_end :
    (pattern text rest : Bytes)
    → NoTag text
    → find (b'<' ∷ pattern) (text ++ ((b'<' ∷ pattern) ++ rest)) ≡ some (length text)
unfolding find starts_with
find_end pattern [] rest h = rw (starts_with_append pattern rest) refl
find_end pattern (c ∷ cs) rest h = rw (h.0, find_end pattern cs rest h.1) refl

take-length : (text rest : Bytes) → take (length text) (text ++ rest) ≡ text
take-length [] rest = refl
take-length (c ∷ cs) rest = ap (λ t. c ∷ t) (take-length cs rest)

abbrev pub called : Bytes → Bytes
called body = bytes "<tool>" ++ (body ++ bytes "</tool>")

called_precedes_final : (body : Bytes) → action_precedes_final (called body) (bytes "<tool>") ≡ true
unfolding action_precedes_final bytes starts_with
called_precedes_final body =
    elim (Option-cases (find (bytes "<final>") (body ++ bytes "</tool>"))) [
      | inl e ↦ rw (e, action_precedes_final) refl
      | inr (n, e) ↦ rw (e, action_precedes_final) (ground arith)
    ]

until_tag-called :
    (body : Bytes) → NoTag body → until_tag (bytes "tool") (body ++ bytes "</tool>") ≡ body
unfolding until_tag end_tag bytes
until_tag-called body h =
    let there : find (end_tag (bytes "tool")) (body ++ bytes "</tool>") ≡ some (length body) =
      find_end (bytes "/tool>") body [] h in
    rw (there, until_tag) (take-length body _)

extract-called : (body : Bytes) → NoTag body → extract (called body) (bytes "tool") ≡ trim body
unfolding extract bytes starts_with
extract-called body h = ap trim (until_tag-called body h)

kept_between :
    (first last : ℕ) (between : Bytes)
    → is_blank first ≡ false
    → is_blank last ≡ false
    → trim (first ∷ between ++ last ∷ []) ≡ first ∷ between ++ last ∷ []
unfolding trim
kept_between first last between h k =
    strip_kept is_blank (first ∷ between ++ last ∷ []) h
      (subst (StartsKept is_blank) (sym (reverse-append (first ∷ between) (last ∷ []))) k)

trim-dump_json :
    {D : Type 0} (real_text : D → Bytes) (indent : Option ℕ) (key : Bytes) (item : JsonValue D)
    (fields : Fields D)
    → trim (dump_json real_text indent false (object (field key item fields)))
      ≡ dump_json real_text indent false (object (field key item fields))
unfolding dump_json close_fields is_blank
trim-dump_json real_text indent key item fields =
    let style : Style = record { indent = indent; ensure_ascii = false; spaced = false } in
    let shown = print_fields real_text style 0 true (field key item fields) in
    let whole : shown ++ (new_line indent 0 ++ b'}' ∷ [])
        ≡ (shown ++ new_line indent 0) ++ b'}' ∷ [] =
      sym (append_assoc shown (new_line indent 0) (b'}' ∷ [])) in
    subst (λ t. trim (b'{' ∷ t) ≡ b'{' ∷ t) (sym whole)
      (kept_between b'{' b'}' (shown ++ new_line indent 0) refl refl)

json_call-fields :
    {D : Type 0} (name : Bytes) (args fields : Fields D)
    → find_field (bytes "name") fields ≡ some (string name)
    → find_field (bytes "args") fields ≡ some (object args)
    → is_empty (trim name) ≡ false
    → json_call (success (object fields)) ≡ tool_call (trim name) args
unfolding json_call call_with
json_call-fields name args fields named given n = rw (named, given, n) refl

-- A call that is written between its tags as a JSON object is parsed as that call: in whatever
-- indent, with the fields of the object and those inside it in any order, and with further fields
-- beside `args` and `name`. The text is that which `dump_json` writes of the fields, in the order
-- that they have, without `ensure_ascii`. The last `name` among them is a text that is not blank,
-- and the call has it without the blanks at its ends; the last `args` is an object, and the call
-- has the map of its fields. There is no `double` in the text, its integers are of 64 bits, and it
-- has no `<` in it.
pub parse-called :
    {D : Type 0} (real_text : D → Bytes) (strtod : Bytes → Option D) (indent : Option ℕ)
    (name : Bytes) (args fields : Fields D)
    → FieldsReadable fields
    → last_of (bytes "name") fields ≡ some (string name)
    → last_of (bytes "args") fields ≡ some (object args)
    → is_empty (trim name) ≡ false
    → NoTag (dump_json real_text indent false (object fields))
    → parse strtod (called (dump_json real_text indent false (object fields)))
      ≡ tool_call (trim name) (insert_all end (mapped_fields args))
unfolding parse bytes
parse-called real_text strtod indent name args end x named given n h = absurd (cc)
parse-called real_text strtod indent name args (field key item more) x named given n h =
    let fields = field key item more in
    let text = dump_json real_text indent false (object fields) in
    rw (called_precedes_final text) (
      ap (λ b. json_call (parse_json strtod b))
        (extract-called text h ∙ trim-dump_json real_text indent key item more)
      ∙ (ap json_call (parse_json-mapped real_text strtod indent (object fields) x)
          ∙ json_call-fields name (insert_all end (mapped_fields args))
              (insert_all end (mapped_fields fields))
              (find_field-mapped (bytes "name") fields (string name) named)
              (find_field-mapped (bytes "args") fields (object args) given) n))
