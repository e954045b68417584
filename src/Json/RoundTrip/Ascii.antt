-- ===== src/Json/RoundTrip/Ascii.antt =====
-- src/core/json_codec.cpp: `dump_json` with `ensure_ascii` on texts that are ASCII.
use runi.Prelude.{
  ℕ, zero, suc, ◌<◌, ◌≡◌, refl, ap, ◌∙◌, Bool, true, false, ◌&&◌, Option, [], ◌∷◌, ◌++◌, Bytes, ltb,
  arith, length, Bool-cases, Option-cases, inl, inr,
}
use runi.Json.Value.{
  JsonValue, Items, Fields, null, bool, integer, real, string, array, object, nil, cons, end, field,
}
use runi.Json.Printer.{
  Style, short_escape, escape_next, escape_all, escaped, colon, close_items, close_fields, print,
  print_items, print_fields, dump_json, comma, new_line,
}

unfoldable pub is_ascii : Bytes → Bool
is_ascii [] = true
is_ascii (c ∷ cs) = ltb c 0x80 && is_ascii cs

abbrev pub IsAscii : Bytes → Type 0
IsAscii text = is_ascii text ≡ true

-- The keys and the texts of a value are ASCII.
abbrev mutual
  pub AllAscii : {D : Type 0} → JsonValue D → Type 0
  AllAscii (string s) = IsAscii s
  AllAscii (array items) = ItemsAscii items
  AllAscii (object fields) = FieldsAscii fields
  AllAscii _ = Unit {0}

  pub ItemsAscii : {D : Type 0} → Items D → Type 0
  ItemsAscii nil = Unit {0}
  ItemsAscii (cons item items) = AllAscii item × ItemsAscii items

  pub FieldsAscii : {D : Type 0} → Fields D → Type 0
  FieldsAscii end = Unit {0}
  FieldsAscii (field key item fields) = IsAscii key × AllAscii item × FieldsAscii fields

escape_next-ascii : (c : ℕ) (cs : Bytes) → c < 0x80 → escape_next true c cs ≡ escape_next false c cs
unfolding escape_next
escape_next-ascii c cs h = elim (Option-cases (short_escape c)) [
  | inr (letter, e) ↦ rw (e, escape_next) refl
  | inl e ↦ elim (Bool-cases (ltb c 0x20)) [
    | inl low ↦ rw (e, low, escape_next) refl
    | inr high ↦
        let narrow : ltb c 0x80 ≡ true = ground arith in rw (e, high, narrow, escape_next) refl
  ]
]

escape_next_rest : (c : ℕ) (cs : Bytes) → (escape_next false c cs).1 ≡ cs
unfolding escape_next
escape_next_rest c cs = elim (Option-cases (short_escape c)) [
  | inr (letter, e) ↦ rw (e, escape_next) refl
  | inl e ↦ elim (Bool-cases (ltb c 0x20)) [
    | inl low ↦ rw (e, low, escape_next) refl
    | inr high ↦ rw (e, high, escape_next) refl
  ]
]

escape_all-ascii :
    (fuel : ℕ) (text : Bytes)
    → IsAscii text
    → escape_all true fuel text ≡ escape_all false fuel text
unfolding escape_all is_ascii
escape_all-ascii zero text h = refl
escape_all-ascii (suc fuel) [] h = refl
escape_all-ascii (suc fuel) (c ∷ cs) h =
    rw (escape_next-ascii c cs (ground arith), escape_next_rest c cs)
      (ap (λ t. (escape_next false c cs).0 ++ t) (escape_all-ascii fuel cs (ground arith)))

escaped-ascii : (text : Bytes) → IsAscii text → escaped true text ≡ escaped false text
unfolding escaped
escaped-ascii text h = ap (λ t. b'"' ∷ t ++ b'"' ∷ []) (escape_all-ascii (length text) text h)

module _ {D : Type 0} (real_text : D → Bytes) (indent : Option ℕ) (spaced : Bool) where
  abbrev ascii : Bool → Style
  ascii b = record { indent = indent; ensure_ascii = b; spaced = spaced }

  mutual
    unfolding print close_items close_fields colon

    print-ascii :
        (depth : ℕ) (v : JsonValue D)
        → AllAscii v
        → print real_text (ascii true) depth v ≡ print real_text (ascii false) depth v
    print-ascii depth null h = refl
    print-ascii depth (bool true) h = refl
    print-ascii depth (bool false) h = refl
    print-ascii depth (integer z) h = refl
    print-ascii depth (real d) h = refl
    print-ascii depth (string s) h = escaped-ascii s h
    print-ascii depth (array nil) h = refl
    print-ascii depth (array (cons item items)) h =
        rw (print_items-ascii depth true (cons item items) h) refl
    print-ascii depth (object end) h = refl
    print-ascii depth (object (field key item fields)) h =
        rw (print_fields-ascii depth true (field key item fields) h) refl

    print_items-ascii :
        (depth : ℕ) (first : Bool) (items : Items D)
        → ItemsAscii items
        → print_items real_text (ascii true) depth first items
          ≡ print_items real_text (ascii false) depth first items
    print_items-ascii depth first nil h = refl
    print_items-ascii depth first (cons item items) (h, hs) =
        rw (print-ascii (suc depth) item h, print_items-ascii depth false items hs) refl

    print_fields-ascii :
        (depth : ℕ) (first : Bool) (fields : Fields D)
        → FieldsAscii fields
        → print_fields real_text (ascii true) depth first fields
          ≡ print_fields real_text (ascii false) depth first fields
    print_fields-ascii depth first end h = refl
    print_fields-ascii depth first (field key item fields) (k, h, hs) =
        ap (λ t. shown t true_item true_fields) (escaped-ascii key k)
        ∙ (ap (λ t. shown (escaped false key) t true_fields) (print-ascii (suc depth) item h)
            ∙ ap (shown (escaped false key) (print real_text (ascii false) (suc depth) item))
                (print_fields-ascii depth false fields hs))
      where
        shown : Bytes → Bytes → Bytes → Bytes
        shown k v more =
            comma first
            ++ (new_line indent (suc depth) ++ (k ++ (colon (ascii true) ++ (v ++ more))))

        true_item : Bytes
        true_item = print real_text (ascii true) (suc depth) item

        true_fields : Bytes
        true_fields = print_fields real_text (ascii true) depth false fields

-- With and without `ensure_ascii`, the text of a value that is ASCII is the same.
pub dump_json-ascii :
    {D : Type 0} (real_text : D → Bytes) (indent : Option ℕ) (v : JsonValue D)
    → AllAscii v
    → dump_json real_text indent true v ≡ dump_json real_text indent false v
unfolding dump_json
dump_json-ascii real_text indent v h = print-ascii real_text indent false 0 v h
