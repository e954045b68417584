-- ===== src/Json/RoundTrip/Mapped.antt =====
-- src/core/json_codec.cpp, `parse_object`: objects whose fields are in any order, and the maps that
-- they are read as.
use runi.Prelude.{
  ◌≡◌, refl, ap, ◌∙◌, Bool, true, false, Option, none, some, Bytes, eq_bytes, eq_bytes_iff, arith,
  if◌then◌else◌,
}
use runi.Json.Value.{
  JsonValue, Items, Fields, null, bool, string, integer, real, array, object, nil, cons, end, field,
  insert_field, find_field,
}
use runi.Json.RoundTrip.Numbers.{InRange}
use runi.Json.RoundTrip.Fields.{IsExact, ItemsExact, FieldsExact, insert_all, insert_all-end}

-- A value without a `double` and with integers of 64 bits. The fields stand for a text here, in which
-- an object may have its fields in any order, and a key more than once.
abbrev mutual
  pub IsReadable : {D : Type 0} → JsonValue D → Type 0
  IsReadable (integer z) = InRange z
  IsReadable (real d) = ⊥
  IsReadable (array items) = ItemsReadable items
  IsReadable (object fields) = FieldsReadable fields
  IsReadable _ = Unit {0}

  pub ItemsReadable : {D : Type 0} → Items D → Type 0
  ItemsReadable nil = Unit {0}
  ItemsReadable (cons item items) = IsReadable item × ItemsReadable items

  pub FieldsReadable : {D : Type 0} → Fields D → Type 0
  FieldsReadable end = Unit {0}
  FieldsReadable (field key item fields) = IsReadable item × FieldsReadable fields

-- The value that such a text is of: its objects are maps.
abbrev mutual
  pub mapped : {D : Type 0} → JsonValue D → JsonValue D
  mapped (array items) = array (mapped_items items)
  mapped (object fields) = object (insert_all end (mapped_fields fields))
  mapped null = null
  mapped (bool b) = bool b
  mapped (integer z) = integer z
  mapped (real d) = real d
  mapped (string s) = string s

  pub mapped_items : {D : Type 0} → Items D → Items D
  mapped_items nil = nil
  mapped_items (cons item items) = cons (mapped item) (mapped_items items)

  pub mapped_fields : {D : Type 0} → Fields D → Fields D
  mapped_fields end = end
  mapped_fields (field key item fields) = field key (mapped item) (mapped_fields fields)

mutual
  pub IsExact-mapped : {D : Type 0} (v : JsonValue D) → IsExact v → IsReadable v × (mapped v ≡ v)
  IsExact-mapped null x = (tt, refl)
  IsExact-mapped (bool b) x = (tt, refl)
  IsExact-mapped (integer z) x = (x, refl)
  IsExact-mapped (real d) x = absurd x
  IsExact-mapped (string s) x = (tt, refl)
  IsExact-mapped (array items) x = let all = ItemsExact-mapped items x in (all.0, ap array all.1)
  IsExact-mapped (object fields) x =
      let all = FieldsExact-mapped fields x in
      (all.0, ap object (ap (insert_all end) all.1 ∙ insert_all-end fields x))

  pub ItemsExact-mapped :
      {D : Type 0} (items : Items D)
      → ItemsExact items
      → ItemsReadable items × (mapped_items items ≡ items)
  ItemsExact-mapped nil x = (tt, refl)
  ItemsExact-mapped (cons item items) (x, xs) =
      let one = IsExact-mapped item x in
      let all = ItemsExact-mapped items xs in
      ((one.0, all.0), ap (λ i. cons i (mapped_items items)) one.1 ∙ ap (cons item) all.1)

  pub FieldsExact-mapped :
      {D : Type 0} (fields : Fields D)
      → FieldsExact fields
      → FieldsReadable fields × (mapped_fields fields ≡ fields)
  FieldsExact-mapped end x = (tt, refl)
  FieldsExact-mapped (field key item fields) (after, x, xs) =
      let one = IsExact-mapped item x in
      let all = FieldsExact-mapped fields xs in
      (
        (one.0, all.0),
        ap (λ i. field key i (mapped_fields fields)) one.1 ∙ ap (field key item) all.1,
      )

abbrev or_else : {A : Type 0} → Option A → Option A → Option A
or_else none other = other
or_else (some a) other = some a

-- The value of a key in fields of any order: of several, the last.
abbrev pub last_of : {D : Type 0} → Bytes → Fields D → Option (JsonValue D)
last_of key end = none
last_of key (field k v fields) =
    or_else (last_of key fields) (if eq_bytes k key then some v else none)

find_field-insert_field :
    {D : Type 0} (key k : Bytes) (item : JsonValue D) (fields : Fields D)
    → find_field key (insert_field k item fields)
      ≡ (if eq_bytes k key then some item else find_field key fields)
unfolding find_field insert_field
find_field-insert_field key k item end = ground arith
find_field-insert_field key k item (field j v fields) = ground (
  arith,
  eq_bytes_iff k key,
  eq_bytes_iff j k,
  eq_bytes_iff j key,
  find_field-insert_field key k item fields,
)

or_else_assoc : {A : Type 0} (a b c : Option A) → or_else a (or_else b c) ≡ or_else (or_else a b) c
or_else_assoc none b c = refl
or_else_assoc (some a) b c = refl

find_field-insert_all :
    {D : Type 0} (key : Bytes) (before fields : Fields D)
    → find_field key (insert_all before fields)
      ≡ or_else (last_of key fields) (find_field key before)
find_field-insert_all key before end = refl
find_field-insert_all key before (field k item fields) =
    find_field-insert_all key (insert_field k item before) fields
    ∙ (ap (or_else (last_of key fields)) (find_field-insert_field key k item before ∙ split)
        ∙ or_else_assoc (last_of key fields) (if eq_bytes k key then some item else none)
            (find_field key before))
  where
    split :
        (if eq_bytes k key then some item else find_field key before)
        ≡ or_else (if eq_bytes k key then some item else none) (find_field key before)
    split = ground arith

abbrev mapped_some : {D : Type 0} → Option (JsonValue D) → Option (JsonValue D)
mapped_some none = none
mapped_some (some v) = some (mapped v)

or_else-mapped_some :
    {D : Type 0} (a b : Option (JsonValue D))
    → or_else (mapped_some a) (mapped_some b) ≡ mapped_some (or_else a b)
or_else-mapped_some none b = refl
or_else-mapped_some (some v) b = refl

last_of-mapped_fields :
    {D : Type 0} (key : Bytes) (fields : Fields D)
    → last_of key (mapped_fields fields) ≡ mapped_some (last_of key fields)
last_of-mapped_fields key end = refl
last_of-mapped_fields key (field k v fields) =
    ap (λ o. or_else o (if eq_bytes k key then some (mapped v) else none))
      (last_of-mapped_fields key fields)
    ∙ (ap (or_else (mapped_some (last_of key fields))) (here (eq_bytes k key))
        ∙ or_else-mapped_some (last_of key fields) (if eq_bytes k key then some v else none))
  where
    here :
        (b : Bool)
        → (if b then some (mapped v) else none) ≡ mapped_some (if b then some v else none)
    here true = refl
    here false = refl

-- The map of the fields has the last value of each key.
pub find_field-mapped :
    {D : Type 0} (key : Bytes) (fields : Fields D) (v : JsonValue D)
    → last_of key fields ≡ some v
    → find_field key (insert_all end (mapped_fields fields)) ≡ some (mapped v)
find_field-mapped key fields v h =
    find_field-insert_all key end (mapped_fields fields)
    ∙ ap (λ o. or_else o (find_field key end)) (last_of-mapped_fields key fields ∙ ap mapped_some h)
