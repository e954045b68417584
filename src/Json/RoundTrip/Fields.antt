-- ===== src/Json/RoundTrip/Fields.antt =====
-- src/core/json_codec.cpp, `parse_object`: the fields of an object in the order of their keys.
use runi.Prelude.{
  ◌≡◌, refl, sym, ap, ◌∙◌, subst, true, false, Bytes, less, arith, Bool-cases, inl, inr, eq_bytes,
}
use runi.Json.Value.{
  JsonValue, Items, Fields, integer, real, array, object, nil, cons, end, field, insert_field,
}
use runi.Prelude.Strings.{eq_bytes→eq, less_irrefl, less_trans}
use runi.Json.RoundTrip.Numbers.{InRange}

-- Every key stands before those of the fields.
abbrev pub AllAfter : {D : Type 0} → Bytes → Fields D → Type 0
AllAfter key end = Unit {0}
AllAfter key (field k v fields) = (less key k ≡ true) × AllAfter key fields

-- A value without a `double`, with integers of 64 bits, and with objects in the order of their keys.
abbrev mutual
  pub IsExact : {D : Type 0} → JsonValue D → Type 0
  IsExact (integer z) = InRange z
  IsExact (real d) = ⊥
  IsExact (array items) = ItemsExact items
  IsExact (object fields) = FieldsExact fields
  IsExact _ = Unit {0}

  pub ItemsExact : {D : Type 0} → Items D → Type 0
  ItemsExact nil = Unit {0}
  ItemsExact (cons item items) = IsExact item × ItemsExact items

  pub FieldsExact : {D : Type 0} → Fields D → Type 0
  FieldsExact end = Unit {0}
  FieldsExact (field key item fields) = AllAfter key fields × IsExact item × FieldsExact fields

-- The fields that `insert_or_assign` makes of them, one after the other.
abbrev pub insert_all : {D : Type 0} → Fields D → Fields D → Fields D
insert_all fields end = fields
insert_all fields (field key item more) = insert_all (insert_field key item fields) more

abbrev append_fields : {D : Type 0} → Fields D → Fields D → Fields D
append_fields end more = more
append_fields (field key item fields) more = field key item (append_fields fields more)

append_fields-append_fields :
    {D : Type 0} (a b c : Fields D)
    → append_fields (append_fields a b) c ≡ append_fields a (append_fields b c)
append_fields-append_fields end b c = refl
append_fields-append_fields (field key item a) b c =
    ap (field key item) (append_fields-append_fields a b c)

-- Every key of the fields stands before the key.
abbrev AllBefore : {D : Type 0} → Fields D → Bytes → Type 0
AllBefore end key = Unit {0}
AllBefore (field k v fields) key = (less k key ≡ true) × AllBefore fields key

abbrev AllBelow : {D : Type 0} → Fields D → Fields D → Type 0
AllBelow before end = Unit {0}
AllBelow before (field key item fields) = AllBefore before key × AllBelow before fields

AllBefore-append_fields :
    {D : Type 0} (a b : Fields D) (key : Bytes)
    → AllBefore a key
    → AllBefore b key
    → AllBefore (append_fields a b) key
AllBefore-append_fields end b key h k = k
AllBefore-append_fields (field x v a) b key h k = (h.0, AllBefore-append_fields a b key h.1 k)

AllBelow-snoc :
    {D : Type 0} (before : Fields D) (key : Bytes) (item : JsonValue D) (fields : Fields D)
    → AllBelow before fields
    → AllAfter key fields
    → AllBelow (append_fields before (field key item end)) fields
AllBelow-snoc before key item end h k = tt
AllBelow-snoc before key item (field x v fields) h k = (
  AllBefore-append_fields before (field key item end) x h.0 (k.0, tt),
  AllBelow-snoc before key item fields h.1 k.1,
)

AllBelow-end : {D : Type 0} (fields : Fields D) → AllBelow end fields
AllBelow-end end = tt
AllBelow-end (field key item fields) = (tt, AllBelow-end fields)

less_asym : (a b : Bytes) → less a b ≡ true → less b a ≡ false
less_asym a b h = elim (Bool-cases (less b a)) [
  | inl e ↦ let around = less_trans a b a h e in let irrefl = less_irrefl a in ground arith
  | inr e ↦ e
]

less-eq_bytes : (a b : Bytes) → less a b ≡ true → eq_bytes a b ≡ false
less-eq_bytes a b h = elim (Bool-cases (eq_bytes a b)) [
  | inl e ↦
      let same : less a a ≡ true = subst (λ c. less a c ≡ true) (sym (eq_bytes→eq a b e)) h in
      let irrefl = less_irrefl a in ground arith
  | inr e ↦ e
]

-- A key above all the others comes last.
insert_field-AllBefore :
    {D : Type 0} (key : Bytes) (item : JsonValue D) (fields : Fields D)
    → AllBefore fields key
    → insert_field key item fields ≡ append_fields fields (field key item end)
unfolding insert_field
insert_field-AllBefore key item end h = refl
insert_field-AllBefore key item (field k v fields) (h, hs) =
    rw (less-eq_bytes k key h, less_asym k key h)
      (ap (field k v) (insert_field-AllBefore key item fields hs))

insert_all-AllBelow :
    {D : Type 0} (before fields : Fields D)
    → AllBelow before fields
    → FieldsExact fields
    → insert_all before fields ≡ append_fields before fields
insert_all-AllBelow end end h x = refl
insert_all-AllBelow (field k v before) end h x =
    ap (field k v) (insert_all-AllBelow before end tt tt)
insert_all-AllBelow before (field key item fields) (h, hs) (after, y, x) =
    ap (λ b. insert_all b fields) (insert_field-AllBefore key item before h)
    ∙ (insert_all-AllBelow (append_fields before (field key item end)) fields
          (AllBelow-snoc before key item fields hs after) x
        ∙ append_fields-append_fields before (field key item end) fields)

pub insert_all-end :
    {D : Type 0} (fields : Fields D) → FieldsExact fields → insert_all end fields ≡ fields
insert_all-end fields x = insert_all-AllBelow end fields (AllBelow-end fields) x
