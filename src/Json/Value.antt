-- ===== src/Json/Value.antt =====
-- include/runi/core/json_value.hpp and src/core/json_value.cpp. `D` stands for `double`. An object
-- is its fields in the order of `std::map`.
use runi.Prelude.{
  ℕ, ◌-◌, ◌%◌, ◌^◌, ltb, Bool, true, false, Option, none, some, Bytes, eq_bytes, less,
  if◌then◌else◌,
}

-- `std::int64_t`, as the number that it stands for.
pub data ℤ : Type 0 where
  pos negsuc : ℕ → ℤ

-- The conversion of a `std::size_t` to `std::int64_t`.
unfoldable pub signed : ℕ → ℤ
signed n =
    if ltb (n % 2 ^ 64) (2 ^ 63) then pos (n % 2 ^ 64) else negsuc (2 ^ 64 - (n % 2 ^ 64) - 1)

mutual
  pub data JsonValue (D : Type 0) : Type 0 where
    null : JsonValue D
    bool : Bool → JsonValue D
    integer : ℤ → JsonValue D
    real : D → JsonValue D
    string : Bytes → JsonValue D
    array : Items D → JsonValue D
    object : Fields D → JsonValue D

  pub data Items (D : Type 0) : Type 0 where
    nil : Items D
    cons : JsonValue D → Items D → Items D

  pub data Fields (D : Type 0) : Type 0 where
    end : Fields D
    field : Bytes → JsonValue D → Fields D → Fields D

module _ {D : Type 0} where
  unfoldable pub is_null : JsonValue D → Bool
  is_null null = true
  is_null _ = false

  unfoldable pub is_bool : JsonValue D → Bool
  is_bool (bool b) = true
  is_bool _ = false

  unfoldable pub is_integer : JsonValue D → Bool
  is_integer (integer n) = true
  is_integer _ = false

  unfoldable pub is_number : JsonValue D → Bool
  is_number (integer n) = true
  is_number (real d) = true
  is_number _ = false

  unfoldable pub is_string : JsonValue D → Bool
  is_string (string s) = true
  is_string _ = false

  unfoldable pub is_array : JsonValue D → Bool
  is_array (array items) = true
  is_array _ = false

  unfoldable pub is_object : JsonValue D → Bool
  is_object (object fields) = true
  is_object _ = false

  unfoldable pub find_field : Bytes → Fields D → Option (JsonValue D)
  find_field key end = none
  find_field key (field k v fields) = if eq_bytes k key then some v else find_field key fields

  -- `insert_or_assign`, and assignment through `operator[]`.
  unfoldable pub insert_field : Bytes → JsonValue D → Fields D → Fields D
  insert_field key value end = field key value end
  insert_field key value (field k v fields) =
      let rest = insert_field key value fields in
      if eq_bytes k key
      then field key value fields
      else if less key k
      then field key value (field k v fields)
      else field k v rest

  -- `find`, with `none` for the null pointer.
  unfoldable pub find : Bytes → JsonValue D → Option (JsonValue D)
  unfolding find_field
  find key (object fields) = find_field key fields
  find key _ = none

  is_some : Option (JsonValue D) → Bool
  is_some none = false
  is_some (some v) = true

  unfoldable pub contains : Bytes → JsonValue D → Bool
  unfolding find is_some
  contains key value = is_some (find key value)

  -- The value after `value[key] = item`.
  unfoldable pub assign : Bytes → JsonValue D → JsonValue D → JsonValue D
  unfolding insert_field
  assign key item (object fields) = object (insert_field key item fields)
  assign key item _ = object (insert_field key item end)

  unfoldable pub string_or : Bytes → JsonValue D → Bytes
  string_or fallback (string s) = s
  string_or fallback _ = fallback

  unfoldable pub integer_or : ℤ → JsonValue D → ℤ
  integer_or fallback (integer n) = n
  integer_or fallback _ = fallback

  unfoldable pub bool_or : Bool → JsonValue D → Bool
  bool_or fallback (bool b) = b
  bool_or fallback _ = fallback
