-- ===== src/Common/Json.antt =====
-- `serde_json::Value`, and how the handlers read the fields of a payload.
use lqxp.Common.{
  ℕ, Bool, Option, none, some, List, [], ◌∷◌, if◌then◌else◌, ◌==◌, is_empty, Text, text, text_Eq,
}
use Prim.Native.String.{String}

mutual
  -- A number that is not a `u64` is kept as its text.
  pub data Json : Type 0 where
    null : Json
    boolean : Bool → Json
    number : ℕ → Json
    other_number : Text → Json
    string : Text → Json
    array : Items → Json
    object : Fields → Json

  pub data Items : Type 0 where
    end_items : Items
    item : Json → Items → Items

  pub data Fields : Type 0 where
    end_fields : Fields
    field : Text → Json → Fields → Fields

lookup_field : Text → Fields → Option Json
lookup_field key end_fields = none
lookup_field key (field name value rest) = if name == key then some value else lookup_field key rest

-- `d.get("key")`
unfoldable pub get_field : Json → String → Option Json
unfolding lookup_field
get_field (object fields) key = lookup_field (text key) fields
get_field _ key = none

unfoldable pub as_str : Option Json → Option Text
as_str (some (string s)) = some s
as_str _ = none

unfoldable pub as_u64 : Option Json → Option ℕ
as_u64 (some (number n)) = some n
as_u64 _ = none

unfoldable pub as_bool : Option Json → Option Bool
as_bool (some (boolean b)) = some b
as_bool _ = none

unfoldable pub as_object : Option Json → Option Json
as_object (some (object fields)) = some (object fields)
as_object _ = none

-- `.and_then(Value::as_array)`
items_of : Items → List Json
items_of end_items = []
items_of (item value rest) = value ∷ items_of rest

unfoldable pub as_array : Option Json → Option (List Json)
unfolding items_of
as_array (some (array items)) = some (items_of items)
as_array _ = none

-- `.get(key).and_then(Value::as_str)`
unfoldable pub str_field : Json → String → Option Text
unfolding get_field as_str
str_field d key = as_str (get_field d key)

-- `.map(str::trim)` where `trim` is the standard library's.
unfoldable pub trimmed_field : (Text → Text) → Json → String → Option Text
unfolding str_field
trimmed_field trim d key = elim (str_field d key) [ none ↦ none | some s ↦ some (trim s) ]

-- `.filter(|value| !value.is_empty())`
unfoldable pub nonempty : Option Text → Option Text
nonempty none = none
nonempty (some s) = if is_empty s then none else some s
