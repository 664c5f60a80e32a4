-- ===== src/Json.antt =====
-- JSON values and objects as the program builds and reads them: `serde_json::Value`, whose public
-- constructors these are, with `Value::get`, the `as_` conversions, `json!({...})` and the
-- assignment `data["key"] = value`. An object keeps its keys sorted, as the default map of that
-- crate does. Parsing and printing text stay parameters of the modules that use them.
pub mod Laws
use free_claude_desktop.Prelude.{
  ℕ, ◌/◌, ◌%◌, ◌^◌, Ordering, String, Bool, true, false, Option, none, some, List, [], ◌∷◌, ◌==◌,
  eqb, if◌then◌else◌, and_then,
}
use Prim.Native.String.{compare}

-- A float is held by the 64 bits of its IEEE 754 representation.
pub data Number : Type 0 where
  unsigned : ℕ → Number
  negative : ℕ → Number
  float : ℕ → Number

mutual
  pub data Value : Type 0 where
    null : Value
    bool : Bool → Value
    number : Number → Value
    string : String → Value
    array : Items → Value
    object : Fields → Value

  pub data Items : Type 0 where
    nil : Items
    cons : Value → Items → Items

  pub data Fields : Type 0 where
    end : Fields
    field : String → Value → Fields → Fields

abbrev pub items : Items → List Value
items nil = []
items (cons v vs) = v ∷ items vs

abbrev pub items_of : List Value → Items
items_of [] = nil
items_of (v ∷ vs) = cons v (items_of vs)

abbrev pub array_of : List Value → Value
array_of vs = array (items_of vs)

-- `map.get(key)` and `map.insert(key, value)`
unfoldable pub get_field : String → Fields → Option Value
get_field k end = none
get_field k (field j v m) = if j == k then some v else get_field k m

abbrev place : Ordering → String → Value → String → Value → Fields → Fields → Fields
place Ordering.lt k v j w m m' = field k v (field j w m)
place Ordering.eq k v j w m m' = field k v m
place Ordering.gt k v j w m m' = field j w m'

unfoldable pub insert : String → Value → Fields → Fields
insert k v end = field k v end
insert k v (field j w m) = place (compare k j) k v j w m (insert k v m)

-- `json!({ "k": v, ... })`, entry by entry
abbrev pub insert_all : Fields → List (String × Value) → Fields
insert_all m [] = m
insert_all m ((k, v) ∷ entries) = insert_all (insert k v m) entries

abbrev pub obj : List (String × Value) → Value
obj entries = object (insert_all end entries)

-- `if let Some(v) = o { data[key] = v }`
unfoldable pub set_some : String → Option Value → Fields → Fields
set_some k none m = m
set_some k (some v) m = insert k v m

-- `value.get(key)` for a text key: `None` unless the value is an object that has the key.
unfoldable pub get : String → Value → Option Value
unfolding get_field
get k (object m) = get_field k m
get k _ = none

abbrev pub as_str : Value → Option String
as_str (string s) = some s
as_str _ = none

abbrev pub as_bool : Value → Option Bool
as_bool (bool b) = some b
as_bool _ = none

abbrev pub as_u64 : Value → Option ℕ
as_u64 (number (unsigned n)) = some n
as_u64 _ = none

abbrev pub as_array : Value → Option (List Value)
as_array (array vs) = some (items vs)
as_array _ = none

-- `value.get(key).and_then(Value::as_str)`
unfoldable pub get_str : String → Value → Option String
unfolding get
get_str k v = and_then (get k v) as_str

-- `json!(x)` for a float `x`: `Null` for an infinity or a NaN.
abbrev pub float_value : ℕ → Value
float_value bits = if eqb ((bits / 2 ^ 52) % 2 ^ 11) 2047 then null else number (float bits)

-- `map.remove(key)`, for a map in which no key stands twice
unfoldable pub remove : String → Fields → Fields
remove k end = end
remove k (field j v m) = let rest = remove k m in if j == k then rest else field j v rest
