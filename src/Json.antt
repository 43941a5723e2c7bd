-- ===== src/Json.antt =====
-- `serde_json::Value`, with the accessors that crates/evm-state uses, and its own readers on top:
-- `string` of src/proof.rs and `uint` of src/ch.rs in crates/evm-state. A number that is no `u64`
-- stands by its text. The keys of an object ascend, as in the default map of serde_json.
pub mod Digits
pub mod Read
use substreams_evm_state.Prelude.{
  ℕ, Bool, true, false, ◌&&◌, Option, none, some, List, [], ◌∷◌, String, Text, codes, bytes_eq,
  ◌==◌, if◌then◌else◌,
}

mutual
  pub data Json : Type 0 where
    null : Json
    bool : Bool → Json
    number : ℕ → Json
    other_number : Text → Json
    string : Text → Json
    array : Items → Json
    object : Fields → Json

  pub data Items : Type 0 where
    nil : Items
    item : Json → Items → Items

  pub data Fields : Type 0 where
    end : Fields
    field : Text → Json → Fields → Fields

unfoldable pub items : Items → List Json
items nil = []
items (item j rest) = j ∷ items rest

unfoldable pub of_list : List Json → Items
of_list [] = nil
of_list (j ∷ js) = item j (of_list js)

unfoldable pub find : Fields → Text → Option Json
find end key = none
find (field k j rest) key = if bytes_eq k key then some j else find rest key

-- `Value::get`
unfoldable pub get : Json → Text → Option Json
get (object fields) key = find fields key
get _ key = none

-- `value[key]`: a key that is missing reads as null.
unfoldable pub index : Json → String → Json
index j key = elim (get j (codes key)) [ some v ↦ v | none ↦ null ]

unfoldable pub as_u64 : Json → Option ℕ
as_u64 (number n) = some n
as_u64 _ = none

unfoldable pub as_str : Json → Option Text
as_str (string t) = some t
as_str _ = none

unfoldable pub as_array : Json → Option (List Json)
as_array (array xs) = some (items xs)
as_array _ = none

-- `value == text`
unfoldable pub is_text : Json → Text → Bool
is_text (string t) u = bytes_eq t u
is_text _ u = false

-- `value == n`
unfoldable pub is_number : Json → ℕ → Bool
is_number (number m) n = m == n
is_number _ n = false

unfoldable pub is_true : Json → Bool
is_true (bool b) = b
is_true _ = false

-- `==`
unfoldable mutual
  pub json_eq : Json → Json → Bool
  json_eq null null = true
  json_eq (bool true) (bool b) = b
  json_eq (bool false) (bool true) = false
  json_eq (bool false) (bool false) = true
  json_eq (number m) (number n) = m == n
  json_eq (other_number s) (other_number t) = bytes_eq s t
  json_eq (string s) (string t) = bytes_eq s t
  json_eq (array xs) (array ys) = items_eq xs ys
  json_eq (object fs) (object gs) = fields_eq fs gs
  json_eq _ _ = false

  pub items_eq : Items → Items → Bool
  items_eq nil nil = true
  items_eq (item x xs) (item y ys) = json_eq x y && items_eq xs ys
  items_eq _ _ = false

  pub fields_eq : Fields → Fields → Bool
  fields_eq end end = true
  fields_eq (field k j fs) (field l i gs) = bytes_eq k l && (json_eq j i && fields_eq fs gs)
  fields_eq _ _ = false

-- `Option<&Value> == Option<&Value>`
unfoldable pub same_field : Option Json → Option Json → Bool
same_field none none = true
same_field (some a) (some b) = json_eq a b
same_field _ _ = false
