-- ===== src/Parser/Json.antt =====
-- `serde_json::Value`. A number is an unsigned integer, or any other one, kept as its text. An
-- object lists its members in any order.
use proxy_fleet.Common.{ℕ, String, Bool, Option, none, some, List, [], ◌∷◌, if◌then◌else◌, str_eq}

mutual
  pub data Members : Type 0 where
    no_members : Members
    member : (key : String) (value : Value) → Members → Members

  pub data Elements : Type 0 where
    no_elements : Elements
    element : (value : Value) → Elements → Elements

  pub data Value : Type 0 where
    object : Members → Value
    array : Elements → Value
    str : String → Value
    num : ℕ → Value
    other_num : String → Value
    bool : Bool → Value
    null : Value

-- `Map::insert`, and `if let Value::Object(object) = value { object.insert(key, v); }`
unfoldable pub insert_member : String → Value → Members → Members
insert_member key v no_members = member key v no_members
insert_member key v (member k w rest) =
    let others = insert_member key v rest in
    if str_eq k key then member k v rest else member k w others

unfoldable pub put : Value → String → Value → Value
unfolding insert_member
put (object members) key v = object (insert_member key v members)
put other key v = other

-- `Value::get`, `as_str`, `as_u64` and `as_object`
unfoldable pub member_of : String → Members → Option Value
member_of key no_members = none
member_of key (member k v rest) =
    let other = member_of key rest in if str_eq key k then some v else other

abbrev pub get : Value → String → Option Value
get (object members) key = member_of key members
get _ key = none

abbrev pub as_str : Value → Option String
as_str (str s) = some s
as_str _ = none

abbrev pub as_u64 : Value → Option ℕ
as_u64 (num n) = some n
as_u64 _ = none

abbrev pub as_object : Value → Option Members
as_object (object members) = some members
as_object _ = none

-- `.and_then(Value::as_str)` of a member
abbrev text_of : Option Value → Option String
text_of none = none
text_of (some v) = as_str v

abbrev pub member_str : String → Members → Option String
member_str key members = text_of (member_of key members)

abbrev pub get_str : Value → String → Option String
get_str v key = text_of (get v key)

-- `serde_json::json!({..})`, of a map or of listed members, and `json!([..])`
abbrev pub members_of : List (String × Value) → Members
members_of [] = no_members
members_of ((k, v) ∷ rest) = member k v (members_of rest)

abbrev pub json : List (String × Value) → Value
json fields = object (members_of fields)

abbrev pub list_of : List Value → Elements
list_of [] = no_elements
list_of (v ∷ vs) = element v (list_of vs)

abbrev pub json_list : List Value → Value
json_list vs = array (list_of vs)
