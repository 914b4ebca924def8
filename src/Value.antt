-- ===== src/Value.antt =====
-- `serde_json::Value`, which the console's commands take as payloads and write into logs.
use tunnara.Prelude.{Bool, Option, none, some, String, List, [], ◌∷◌, if◌then◌else◌, str_eq}
use tunnara.Prelude.Int.{ℤ}

-- A number by what the code reads of it: `as_i64` and its text.
pub record Number : Type 0 where
  pub as_i64 : Option ℤ
  pub printed : String

mutual
  pub data Value : Type 0 where
    null : Value
    bool : Bool → Value
    number : Number → Value
    string : String → Value
    array : Items → Value
    object : Fields → Value

  pub data Items : Type 0 where
    nil : Items
    cons : Value → Items → Items

  -- `Map<String, Value>`
  pub data Fields : Type 0 where
    end : Fields
    field : String → Value → Fields → Fields

-- `Map::get`
abbrev pub get : Fields → String → Option Value
get end key = none
get (field k v fs) key = let rest = get fs key in if str_eq k key then some v else rest

abbrev pub to_list : Items → List Value
to_list nil = []
to_list (cons v vs) = v ∷ to_list vs

-- `Value::get` with a key
abbrev pub get_in : Option Value → String → Option Value
get_in (some (object map)) key = get map key
get_in _ key = none

-- `Map::insert`
unfoldable pub insert : Fields → String → Value → Fields
insert end key value = field key value end
insert (field k v fs) key value =
    let rest = insert fs key value in if str_eq k key then field k value fs else field k v rest
