-- ===== src/License/Json.antt =====
-- JSON values as the code sees them: a type `V` of values (`serde_json::Value`) with the view
-- that a `match` on a value has, and with what `json!` builds. And what the code relies on to
-- read texts: upper case, and the date formats of the calendar library.
use tunnara.Prelude.{ℕ, Bool, Option, none, some, String, List, [], ◌∷◌, and_then}
use tunnara.Prelude.Int.{ℤ}
use tunnara.License.Models.{DateTime}

-- A JSON number: `as_i64`, `as_u64` and its text.
pub record Number : Type 0 where
  pub as_i64 : Option ℤ
  pub as_u64 : Option ℕ
  pub printed : String

pub data Kind (V : Type 0) : Type 0 where
  null : Kind V
  bool : Bool → Kind V
  number : Number → Kind V
  string : String → Kind V
  array : List V → Kind V
  -- `Map::get`
  object : (String → Option V) → Kind V

pub record Json (V : Type 0) : Type 0 where
  pub view : V → Kind V
  pub of_null : V
  pub of_bool : Bool → V
  pub of_ℕ : ℕ → V
  pub of_string : String → V
  pub of_array : List V → V
  pub of_object : List (String × V) → V

abbrev pub NaiveDateTime : Type 0
NaiveDateTime = ℤ

pub record Formats : Type 0 where
  -- `str::to_uppercase`
  pub to_uppercase : String → String
  -- `DateTime::parse_from_rfc3339` and, with its format, `DateTime::parse_from_str`
  pub parse_from_rfc3339 : String → Option DateTime
  pub parse_from_str : String → String → Option DateTime
  -- `NaiveDateTime::parse_from_str`, the text before the format
  pub parse_naive : String → String → Option NaiveDateTime
  -- `Local.from_local_datetime(…).single()`
  pub from_local : NaiveDateTime → Option DateTime

module _ {V : Type 0} where
  abbrev pub object_of : Kind V → Option (String → Option V)
  object_of (object get) = some get
  object_of _ = none

  abbrev pub text_of : Kind V → Option String
  text_of (string s) = some s
  text_of _ = none

  abbrev pub array_of : Kind V → Option (List V)
  array_of (array items) = some items
  array_of _ = none

  abbrev pub i64_of : Kind V → Option ℤ
  i64_of (number n) = n.as_i64
  i64_of _ = none

  abbrev pub u64_of : Kind V → Option ℕ
  u64_of (number n) = n.as_u64
  u64_of _ = none

  -- `obj.get(k₁).or_else(|| obj.get(k₂))…`: the first key that is there.
  abbrev pub get_first : List String → (String → Option V) → Option V
  get_first [] get = none
  get_first (k ∷ ks) get =
      let rest = get_first ks get in elim (get k) [ none ↦ rest | some v ↦ some v ]

module _ {V : Type 0} (j : Json V) where
  abbrev pub as_object : V → Option (String → Option V)
  as_object v = object_of (j.view v)

  abbrev pub as_str : V → Option String
  as_str v = text_of (j.view v)

  abbrev pub as_array : V → Option (List V)
  as_array v = array_of (j.view v)

  abbrev pub as_i64 : V → Option ℤ
  as_i64 v = i64_of (j.view v)

  abbrev pub as_u64 : V → Option ℕ
  as_u64 v = u64_of (j.view v)

  -- The text under the first of the keys that is there.
  abbrev pub text_at : List String → (String → Option V) → Option String
  text_at keys get = and_then (get_first keys get) as_str
