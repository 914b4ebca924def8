-- ===== src/Access/Payload.antt =====
-- The readers of a command's payload in apps/console/src-tauri/src/commands/access.rs.
use tunnara.Prelude.{
  ◌≡◌, refl, ℕ, zero, suc, ◌+◌, ◌-◌, ◌*◌, ◌^◌, Bool, not, ◌||◌, ◌&&◌, Option, none, some, String,
  List, [], ◌∷◌, filter_map, if◌then◌else◌, code, ltb, ◌==◌, str_eq, and_then, unwrap_or,
}
use tunnara.Prelude.Int.{ℤ, pos, negsuc, eqb_ℤ}
use tunnara.Prelude.Text.{is_empty, is_ascii_digit, trim, split, contains}
use tunnara.Value.{Value, Fields, bool, number, string, array, get, to_list}

-- The digits of a number after what was read so far; none if another character is met.
pub digits : ℕ → String → Option ℕ
digits acc String.[] = some acc
digits acc (String.◌∷◌ c s) =
    let rest = digits (acc * 10 + (code c - 0x30)) s in if is_ascii_digit c then rest else none

abbrev pub unsigned : String → Option ℕ
unfolding digits
unsigned s = if is_empty s then none else digits 0 s

abbrev up_to_max : Option ℕ → Option ℤ
up_to_max none = none
up_to_max (some n) = if ltb n (2 ^ 63) then some (pos n) else none

abbrev down_to_min : Option ℕ → Option ℤ
down_to_min none = none
down_to_min (some zero) = some (pos 0)
down_to_min (some (suc n)) = if ltb n (2 ^ 63) then some (negsuc n) else none

-- `parse::<i64>()`
unfoldable pub parse_i64 : String → Option ℤ
unfolding unsigned digits
parse_i64 String.[] = none
parse_i64 (String.◌∷◌ c s) =
    if code c == b'-'
    then down_to_min (unsigned s)
    else if code c == b'+'
    then up_to_max (unsigned s)
    else up_to_max (unsigned (String.◌∷◌ c s))

-- `filter(|value| !value.is_empty())`
abbrev non_empty : String → Option String
non_empty s = if is_empty s then none else some s

abbrev text_of : Value → Option String
text_of (string s) = some (trim s)
text_of (number n) = some n.printed
text_of (bool b) = some (if b then "1" else "0")
text_of _ = none

unfoldable pub get_string : Fields → String → Option String
get_string payload key = and_then (and_then (get payload key) text_of) non_empty

abbrev flag : Bool → ℕ
flag b = if b then 1 else 0

abbrev flag_of : (String → String) → Bool → Option Value → ℕ
flag_of lower default (some (bool b)) = flag b
flag_of lower default (some (number n)) = flag (not (eqb_ℤ (unwrap_or n.as_i64 (pos 0)) (pos 0)))
flag_of lower default (some (string s)) =
    let t = lower (trim s) in
    flag (str_eq t "1" || str_eq t "true" || str_eq t "sim" || str_eq t "yes")
flag_of lower default _ = flag default

-- `to_lowercase` is the standard library's.
unfoldable pub get_bool : (String → String) → Fields → String → Bool → ℕ
get_bool lower payload key default = flag_of lower default (get payload key)

abbrev i64_of : Value → Option ℤ
unfolding parse_i64
i64_of (number n) = n.as_i64
i64_of (string s) = parse_i64 (trim s)
i64_of _ = none

unfoldable pub get_i64 : Fields → String → Option ℤ
unfolding i64_of
get_i64 payload key = and_then (get payload key) i64_of

abbrev item_of : Value → Option String
item_of (string s) = some (trim s)
item_of (number n) = some n.printed
item_of _ = none

-- The parts of a text between commas.
abbrev parts : String → List String
parts text = if is_empty (trim text) then [] else split b',' text

abbrev strings_of : Option Value → List String
strings_of (some (array items)) = filter_map (λ v. and_then (item_of v) non_empty) (to_list items)
strings_of (some (string text)) = filter_map (λ s. non_empty (trim s)) (parts text)
strings_of _ = []

unfoldable pub get_string_array : Fields → String → List String
get_string_array payload key = strings_of (get payload key)

abbrev i64s_of : Option Value → List ℤ
unfolding i64_of
i64s_of (some (array items)) = filter_map i64_of (to_list items)
i64s_of (some (string text)) = filter_map (λ s. parse_i64 (trim s)) (parts text)
i64s_of _ = []

unfoldable pub get_i64_array : Fields → String → List ℤ
unfolding i64s_of
get_i64_array payload key = i64s_of (get payload key)

unfoldable pub validate_email : String → Bool
validate_email value =
    let email = trim value in not (is_empty email) && contains email "@" && contains email "."

parse_i64_test :
    parse_i64 "-12" ∷ parse_i64 "9223372036854775808" ∷ parse_i64 "" ∷ []
    ≡ some (negsuc 11) ∷ none ∷ none ∷ []
unfolding parse_i64
parse_i64_test = refl
