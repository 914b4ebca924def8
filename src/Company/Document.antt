-- ===== src/Company/Document.antt =====
-- Documents and registrations of companies in apps/console/src-tauri/src/commands/companies.rs.
pub mod CheckDigits
pub mod Rule
use tunnara.Prelude.{
  ℕ, zero, suc, ◌+◌, ◌-◌, ◌*◌, ◌%◌, Bool, true, false, not, ◌&&◌, Option, none, some, String, List,
  [], ◌∷◌, all, length, if◌then◌else◌, code, ltb, leb, ◌==◌, str_eq, map_option, and_then,
}
use tunnara.Prelude.Text.{is_ascii_digit, is_ascii_alphanumeric, filter_chars, is_empty, trim}
use Prim.Native.String as Native

unfoldable pub only_digits : String → String
unfolding filter_chars
only_digits value = filter_chars is_ascii_digit value

-- `to_digit(10)` of each character
abbrev pub to_digits : String → List ℕ
to_digits String.[] = []
to_digits (String.◌∷◌ c s) =
    let rest = to_digits s in if is_ascii_digit c then (code c - 0x30) ∷ rest else rest

abbrev pub take : ℕ → List ℕ → List ℕ
take zero ns = []
take (suc k) [] = []
take (suc k) (n ∷ ns) = n ∷ take k ns

-- `nums[i]`, where there is one
abbrev pub at : ℕ → List ℕ → ℕ
at i [] = 0
at zero (n ∷ ns) = n
at (suc i) (n ∷ ns) = at i ns

-- `bytes.iter().all(|b| *b == bytes[0])`
abbrev pub repeated : List ℕ → Bool
repeated [] = true
repeated (n ∷ ns) = all (λ m. m == n) (n ∷ ns)

-- The sum of the digits, each times `top` less its index, which counts from `idx`.
abbrev pub descending : ℕ → ℕ → List ℕ → ℕ
descending top idx [] = 0
descending top idx (n ∷ ns) = n * (top - idx) + descending top (suc idx) ns

-- The sum of the digits, each times its weight.
abbrev pub weighted : List ℕ → List ℕ → ℕ
weighted [] ws = 0
weighted (n ∷ ns) [] = 0
weighted (n ∷ ns) (w ∷ ws) = n * w + weighted ns ws

unfoldable pub check_digit : ℕ → ℕ
check_digit sum = if ltb (sum % 11) 2 then 0 else 11 - sum % 11

abbrev pub weights1 : List ℕ
weights1 = 5 ∷ 4 ∷ 3 ∷ 2 ∷ 9 ∷ 8 ∷ 7 ∷ 6 ∷ 5 ∷ 4 ∷ 3 ∷ 2 ∷ []

abbrev pub weights2 : List ℕ
weights2 = 6 ∷ 5 ∷ 4 ∷ 3 ∷ 2 ∷ 9 ∷ 8 ∷ 7 ∷ 6 ∷ 5 ∷ 4 ∷ 3 ∷ 2 ∷ []

-- The tests of `is_valid_cpf` on the digits, of which there are 11.
unfoldable pub cpf_digits : List ℕ → Bool
unfolding check_digit
cpf_digits nums =
    if repeated nums
    then false
    else if at 9 nums == check_digit (descending 10 0 (take 9 nums))
    then at 10 nums == check_digit (descending 11 0 (take 10 nums))
    else false

unfoldable pub is_valid_cpf : String → Bool
unfolding cpf_digits only_digits
is_valid_cpf value =
    if Native.len (only_digits value) == 11
    then cpf_digits (to_digits (only_digits value))
    else false

unfoldable pub cnpj_digits : List ℕ → Bool
unfolding check_digit
cnpj_digits nums =
    if repeated nums
    then false
    else if at 12 nums == check_digit (weighted (take 12 nums) weights1)
    then at 13 nums == check_digit (weighted (take 13 nums) weights2)
    else false

unfoldable pub is_valid_cnpj : String → Bool
unfolding cnpj_digits only_digits
is_valid_cnpj value =
    if Native.len (only_digits value) == 14
    then cnpj_digits (to_digits (only_digits value))
    else false

-- `filter(|text| !text.is_empty())`
abbrev pub non_empty : String → Option String
non_empty s = if is_empty s then none else some s

-- `to_uppercase` is the standard library's.
module _ (to_uppercase : String → String) where
  unfoldable pub normalize_document_key : String → String
  unfolding filter_chars
  normalize_document_key value = to_uppercase (filter_chars is_ascii_alphanumeric value)

  unfoldable pub registration : String → String
  unfolding only_digits
  registration text =
      let upper = to_uppercase text in
      let digits = only_digits upper in
      if str_eq upper "ISENTO"
      then upper
      else if not (is_empty digits)
          && Native.len digits == Native.count (filter_chars is_ascii_digit upper)
      then digits
      else upper

  unfoldable pub normalize_optional_registration : Option String → Option String
  unfolding registration
  normalize_optional_registration value =
      map_option registration (and_then (map_option trim value) non_empty)

  unfoldable pub normalize_upper_uf : Option String → Option String
  normalize_upper_uf value = and_then (map_option to_uppercase value) non_empty

  unfoldable pub validate_company_document : String → Bool
  unfolding normalize_document_key is_valid_cpf is_valid_cnpj only_digits
  validate_company_document document =
      let normalized = normalize_document_key document in
      let digits = only_digits normalized in
      let n = Native.len normalized in
      let d = Native.len digits in
      if ltb n 3
      then false
      else if d == 11 && d == n
      then is_valid_cpf digits
      else if d == 14 && d == n
      then is_valid_cnpj digits
      else if d == 0
      then leb 3 n && leb n 20
      else if d == n
      then leb 3 d && leb d 20
      else leb 3 n && leb n 20
