-- ===== src/Prelude/Text.antt =====
-- What the program uses of Rust's `str` and `char`, over native texts: a text is its sequence
-- of characters, and `len` counts the bytes of its UTF-8, as in Rust.
pub mod Trim
use Prim.Native.String.{String}
use Prim.Native.String as Native
use Prim.Native.Char.{Char, code}
pub use text.Mathlib.Text.{starts_with}
use tunnara.Prelude.{
  ℕ, zero, suc, ◌+◌, ◌-◌, ◌/◌, ◌%◌, ◌≡◌, refl, Bool, true, false, ◌||◌, ◌&&◌, if◌then◌else◌, leb,
  ltb, ◌==◌, arith, List, [], ◌∷◌,
}
use tunnara.Prelude.Int.{ℤ, pos, negsuc}

infixl 65 ◌++◌
abbrev pub ◌++◌ : String → String → String
s ++ t = Native.◌++◌ s t

-- `str::is_empty`
abbrev pub is_empty : String → Bool
is_empty String.[] = true
is_empty (String.◌∷◌ c s) = false

-- `char::is_ascii_digit`
abbrev pub is_ascii_digit : Char → Bool
is_ascii_digit c = leb 0x30 (code c) && leb (code c) 0x39

-- `char::is_ascii_alphanumeric`
abbrev pub is_ascii_alphanumeric : Char → Bool
is_ascii_alphanumeric c =
    is_ascii_digit c
    || (leb 0x41 (code c) && leb (code c) 0x5a)
    || (leb 0x61 (code c) && leb (code c) 0x7a)

-- `char::is_whitespace`: the property White_Space.
abbrev pub is_whitespace : Char → Bool
is_whitespace c =
    let n = code c in
    (leb 0x9 n && leb n 0xd)
    || n == 0x20
    || n == 0x85
    || n == 0xa0
    || n == 0x1680
    || (leb 0x2000 n && leb n 0x200a)
    || n == 0x2028
    || n == 0x2029
    || n == 0x202f
    || n == 0x205f
    || n == 0x3000

-- `chars().filter(p).collect()`
unfoldable pub filter_chars : (Char → Bool) → String → String
filter_chars p String.[] = String.[]
filter_chars p (String.◌∷◌ c s) =
    let rest = filter_chars p s in if p c then String.◌∷◌ c rest else rest

-- `str::trim_start`
unfoldable pub trim_start : String → String
trim_start String.[] = String.[]
trim_start (String.◌∷◌ c s) =
    let rest = trim_start s in if is_whitespace c then rest else String.◌∷◌ c s

-- `str::trim_end`
unfoldable pub trim_end : String → String
trim_end String.[] = String.[]
trim_end (String.◌∷◌ c s) =
    let rest = trim_end s in
    if is_whitespace c && is_empty rest then String.[] else String.◌∷◌ c rest

-- `str::trim`
unfoldable pub trim : String → String
unfolding trim_start trim_end
trim s = trim_end (trim_start s)

-- `str::trim_start_matches` and `str::trim_end_matches` with one character, given by its code.
unfoldable pub trim_start_matches : ℕ → String → String
trim_start_matches n String.[] = String.[]
trim_start_matches n (String.◌∷◌ c s) =
    let rest = trim_start_matches n s in if code c == n then rest else String.◌∷◌ c s

unfoldable pub trim_end_matches : ℕ → String → String
trim_end_matches n String.[] = String.[]
trim_end_matches n (String.◌∷◌ c s) =
    let rest = trim_end_matches n s in
    if code c == n && is_empty rest then String.[] else String.◌∷◌ c rest

-- `skip` is what is left of an occurrence that was replaced.
replace_from : String → String → ℕ → String → String
replace_from pattern by skip String.[] = String.[]
replace_from pattern by (suc skip) (String.◌∷◌ c s) = replace_from pattern by skip s
replace_from pattern by zero (String.◌∷◌ c s) =
    let after = replace_from pattern by (Native.count pattern - 1) s in
    let next = replace_from pattern by zero s in
    if starts_with (String.◌∷◌ c s) pattern then by ++ after else String.◌∷◌ c next

-- `str::replace`, for a pattern that is not empty.
unfoldable pub replace : String → String → String → String
unfolding replace_from
replace s pattern by = replace_from pattern by 0 s

-- The code of an ASCII letter in small, and any other code as it is.
abbrev pub lower_code : ℕ → ℕ
lower_code n = if leb 0x41 n && leb n 0x5a then n + 0x20 else n

-- `str::eq_ignore_ascii_case`, and SQLite's `LOWER(s) = LOWER(t)`
unfoldable pub eq_ignore_ascii_case : String → String → Bool
eq_ignore_ascii_case String.[] String.[] = true
eq_ignore_ascii_case String.[] (String.◌∷◌ d t) = false
eq_ignore_ascii_case (String.◌∷◌ c s) String.[] = false
eq_ignore_ascii_case (String.◌∷◌ c s) (String.◌∷◌ d t) =
    lower_code (code c) == lower_code (code d) && eq_ignore_ascii_case s t

-- SQLite's `LOWER(s) = t`
unfoldable pub lower_is : String → String → Bool
lower_is String.[] String.[] = true
lower_is String.[] (String.◌∷◌ d t) = false
lower_is (String.◌∷◌ c s) String.[] = false
lower_is (String.◌∷◌ c s) (String.◌∷◌ d t) = lower_code (code c) == code d && lower_is s t

-- `str::contains`
unfoldable pub contains : String → String → Bool
contains String.[] pattern = starts_with String.[] pattern
contains (String.◌∷◌ c s) pattern =
    let rest = contains s pattern in starts_with (String.◌∷◌ c s) pattern || rest

-- A character put in front of the first of some parts, of which there is one at least.
abbrev onto_part : Char → List String → List String
onto_part c [] = String.◌∷◌ c "" ∷ []
onto_part c (p ∷ ps) = String.◌∷◌ c p ∷ ps

-- `str::split` with one character, given by its code.
unfoldable pub split : ℕ → String → List String
split n String.[] = "" ∷ []
split n (String.◌∷◌ c s) =
    let rest = split n s in if code c == n then "" ∷ rest else onto_part c rest

-- `[String]::join`
unfoldable pub join : String → List String → String
join sep [] = ""
join sep (s ∷ []) = s
join sep (s ∷ t ∷ ss) = s ++ sep ++ join sep (t ∷ ss)

-- A character put in front of the first of some lines.
abbrev onto_first : Char → List String → List String
onto_first c [] = String.◌∷◌ c "" ∷ []
onto_first c (l ∷ ls) = String.◌∷◌ c l ∷ ls

abbrev starts_line_feed : String → Bool
starts_line_feed String.[] = false
starts_line_feed (String.◌∷◌ c s) = code c == 0xa

-- `str::lines`: cut after each line feed, which is dropped with a carriage return before it.
unfoldable pub lines : String → List String
lines String.[] = []
lines (String.◌∷◌ c s) =
    let rest = lines s in
    if code c == 0xa
    then "" ∷ rest
    else if code c == 0xd && starts_line_feed s
    then rest
    else onto_first c rest

abbrev digit : ℕ → String
digit d =
    if d == 0
    then "0"
    else if d == 1
    then "1"
    else if d == 2
    then "2"
    else if d == 3
    then "3"
    else if d == 4
    then "4"
    else if d == 5
    then "5"
    else if d == 6
    then "6"
    else if d == 7
    then "7"
    else if d == 8
    then "8"
    else "9"

show_digits : ℕ → ℕ → String
show_digits zero n = ""
show_digits (suc f) n =
    let rest = show_digits f (n / 10) in if ltb n 10 then digit n else rest ++ digit (n % 10)

-- A number as `{}` prints it.
unfoldable pub show_ℕ : ℕ → String
unfolding show_digits
show_ℕ n = show_digits (suc n) n

unfoldable pub show_ℤ : ℤ → String
unfolding show_ℕ
show_ℤ (pos n) = show_ℕ n
show_ℤ (negsuc n) = "-" ++ show_ℕ (suc n)

-- Filtering by a test twice is filtering once.
pub filter_chars_idem :
    (p : Char → Bool) (s : String) → filter_chars p (filter_chars p s) ≡ filter_chars p s
unfolding filter_chars
filter_chars_idem p String.[] = refl
filter_chars_idem p (String.◌∷◌ c s) = ground (arith, filter_chars_idem p s)

show_test : show_ℤ (negsuc 1204) ≡ "-1205"
unfolding show_ℤ
show_test = refl

trim_test : trim " a b\n" ≡ "a b"
unfolding trim
trim_test = refl

replace_test : replace "cliente/{document}" "{document}" "123" ≡ "cliente/123"
unfolding replace
replace_test = refl

trim_matches_test : trim_end_matches b'/' (trim_start_matches b'/' "//a/b/") ≡ "a/b"
unfolding trim_start_matches trim_end_matches
trim_matches_test = refl

lines_test : lines "a\r\n\nb\r" ≡ "a" ∷ "" ∷ "b\r" ∷ []
unfolding lines
lines_test = refl

join_test : join "|" ("a" ∷ "" ∷ "b" ∷ []) ≡ "a||b"
unfolding join
join_test = refl

contains_test : contains "an-RDP-x" "RDP" ≡ true
unfolding contains
contains_test = refl
