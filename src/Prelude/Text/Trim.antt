-- ===== src/Prelude/Text/Trim.antt =====
-- What trimming one character off a text's ends leaves.
use Prim.Native.String.{String}
use Prim.Native.String.append.{nil, cons}
use Prim.Native.Char.{Char}
use tunnara.Prelude.{
  ℕ, ◌≡◌, refl, Bool, true, false, ◌&&◌, if◌then◌else◌, ◌==◌, arith, code, Bool-cases, inl, inr, ap,
  ◌∙◌,
}
use tunnara.Prelude.Text.{◌++◌, is_empty, trim_start_matches, trim_end_matches}

-- Tests on the first and the last character, given by its code; an empty text has none.
abbrev pub first_is : ℕ → String → Bool
first_is n String.[] = false
first_is n (String.◌∷◌ c s) = code c == n

abbrev pub last_is : ℕ → String → Bool
last_is n String.[] = false
last_is n (String.◌∷◌ c s) = let rest = last_is n s in if is_empty s then code c == n else rest

-- Every character has the code.
abbrev pub only : ℕ → String → Bool
only n String.[] = true
only n (String.◌∷◌ c s) = code c == n && only n s

eq_empty : (s : String) → is_empty s ≡ true → s ≡ ""
eq_empty String.[] h = refl
eq_empty (String.◌∷◌ c s) h = cc

append-nil : (t : String) → "" ++ t ≡ t
append-nil t i = nil t i

append-cons : (c : Char) (s t : String) → String.◌∷◌ c s ++ t ≡ String.◌∷◌ c (s ++ t)
append-cons c s t i = cons c s t i

pub trim_start_matches-first : (n : ℕ) (s : String) → first_is n (trim_start_matches n s) ≡ false
unfolding trim_start_matches
trim_start_matches-first n String.[] = refl
trim_start_matches-first n (String.◌∷◌ c s) = ground (arith, trim_start_matches-first n s)

pub trim_start_matches-split :
    (n : ℕ) (s : String) → (t : String) × (only n t ≡ true) × (s ≡ t ++ trim_start_matches n s)
unfolding trim_start_matches
trim_start_matches-split n String.[] = ("", refl, refl)
trim_start_matches-split n (String.◌∷◌ c s) = elim (Bool-cases (code c == n)) [
  | inl here ↦
      let (t, alike, split) = trim_start_matches-split n s in
      (
        String.◌∷◌ c t,
        ground arith,
        rw (here, append-cons c t (trim_start_matches n s)) (ap (λ x. String.◌∷◌ c x) split),
      )
  | inr other ↦ ("", refl, rw (other, append-nil (String.◌∷◌ c s)) refl)
]

pub trim_end_matches-last : (n : ℕ) (s : String) → last_is n (trim_end_matches n s) ≡ false
unfolding trim_end_matches
trim_end_matches-last n String.[] = refl
trim_end_matches-last n (String.◌∷◌ c s) = ground (arith, trim_end_matches-last n s)

pub trim_end_matches-split :
    (n : ℕ) (s : String) → (t : String) × (only n t ≡ true) × (s ≡ trim_end_matches n s ++ t)
unfolding trim_end_matches
trim_end_matches-split n String.[] = ("", refl, refl)
trim_end_matches-split n (String.◌∷◌ c s) =
    let (t, alike, split) = trim_end_matches-split n s in
    elim (Bool-cases (code c == n && is_empty (trim_end_matches n s))) [
      | inl all_off ↦ (
        String.◌∷◌ c t,
        ground arith,
        rw (all_off, append-nil (String.◌∷◌ c t))
            (ap (λ x. String.◌∷◌ c x)
              (split
                ∙ ap (λ x. x ++ t) (eq_empty (trim_end_matches n s) (ground arith))
                ∙ append-nil t)),
      )
      | inr kept ↦ (
        t,
        alike,
        rw (kept, append-cons c (trim_end_matches n s) t) (ap (λ x. String.◌∷◌ c x) split),
      )
    ]
