-- ===== src/Company/Document/Rule.antt =====
-- The documents that `validate_company_document` accepts (Company/Document.antt).
use tunnara.Prelude.{
  ℕ, ◌≤◌, ◌<◌, ◌≡◌, refl, ap, ◌↔◌, ◌⊎◌, Bool, true, false, inl, inr, if◌then◌else◌, ltb, leb, ◌==◌,
  arith, String, Bool-cases, ◌&&◌,
}
use tunnara.Prelude.Text.{is_ascii_digit, filter_chars}
use Prim.Native.String as Native
use text.Mathlib.TextPositions.{len_utf8-pos}
use tunnara.Company.Document.{
  to_digits, is_valid_cpf, is_valid_cnpj, only_digits, normalize_document_key,
  validate_company_document,
}
use tunnara.Company.Document.CheckDigits.{Cpf, Cnpj, cpf_digits-Cpf, cnpj_digits-Cnpj}

only_digits-cases : (s : String) → (only_digits s ≡ s) ⊎ (Native.len (only_digits s) < Native.len s)
unfolding only_digits filter_chars
only_digits-cases String.[] = inl refl
only_digits-cases (String.◌∷◌ c s) = elim (Bool-cases (is_ascii_digit c)) [
  | inl kept ↦ elim (only_digits-cases s) [
    | inl e ↦ inl (rw (kept, e) refl)
    | inr lt ↦ inr (rw (kept, Native.len.cons c (only_digits s), Native.len.cons c s) (omega arith))
  ]
  | inr dropped ↦ elim (only_digits-cases s) [
    | inl e ↦ inr (
        let p = (len_utf8-pos c).1 in
        let f = ap Native.len e in rw (dropped, Native.len.cons c s) (omega (arith, f, p)))
    | inr lt ↦ inr (rw (dropped, Native.len.cons c s) (omega arith))
  ]
]

-- 3 to 20 bytes; where they are 11 or 14 digits, a CPF or a CNPJ.
abbrev pub Admissible : String → Type 0
Admissible s =
    (3 ≤ Native.len s)
    × (Native.len s ≤ 20)
    × (only_digits s ≡ s → Native.len s ≡ 11 → Cpf (to_digits s))
    × (only_digits s ≡ s → Native.len s ≡ 14 → Cnpj (to_digits s))

abbrev accepted : ℕ → ℕ → Bool → Bool → Bool
accepted n d cpf cnpj =
    if ltb n 3
    then false
    else if d == 11 && d == n
    then cpf
    else if d == 14 && d == n
    then cnpj
    else if d == 0
    then leb 3 n && leb n 20
    else if d == n
    then leb 3 d && leb d 20
    else leb 3 n && leb n 20

accepted_sound :
    (n d : ℕ) (cpf cnpj : Bool)
    → accepted n d cpf cnpj ≡ true
    → (3 ≤ n) × (n ≤ 20) × (d ≡ n → n ≡ 11 → cpf ≡ true) × (d ≡ n → n ≡ 14 → cnpj ≡ true)
accepted_sound n d cpf cnpj h =
    (ground arith, ground arith, λ same eleven. ground arith, λ same fourteen. ground arith)

accepted_complete :
    (n d : ℕ) (cpf cnpj : Bool)
    → 3 ≤ n
    → n ≤ 20
    → (d ≡ n → n ≡ 11 → cpf ≡ true)
    → (d ≡ n → n ≡ 14 → cnpj ≡ true)
    → accepted n d cpf cnpj ≡ true
accepted_complete n d cpf cnpj low high eleven fourteen = ground arith

same_len : (s : String) → Native.len (only_digits s) ≡ Native.len s → only_digits s ≡ s
same_len s h = elim (only_digits-cases s) [
  | inl e ↦ e
  | inr lt ↦ (let z : ⊥ = omega (arith, lt, h) in elim z [ ])
]

is_valid_cpf-Cpf :
    (s : String) → only_digits s ≡ s → Native.len s ≡ 11 → is_valid_cpf s ≡ true ↔ Cpf (to_digits s)
unfolding is_valid_cpf
is_valid_cpf-Cpf s e h = rw (e, h) (cpf_digits-Cpf (to_digits s))

is_valid_cnpj-Cnpj :
    (s : String)
    → only_digits s ≡ s
    → Native.len s ≡ 14
    → is_valid_cnpj s ≡ true ↔ Cnpj (to_digits s)
unfolding is_valid_cnpj
is_valid_cnpj-Cnpj s e h = rw (e, h) (cnpj_digits-Cnpj (to_digits s))

accepted-Admissible :
    (s : String)
    → accepted
          (Native.len s)
          (Native.len (only_digits s))
          (is_valid_cpf (only_digits s))
          (is_valid_cnpj (only_digits s))
        ≡ true
      ↔ Admissible s
accepted-Admissible s = (
  λ h.
      let (low, high, eleven, fourteen) = accepted_sound _ _ _ _ h in
      (
        low,
        high,
        λ e n. (is_valid_cpf-Cpf s e n).0 (rw e at (eleven (ap Native.len e) n)),
        λ e n. (is_valid_cnpj-Cnpj s e n).0 (rw e at (fourteen (ap Native.len e) n)),
      ),
  λ h.
      accepted_complete (Native.len s) (Native.len (only_digits s)) (is_valid_cpf (only_digits s))
        (is_valid_cnpj (only_digits s)) h.0 h.1
        (λ same n. let e = same_len s same in rw e ((is_valid_cpf-Cpf s e n).1 (h.2 e n)))
        (λ same n. let e = same_len s same in rw e ((is_valid_cnpj-Cnpj s e n).1 (h.3 e n))),
)

module _ (to_uppercase : String → String) where
  -- `validate_company_document` accepts exactly the texts that have 3 to 20 bytes once
  -- normalized, and where those are 11 or 14 digits, only a CPF or a CNPJ whose digits are not
  -- all the same and whose two check digits are those of the official rule.
  pub validate_company_document-Admissible :
      (document : String)
      → validate_company_document to_uppercase document ≡ true
        ↔ Admissible (normalize_document_key to_uppercase document)
  unfolding validate_company_document
  validate_company_document-Admissible document =
      accepted-Admissible (normalize_document_key to_uppercase document)
