-- ===== src/Company/Document/CheckDigits.antt =====
-- The check digits of a CPF and a CNPJ, against the official rules (Company/Document.antt).
use tunnara.Prelude.{
  ℕ, zero, suc, ◌+◌, ◌-◌, ◌*◌, ◌%◌, ◌<◌, ◌≡◌, refl, ap, sym, ◌↔◌, true, false, inl, inr, List, [],
  ◌∷◌, all, length, if◌then◌else◌, ◌==◌, arith, Bool-cases,
}
use tunnara.Company.Document.{
  take, at, repeated, descending, weighted, check_digit, weights1, weights2, cpf_digits,
  cnpj_digits,
}

-- f 0 + … + f (n - 1)
abbrev pub sum_below : ℕ → (ℕ → ℕ) → ℕ
sum_below zero f = 0
sum_below (suc n) f = f 0 + sum_below n (λ i. f (suc i))

-- The official rule: ten times the sum, modulo 11, where 10 stands for 0.
abbrev pub IsCheckDigit : ℕ → ℕ → Type 0
IsCheckDigit digit sum = digit ≡ 10 * sum % 11 % 10

abbrev pub Repeated : List ℕ → Type 0
Repeated ns = (i : ℕ) → i < length ns → at i ns ≡ at 0 ns

-- The weights fall to 2 from 10 and from 11.
abbrev pub Cpf : List ℕ → Type 0
Cpf ns =
    (¬ Repeated ns)
    × IsCheckDigit (at 9 ns) (sum_below 9 (λ i. at i ns * (10 - i)))
    × IsCheckDigit (at 10 ns) (sum_below 10 (λ i. at i ns * (11 - i)))

-- From the right, the weights are 2 to 9 and again from 2.
abbrev pub Cnpj : List ℕ → Type 0
Cnpj ns =
    (¬ Repeated ns)
    × IsCheckDigit (at 12 ns) (sum_below 12 (λ i. at i ns * (2 + (11 - i) % 8)))
    × IsCheckDigit (at 13 ns) (sum_below 13 (λ i. at i ns * (2 + (12 - i) % 8)))

check_digit-rule : (sum : ℕ) → check_digit sum ≡ 10 * sum % 11 % 10
unfolding check_digit
check_digit-rule sum = ground arith

sum_below-congr : (n : ℕ) (f g : ℕ → ℕ) → ((i : ℕ) → f i ≡ g i) → sum_below n f ≡ sum_below n g
sum_below-congr zero f g h = refl
sum_below-congr (suc n) f g h =
    rw (h 0, sum_below-congr n (λ i. f (suc i)) (λ i. g (suc i)) (λ i. h (suc i))) refl

sum_below-zero : (n : ℕ) (f : ℕ → ℕ) → ((i : ℕ) → f i ≡ 0) → sum_below n f ≡ 0
sum_below-zero zero f h = refl
sum_below-zero (suc n) f h = rw (h 0, sum_below-zero n (λ i. f (suc i)) (λ i. h (suc i))) refl

descending-sum :
    (n top idx : ℕ) (ns : List ℕ)
    → descending top idx (take n ns) ≡ sum_below n (λ i. at i ns * (top - (idx + i)))
descending-sum zero top idx ns = refl
descending-sum (suc n) top idx [] =
    sym (sum_below-zero (suc n) (λ i. 0 * (top - (idx + i))) (λ i. omega arith))
descending-sum (suc n) top idx (m ∷ ns) =
    rw
      (
        descending-sum n top (suc idx) ns,
        sum_below-congr n (λ i. at i ns * (top - (suc idx + i)))
            (λ i. at i ns * (top - (idx + suc i)))
            (λ i. ap (λ k. at i ns * (top - k)) (omega arith)),
      )
      (ap (λ k. m * (top - k) + sum_below n (λ i. at i ns * (top - (idx + suc i)))) (omega arith))

weighted-sum :
    (n : ℕ) (ns ws : List ℕ) → weighted (take n ns) ws ≡ sum_below n (λ i. at i ns * at i ws)
weighted-sum zero ns ws = refl
weighted-sum (suc n) [] ws = sym (sum_below-zero (suc n) (λ i. 0 * at i ws) (λ i. omega arith))
weighted-sum (suc n) (m ∷ ns) [] =
    sym (sum_below-zero (suc n) (λ i. at i (m ∷ ns) * 0) (λ i. omega arith))
weighted-sum (suc n) (m ∷ ns) (w ∷ ws) = ap (λ k. m * w + k) (weighted-sum n ns ws)

all-eq : (m : ℕ) (ns : List ℕ) → all (λ n. n == m) ns ≡ true → (i : ℕ) → i < length ns → at i ns ≡ m
all-eq m [] h i lt = omega (arith, lt)
all-eq m (n ∷ ns) h zero lt = ground arith
all-eq m (n ∷ ns) h (suc i) lt = all-eq m ns (ground arith) i (omega arith)

eq-all :
    (m : ℕ) (ns : List ℕ) → ((i : ℕ) → i < length ns → at i ns ≡ m) → all (λ n. n == m) ns ≡ true
eq-all m [] h = refl
eq-all m (n ∷ ns) h =
    let head : n ≡ m = h 0 (omega arith) in
    let ih = eq-all m ns (λ i lt. h (suc i) (omega (arith, lt))) in ground arith

repeated-Repeated : (ns : List ℕ) → repeated ns ≡ true ↔ Repeated ns
repeated-Repeated [] = (λ h i lt. omega (arith, lt), λ h. refl)
repeated-Repeated (n ∷ ns) = (λ h. all-eq n (n ∷ ns) h, λ h. eq-all n (n ∷ ns) h)

eqb_iff : (d e : ℕ) → (d == e ≡ true → d ≡ e) × (d ≡ e → d == e ≡ true)
eqb_iff d e = (λ h. ground arith, λ h. ground arith)

false-true : ¬ (false ≡ true)
false-true h = cc

judged :
    (ns : List ℕ) (d₁ e₁ d₂ e₂ : ℕ)
    → (if repeated ns then false else if d₁ == e₁ then d₂ == e₂ else false) ≡ true
      ↔ (¬ Repeated ns) × (d₁ ≡ e₁) × (d₂ ≡ e₂)
judged ns d₁ e₁ d₂ e₂ =
    let (to, from) = repeated-Repeated ns in
    elim (Bool-cases (repeated ns)) [
      | inl all_same ↦ rw all_same (λ h. elim (false-true h) [ ], λ h. elim (h.0 (to all_same)) [ ])
      | inr mixed ↦
          rw mixed
            (λ h. (λ same. let e = from same in cc, ground arith, ground arith), λ h. ground arith)
    ]

pub cpf_digits-Cpf : (ns : List ℕ) → cpf_digits ns ≡ true ↔ Cpf ns
unfolding cpf_digits
cpf_digits-Cpf ns =
    rw
      (
        check_digit-rule (descending 10 0 (take 9 ns)),
        check_digit-rule (descending 11 0 (take 10 ns)),
        descending-sum 9 10 0 ns,
        descending-sum 10 11 0 ns,
      )
      (judged ns _ _ _ _)

-- Each weight is that of the official rule.
pub cnpj_digits-Cnpj : (ns : List ℕ) → cnpj_digits ns ≡ true ↔ Cnpj ns
unfolding cnpj_digits
cnpj_digits-Cnpj ns =
    rw
      (
        check_digit-rule (weighted (take 12 ns) weights1),
        check_digit-rule (weighted (take 13 ns) weights2),
        weighted-sum 12 ns weights1,
        weighted-sum 13 ns weights2,
      )
      (judged ns _ _ _ _)
