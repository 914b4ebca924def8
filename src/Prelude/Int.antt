-- ===== src/Prelude/Int.antt =====
-- Signed integers over the native numbers: `i32`, `i64` and points in time.
use tunnara.Prelude.{◌≡◌, ap, true, arith, ℕ, suc, ◌+◌, ◌≤◌, Bool, ltb, leb, ◌==◌, ◌&&◌}

-- `negsuc n` is -(n + 1).
pub data ℤ : Type 0 where
  pos : ℕ → ℤ
  negsuc : ℕ → ℤ

abbrev pub pos_part : ℤ → ℕ
pos_part (pos n) = n
pos_part (negsuc n) = 0

abbrev pub neg_part : ℤ → ℕ
neg_part (pos n) = 0
neg_part (negsuc n) = suc n

infix 50 ◌≤ℤ◌
abbrev pub ◌≤ℤ◌ : ℤ → ℤ → Type 0
a ≤ℤ b = pos_part a + neg_part b ≤ pos_part b + neg_part a

abbrev pub leb_ℤ : ℤ → ℤ → Bool
leb_ℤ a b = leb (pos_part a + neg_part b) (pos_part b + neg_part a)

abbrev pub ltb_ℤ : ℤ → ℤ → Bool
ltb_ℤ a b = ltb (pos_part a + neg_part b) (pos_part b + neg_part a)

abbrev pub eqb_ℤ : ℤ → ℤ → Bool
eqb_ℤ a b = pos_part a == pos_part b && neg_part a == neg_part b

pub eqb_ℤ-eq : (i j : ℤ) → eqb_ℤ i j ≡ true → i ≡ j
eqb_ℤ-eq (pos m) (pos n) h = ap pos (ground arith)
eqb_ℤ-eq (pos m) (negsuc n) h = ground arith
eqb_ℤ-eq (negsuc m) (pos n) h = ground arith
eqb_ℤ-eq (negsuc m) (negsuc n) h = ap negsuc (ground arith)

pub eqb_ℤ-refl : (i : ℤ) → eqb_ℤ i i ≡ true
eqb_ℤ-refl (pos m) = ground arith
eqb_ℤ-refl (negsuc m) = ground arith
