-- ===== src/Company/Limiter/Entries.antt =====
-- The entries of a map (Company/Limiter.antt).
use tunnara.Prelude.{
  ◌≡◌, refl, ◌⊎◌, inl, inr, Bool-cases, some, String, List, [], ◌∷◌, if◌then◌else◌, str_eq, eq_iff,
  arith,
}
use tunnara.Prelude.Members.{Memᴰ, mem-cons}
use tunnara.Company.Limiter.{lookup, put}

pub lookup-put :
    {A : Type 0} (k key : String) (a : A) (entries : List (String × A))
    → lookup k (put key a entries) ≡ (if str_eq key k then some a else lookup k entries)
lookup-put k key a [] = refl
lookup-put k key a ((j, b) ∷ rest) =
    let ih = lookup-put k key a rest in ground (arith, eq_iff j key, eq_iff j k, eq_iff key k)

pub lookup-mem :
    {A : Type 0} (key : String) (entries : List (String × A)) (a : A)
    → lookup key entries ≡ some a
    → Memᴰ (key, a) entries
lookup-mem key [] a h = cc
lookup-mem key ((k, b) ∷ rest) a h = elim (Bool-cases (str_eq k key)) [
  | inl same ↦
      let q : k ≡ key = ground (arith, eq_iff k key) in let r : b ≡ a = ground arith in Memᴰ.head cc
  | inr other ↦ Memᴰ.tail (lookup-mem key rest a (ground arith))
]

pub mem-put :
    {A : Type 0} (key : String) (new : A) (entries : List (String × A)) (k : String) (a : A)
    → Memᴰ (k, a) (put key new entries)
    → ((k ≡ key) × (a ≡ new)) ⊎ Memᴰ (k, a) entries
mem-put key new [] k a m = elim (mem-cons m) [ inl e ↦ inl (cc, cc) | inr n ↦ elim n [ ] ]
mem-put key new ((j, b) ∷ rest) k a m = elim (Bool-cases (str_eq j key)) [
  | inl same ↦
      let q : j ≡ key = ground (arith, eq_iff j key) in
      elim (mem-cons (rw same at m)) [ inl e ↦ inl (cc, cc) | inr n ↦ inr (Memᴰ.tail n) ]
  | inr other ↦ elim (mem-cons (rw other at m)) [
    | inl e ↦ inr (Memᴰ.head e)
    | inr n ↦ elim (mem-put key new rest k a n) [ inl e ↦ inl e | inr l ↦ inr (Memᴰ.tail l) ]
  ]
]
