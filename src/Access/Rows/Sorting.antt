-- ===== src/Access/Rows/Sorting.antt =====
-- Sorting and `dedup` keep the members (Access/Rows.antt).
use tunnara.Prelude.{
  ◌≡◌, ◌⊎◌, inl, inr, ◌↔◌, Bool, true, false, Bool-cases, String, List, [], ◌∷◌, if◌then◌else◌,
  str_eq, arith, eq_iff,
}
use tunnara.Prelude.Members.{Memᴰ}
use tunnara.Access.Rows.{text_lt, insert_by, sort_by, sort_texts, dedup_from, dedup}

-- A list that one of two makes.
chosen :
    {A : Type 0} (P : List A → Type 0) (b : Bool) {xs ys : List A}
    → P xs
    → P ys
    → P (if b then xs else ys)
chosen P true p q = p
chosen P false p q = q

either :
    {A : Type 0} (P : List A → Type 0) (b : Bool) {xs ys : List A} {Q : Type 0}
    → (P xs → Q)
    → (P ys → Q)
    → P (if b then xs else ys)
    → Q
either P true f g p = f p
either P false f g p = g p

module _ {A : Type 0} (key : A → String) where
  mem-insert_by : (a x : A) (bs : List A) → Memᴰ x (insert_by key a bs) → Memᴰ x (a ∷ bs)
  unfolding insert_by
  mem-insert_by a x [] m = m
  mem-insert_by a x (b ∷ bs) m =
      either (Memᴰ x) (text_lt (key b) (key a)) (λ m. over (mem-insert_by a x bs) m) (λ m. m) m
    where
      swap : Memᴰ x (a ∷ bs) → Memᴰ x (a ∷ b ∷ bs)
      swap (Memᴰ.head e) = Memᴰ.head e
      swap (Memᴰ.tail m) = Memᴰ.tail (Memᴰ.tail m)

      over :
          (Memᴰ x (insert_by key a bs) → Memᴰ x (a ∷ bs))
          → Memᴰ x (b ∷ insert_by key a bs)
          → Memᴰ x (a ∷ b ∷ bs)
      over f (Memᴰ.head e) = Memᴰ.tail (Memᴰ.head e)
      over f (Memᴰ.tail m) = swap (f m)

  mem_insert_by : (a x : A) (bs : List A) → Memᴰ x (a ∷ bs) → Memᴰ x (insert_by key a bs)
  unfolding insert_by
  mem_insert_by a x [] m = m
  mem_insert_by a x (b ∷ bs) (Memᴰ.head e) =
      chosen (Memᴰ x) (text_lt (key b) (key a)) (Memᴰ.tail (mem_insert_by a x bs (Memᴰ.head e)))
        (Memᴰ.head e)
  mem_insert_by a x (b ∷ bs) (Memᴰ.tail (Memᴰ.head e)) =
      chosen (Memᴰ x) (text_lt (key b) (key a)) (Memᴰ.head e) (Memᴰ.tail (Memᴰ.head e))
  mem_insert_by a x (b ∷ bs) (Memᴰ.tail (Memᴰ.tail m)) =
      chosen (Memᴰ x) (text_lt (key b) (key a)) (Memᴰ.tail (mem_insert_by a x bs (Memᴰ.tail m)))
        (Memᴰ.tail (Memᴰ.tail m))

  mem-sort_by : (x : A) (bs : List A) → Memᴰ x (sort_by key bs) → Memᴰ x bs
  unfolding sort_by
  mem-sort_by x [] m = m
  mem-sort_by x (b ∷ bs) m = over (mem-sort_by x bs) (mem-insert_by b x (sort_by key bs) m)
    where
      over : (Memᴰ x (sort_by key bs) → Memᴰ x bs) → Memᴰ x (b ∷ sort_by key bs) → Memᴰ x (b ∷ bs)
      over f (Memᴰ.head e) = Memᴰ.head e
      over f (Memᴰ.tail m) = Memᴰ.tail (f m)

  mem_sort_by : (x : A) (bs : List A) → Memᴰ x bs → Memᴰ x (sort_by key bs)
  unfolding sort_by
  mem_sort_by x [] m = m
  mem_sort_by x (b ∷ bs) (Memᴰ.head e) = mem_insert_by b x (sort_by key bs) (Memᴰ.head e)
  mem_sort_by x (b ∷ bs) (Memᴰ.tail m) =
      mem_insert_by b x (sort_by key bs) (Memᴰ.tail (mem_sort_by x bs m))

mem-dedup_from : (x l : String) (ss : List String) → Memᴰ x (dedup_from l ss) → Memᴰ x ss
unfolding dedup_from
mem-dedup_from x l [] m = m
mem-dedup_from x l (s ∷ ss) m =
    either (Memᴰ x) (str_eq s l) (λ m. Memᴰ.tail (mem-dedup_from x l ss m))
      (over (mem-dedup_from x s ss)) m
  where
    over : (Memᴰ x (dedup_from s ss) → Memᴰ x ss) → Memᴰ x (s ∷ dedup_from s ss) → Memᴰ x (s ∷ ss)
    over f (Memᴰ.head e) = Memᴰ.head e
    over f (Memᴰ.tail m) = Memᴰ.tail (f m)

first_of :
    {A : Type 0} (P : List A → Type 0) (b : Bool) (xs ys : List A)
    → b ≡ true
    → P xs
    → P (if b then xs else ys)
first_of P true xs ys h p = p
first_of P false xs ys h p = cc

second_of :
    {A : Type 0} (P : List A → Type 0) (b : Bool) (xs ys : List A)
    → b ≡ false
    → P ys
    → P (if b then xs else ys)
second_of P true xs ys h p = cc
second_of P false xs ys h p = p

mem_dedup_from : (x l : String) (ss : List String) → Memᴰ x ss → (x ≡ l) ⊎ Memᴰ x (dedup_from l ss)
unfolding dedup_from
mem_dedup_from x l [] m = elim m [ ]
mem_dedup_from x l (s ∷ ss) (Memᴰ.head e) = elim (Bool-cases (str_eq s l)) [
  | inl k ↦ let q = eq_iff s l in inl (ground arith)
  | inr k ↦
      inr (second_of (Memᴰ x) (str_eq s l) (dedup_from l ss) (s ∷ dedup_from s ss) k (Memᴰ.head e))
]
mem_dedup_from x l (s ∷ ss) (Memᴰ.tail m) = elim (Bool-cases (str_eq s l)) [
  | inl k ↦ elim (mem_dedup_from x l ss m) [
    | inl e ↦ inl e
    | inr n ↦ inr (first_of (Memᴰ x) (str_eq s l) (dedup_from l ss) (s ∷ dedup_from s ss) k n)
  ]
  | inr k ↦ inr (
      second_of (Memᴰ x) (str_eq s l) (dedup_from l ss) (s ∷ dedup_from s ss) k
        (put (mem_dedup_from x s ss m)))
]
  where
    put : (x ≡ s) ⊎ Memᴰ x (dedup_from s ss) → Memᴰ x (s ∷ dedup_from s ss)
    put (inl e) = Memᴰ.head e
    put (inr n) = Memᴰ.tail n

mem-dedup : (x : String) (ss : List String) → Memᴰ x (dedup ss) → Memᴰ x ss
unfolding dedup
mem-dedup x [] m = m
mem-dedup x (s ∷ ss) (Memᴰ.head e) = Memᴰ.head e
mem-dedup x (s ∷ ss) (Memᴰ.tail m) = Memᴰ.tail (mem-dedup_from x s ss m)

mem_dedup : (x : String) (ss : List String) → Memᴰ x ss → Memᴰ x (dedup ss)
unfolding dedup
mem_dedup x [] m = m
mem_dedup x (s ∷ ss) (Memᴰ.head e) = Memᴰ.head e
mem_dedup x (s ∷ ss) (Memᴰ.tail m) = elim (mem_dedup_from x s ss m) [
  | inl e ↦ Memᴰ.head e
  | inr n ↦ Memᴰ.tail n
]

pub mem-dedup-sort_texts :
    (x : String) (ss : List String) → Memᴰ x (dedup (sort_texts ss)) ↔ Memᴰ x ss
unfolding sort_texts
mem-dedup-sort_texts x ss = (
  λ m. mem-sort_by (λ s. s) x ss (mem-dedup x (sort_texts ss) m),
  λ m. mem_dedup x (sort_texts ss) (mem_sort_by (λ s. s) x ss m),
)
