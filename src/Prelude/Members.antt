-- ===== src/Prelude/Members.antt =====
-- Lemmas on the members of a list, and on what `find`, `filter` and `concat_map` make of them.
pub use mathlib.Core.List.{Memᴰ}
use mathlib.Core.List.Memᴰ
use mathlib.Core.Path.{subst}
use tunnara.Prelude.{
  ◌≡◌, refl, ap, sym, ◌∙◌, ◌⊎◌, inl, inr, Bool, true, false, Bool-cases, none, some, List, [], ◌∷◌,
  ◌++◌, map, filter, find, any, concat_map, if◌then◌else◌, arith,
}

module _ {A : Type 0} where
  pub find-eq_some :
      (p : A → Bool) (xs : List A) (x : A) → find p xs ≡ some x → Memᴰ x xs × (p x ≡ true)
  find-eq_some p [] x h = cc
  find-eq_some p (y ∷ ys) x h = elim (Bool-cases (p y)) [
    | inl e ↦ let q : y ≡ x = ground arith in (Memᴰ.head (sym q), sym (ap p q) ∙ e)
    | inr e ↦ let (m, k) = find-eq_some p ys x (ground arith) in (Memᴰ.tail m, k)
  ]

  pub find-eq_none :
      (p : A → Bool) (xs : List A) (x : A) → find p xs ≡ none → Memᴰ x xs → p x ≡ false
  find-eq_none p [] x h m = elim m [ ]
  find-eq_none p (y ∷ ys) x h (Memᴰ.head e) = elim (Bool-cases (p y)) [
    | inl k ↦ ground arith
    | inr k ↦ ap p e ∙ k
  ]
  find-eq_none p (y ∷ ys) x h (Memᴰ.tail m) = elim (Bool-cases (p y)) [
    | inl k ↦ ground arith
    | inr k ↦ find-eq_none p ys x (ground arith) m
  ]

  pub any_of_mem : (p : A → Bool) (xs : List A) (x : A) → Memᴰ x xs → p x ≡ true → any p xs ≡ true
  any_of_mem p [] x m h = elim m [ ]
  any_of_mem p (y ∷ ys) x (Memᴰ.head e) h = let k : p y ≡ true = sym (ap p e) ∙ h in ground arith
  any_of_mem p (y ∷ ys) x (Memᴰ.tail m) h = let k = any_of_mem p ys x m h in ground arith

  pub mem_of_any :
      (p : A → Bool) (xs : List A) → any p xs ≡ true → (x : A) × Memᴰ x xs × (p x ≡ true)
  mem_of_any p [] h = cc
  mem_of_any p (y ∷ ys) h = elim (Bool-cases (p y)) [
    | inl e ↦ (y, Memᴰ.head refl, e)
    | inr e ↦ let (x, m, k) = mem_of_any p ys (ground arith) in (x, Memᴰ.tail m, k)
  ]

  -- What a test puts in front of a list.
  kept :
      (b : Bool) {x y : A} {ys : List A}
      → Memᴰ x (if b then y ∷ ys else ys)
      → ((b ≡ true) × (x ≡ y)) ⊎ Memᴰ x ys
  kept true (Memᴰ.head e) = inl (refl, e)
  kept true (Memᴰ.tail m) = inr m
  kept false m = inr m

  front : (b : Bool) {x y : A} (ys : List A) → b ≡ true → x ≡ y → Memᴰ x (if b then y ∷ ys else ys)
  front true ys h e = Memᴰ.head e
  front false ys h e = cc

  behind : (b : Bool) {x : A} (y : A) {ys : List A} → Memᴰ x ys → Memᴰ x (if b then y ∷ ys else ys)
  behind true y m = Memᴰ.tail m
  behind false y m = m

  pub mem-filter :
      (p : A → Bool) (xs : List A) (x : A) → Memᴰ x (filter p xs) → Memᴰ x xs × (p x ≡ true)
  mem-filter p [] x m = elim m [ ]
  mem-filter p (y ∷ ys) x m = elim (kept (p y) m) [
    | inl (h, e) ↦ (Memᴰ.head e, ap p e ∙ h)
    | inr k ↦ let (l, h) = mem-filter p ys x k in (Memᴰ.tail l, h)
  ]

  pub mem_filter :
      (p : A → Bool) (xs : List A) (x : A) → Memᴰ x xs → p x ≡ true → Memᴰ x (filter p xs)
  mem_filter p [] x m h = elim m [ ]
  mem_filter p (y ∷ ys) x (Memᴰ.head e) h = front (p y) (filter p ys) (sym (ap p e) ∙ h) e
  mem_filter p (y ∷ ys) x (Memᴰ.tail m) h = behind (p y) y (mem_filter p ys x m h)

  pub filter_idem : (p : A → Bool) (xs : List A) → filter p (filter p xs) ≡ filter p xs
  filter_idem p [] = refl
  filter_idem p (x ∷ xs) =
      let ih = filter_idem p xs in
      elim (Bool-cases (p x)) [ inl e ↦ ground arith | inr e ↦ ground arith ]

module _ {A B : Type 0} where
  pub mem-map :
      (f : A → B) (xs : List A) (y : B) → Memᴰ y (map f xs) → (x : A) × Memᴰ x xs × (y ≡ f x)
  mem-map f [] y m = elim m [ ]
  mem-map f (x ∷ xs) y (Memᴰ.head e) = (x, Memᴰ.head refl, e)
  mem-map f (x ∷ xs) y (Memᴰ.tail m) = let (z, l, e) = mem-map f xs y m in (z, Memᴰ.tail l, e)

  pub mem_map : (f : A → B) (xs : List A) (x : A) → Memᴰ x xs → Memᴰ (f x) (map f xs)
  mem_map f [] x m = elim m [ ]
  mem_map f (y ∷ ys) x (Memᴰ.head e) = Memᴰ.head (ap f e)
  mem_map f (y ∷ ys) x (Memᴰ.tail m) = Memᴰ.tail (mem_map f ys x m)

  pub mem-concat_map :
      (f : A → List B) (xs : List A) (y : B)
      → Memᴰ y (concat_map f xs)
      → (x : A) × Memᴰ x xs × Memᴰ y (f x)
  mem-concat_map f [] y m = elim m [ ]
  mem-concat_map f (x ∷ xs) y m = elim (Memᴰ.append_cases (f x) m) [
    | inl k ↦ (x, Memᴰ.head refl, k)
    | inr k ↦ let (z, l, n) = mem-concat_map f xs y k in (z, Memᴰ.tail l, n)
  ]

  pub mem_concat_map :
      (f : A → List B) (xs : List A) (x : A) (y : B)
      → Memᴰ x xs
      → Memᴰ y (f x)
      → Memᴰ y (concat_map f xs)
  mem_concat_map f [] x y m n = elim m [ ]
  mem_concat_map f (z ∷ xs) x y (Memᴰ.head e) n =
      Memᴰ.append_left (concat_map f xs) (subst (λ w. Memᴰ y (f w)) e n)
  mem_concat_map f (z ∷ xs) x y (Memᴰ.tail m) n =
      Memᴰ.append_right (f z) (mem_concat_map f xs x y m n)

module _ {A : Type 0} where
  pub mem-cons : {x y : A} {ys : List A} → Memᴰ x (y ∷ ys) → (x ≡ y) ⊎ Memᴰ x ys
  mem-cons (Memᴰ.head e) = inl e
  mem-cons (Memᴰ.tail m) = inr m

  pub mem-append_one : (xs : List A) (y x : A) → Memᴰ x (xs ++ (y ∷ [])) → Memᴰ x xs ⊎ (x ≡ y)
  mem-append_one [] y x (Memᴰ.head e) = inr e
  mem-append_one [] y x (Memᴰ.tail m) = elim m [ ]
  mem-append_one (z ∷ zs) y x (Memᴰ.head e) = inl (Memᴰ.head e)
  mem-append_one (z ∷ zs) y x (Memᴰ.tail m) = elim (mem-append_one zs y x m) [
    | inl k ↦ inl (Memᴰ.tail k)
    | inr e ↦ inr e
  ]

  pub not_any : (p : A → Bool) (xs : List A) (x : A) → any p xs ≡ false → Memᴰ x xs → p x ≡ false
  not_any p [] x h m = elim m [ ]
  not_any p (y ∷ ys) x h (Memᴰ.head e) = ap p e ∙ ground arith
  not_any p (y ∷ ys) x h (Memᴰ.tail m) = not_any p ys x (ground arith) m
