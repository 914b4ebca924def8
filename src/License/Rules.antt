-- ===== src/License/Rules.antt =====
-- Postconditions of the effects of `World`, with a rule for each way that code is composed.
use tunnara.Prelude.{◌≡◌, refl, ap, Bool, true, false}
use tunnara.License.World.{Result, ok, err, Outcome, returns, running, M, ◌>>=◌, attempt}

-- What holds of the value, if the code ends; it ends with a value and no error.
abbrev pub Yields : {E A : Type 0} → (A → Type 0) → Outcome E A → Type 0
Yields P (returns (ok a) e) = P a
Yields P (returns (err x) e) = ⊥
Yields P running = Unit {0}

abbrev pub has_ended : {E A : Type 0} → Outcome E A → Bool
has_ended (returns r e) = true
has_ended running = false

module _ {E : Type 0} where
  then : {A B : Type 0} → Outcome E A → (A → M E B) → Outcome E B
  then o f = elim o [
    | returns (ok a) e' ↦ f a e'
    | returns (err x) e' ↦ returns (err x) e'
    | running ↦ running
  ]

  settle : {A : Type 0} → Outcome E A → Outcome E (Result A)
  settle o = elim o [ returns r e' ↦ returns (ok r) e' | running ↦ running ]

  Yields-then :
      {A B : Type 0} (P : A → Type 0) (Q : B → Type 0) (o : Outcome E A) (f : A → M E B)
      → Yields P o
      → ((a : A) (e : E) → P a → Yields Q (f a e))
      → Yields Q (then o f)
  unfolding then
  Yields-then P Q (returns (ok a) e) f h k = k a e h
  Yields-then P Q (returns (err x) e) f h k = absurd h
  Yields-then P Q running f h k = tt

  Yields-settle :
      {A B : Type 0} (Q : B → Type 0) (o : Outcome E A) (f : Result A → M E B)
      → ((r : Result A) (e : E) → Yields Q (f r e))
      → Yields Q (then (settle o) f)
  unfolding then settle
  Yields-settle Q (returns r e) f k = k r e
  Yields-settle Q running f k = tt

  module _ {A B : Type 0} where
    pub Yields-bind :
        (P : A → Type 0) (Q : B → Type 0) (m : M E A) (f : A → M E B) (e : E)
        → Yields P (m e)
        → ((a : A) (e' : E) → P a → Yields Q (f a e'))
        → Yields Q ((m >>= f) e)
    unfolding then
    Yields-bind P Q m f e = Yields-then P Q (m e) f

    pub Yields-attempt :
        (Q : B → Type 0) (m : M E A) (f : Result A → M E B) (e : E)
        → ((r : Result A) (e' : E) → Yields Q (f r e'))
        → Yields Q ((attempt m >>= f) e)
    unfolding then settle
    Yields-attempt Q m f e = Yields-settle Q (m e) f

    settle-ended :
        (o : Outcome E A) (f : Result A → M E B)
        → has_ended o ≡ true
        → ((r : Result A) (e : E) → has_ended (f r e) ≡ true)
        → has_ended (then (settle o) f) ≡ true
    unfolding then settle
    settle-ended (returns r e) f h k = k r e
    settle-ended running f h k = cc

    pub attempt-ended :
        (m : M E A) (f : Result A → M E B) (e : E)
        → has_ended (m e) ≡ true
        → ((r : Result A) (e' : E) → has_ended (f r e') ≡ true)
        → has_ended ((attempt m >>= f) e) ≡ true
    unfolding then settle
    attempt-ended m f e = settle-ended (m e) f

    then-ended :
        (o : Outcome E A) (f : A → M E B)
        → has_ended o ≡ true
        → ((a : A) (e : E) → has_ended (f a e) ≡ true)
        → has_ended (then o f) ≡ true
    unfolding then
    then-ended (returns (ok a) e) f h k = k a e
    then-ended (returns (err x) e) f h k = refl
    then-ended running f h k = cc

    pub bind-ended :
        (m : M E A) (f : A → M E B) (e : E)
        → has_ended (m e) ≡ true
        → ((a : A) (e' : E) → has_ended (f a e') ≡ true)
        → has_ended ((m >>= f) e) ≡ true
    unfolding then
    bind-ended m f e = then-ended (m e) f

    settle-running :
        (o : Outcome E A) (f : Result A → M E B)
        → ((r : Result A) (e : E) → f r e ≡ running)
        → then (settle o) f ≡ running
    unfolding then settle
    settle-running (returns r e) f k = k r e
    settle-running running f k = refl

    pub attempt-running :
        (m : M E A) (f : Result A → M E B) (e : E)
        → ((r : Result A) (e' : E) → f r e' ≡ running)
        → (attempt m >>= f) e ≡ running
    unfolding then settle
    attempt-running m f e = settle-running (m e) f

-- What holds of the value, if the code ends with one.
abbrev pub Allows : {E A : Type 0} → (A → Type 0) → Outcome E A → Type 0
Allows P (returns (ok a) e) = P a
Allows P (returns (err x) e) = Unit {0}
Allows P running = Unit {0}

pub Allows-weaken :
    {E A : Type 0} {P Q : A → Type 0} (o : Outcome E A)
    → Allows P o
    → ((a : A) → P a → Q a)
    → Allows Q o
Allows-weaken (returns (ok a) e) h k = k a h
Allows-weaken (returns (err x) e) h k = tt
Allows-weaken running h k = tt

module _ {E A B : Type 0} (Q : B → Type 0) where
  Allows-then :
      (o : Outcome E A) (f : A → M E B)
      → ((a : A) (e : E) → o ≡ returns (ok a) e → Allows Q (f a e))
      → Allows Q (then o f)
  unfolding then
  Allows-then (returns (ok a) e) f k = k a e refl
  Allows-then (returns (err x) e) f k = tt
  Allows-then running f k = tt

  pub Allows-bind :
      (m : M E A) (f : A → M E B) (e : E)
      → ((a : A) (e' : E) → m e ≡ returns (ok a) e' → Allows Q (f a e'))
      → Allows Q ((m >>= f) e)
  unfolding then
  Allows-bind m f e = Allows-then (m e) f

  Allows-settle :
      (o : Outcome E A) (f : Result A → M E B)
      → ((r : Result A) (e : E) → o ≡ returns r e → Allows Q (f r e))
      → Allows Q (then (settle o) f)
  unfolding then settle
  Allows-settle (returns r e) f k = k r e refl
  Allows-settle running f k = tt

  pub Allows-attempt :
      (m : M E A) (f : Result A → M E B) (e : E)
      → ((r : Result A) (e' : E) → m e ≡ returns r e' → Allows Q (f r e'))
      → Allows Q ((attempt m >>= f) e)
  unfolding then settle
  Allows-attempt m f e = Allows-settle (m e) f

module _ {E A B : Type 0} where
  settle_returns :
      (o : Outcome E A) (b : B)
      → has_ended o ≡ true
      → (e' : E) × (then (settle o) (λ _ e. returns (ok b) e) ≡ returns (ok b) e')
  unfolding then settle
  settle_returns (returns r e) b h = (e, refl)
  settle_returns running b h = cc

  pub attempt_returns :
      (m : M E A) (e : E) (b : B)
      → has_ended (m e) ≡ true
      → (e' : E) × ((attempt m >>= (λ _ e. returns (ok b) e)) e ≡ returns (ok b) e')
  unfolding then settle
  attempt_returns m e b h = settle_returns (m e) b h

  pub bind_returns :
      (m : M E A) (f : A → M E B) (e : E) {a : A} {e' : E}
      → m e ≡ returns (ok a) e'
      → (m >>= f) e ≡ f a e'
  unfolding then
  bind_returns m f e {a} {e'} h = ap (λ o. then o f) h
