-- ===== src/Database/Command/Yields.antt =====
-- Triples for commands: what they keep of the environment, and what holds of what they return
-- (Database/Command.antt).
use tunnara.Prelude.{Bool, true, false, Option, none, some, String, if◌then◌else◌}
use tunnara.Database.Tables.{Database}
use tunnara.Database.Command.{
  Result, ok, err, Engine, State, Exec, pure, raise, continue, ◌>>=◌, attempt, ask, call, settle,
  run, execute,
}

abbrev pub OnOk : {A : Type 0} → (A → Type 0) → Result A → Type 0
OnOk Q (ok a) = Q a
OnOk Q (err m) = Unit

abbrev pub Always : {A : Type 0} → A → Type 0
Always a = Unit

pub record Yields {E A : Type 0} (I : E → Type 0) (Q : A → Type 0) (m : Exec E A) : Type 0 where
  pub at : (s : State E) → I s.env → I (m s).1.env × OnOk Q (m s).0

always : {A : Type 0} (r : Result A) → OnOk Always r
always (ok a) = tt
always (err m) = tt

module _ {E : Type 0} {I : E → Type 0} where
  pub Yields-pure : {A : Type 0} {Q : A → Type 0} (a : A) → Q a → Yields I Q (pure a)
  Yields-pure a q = record { at = λ s h. (h, q) }

  pub Yields-raise : {A : Type 0} {Q : A → Type 0} (m : String) → Yields I Q (raise m)
  Yields-raise m = record { at = λ s h. (h, tt) }

  pub Yields-ask :
      {A : Type 0} {Q : A → Type 0} (c : E → A × E)
      → ((e : E) → I e → I (c e).1 × Q (c e).0)
      → Yields I Q (ask c)
  Yields-ask c k = record { at = λ s h. k s.env h }

  pub Yields-call :
      {A : Type 0} (c : E → Result A × E) → ((e : E) → I e → I (c e).1) → Yields I Always (call c)
  Yields-call c k = record { at = λ s h. (k s.env h, always (c s.env).0) }

  pub Yields-bind :
      {A B : Type 0} {Q : A → Type 0} {R : B → Type 0} (m : Exec E A) (f : A → Exec E B)
      → Yields I Q m
      → ((a : A) → Q a → Yields I R (f a))
      → Yields I R (m >>= f)
  Yields-bind {A} {B} {Q} {R} m f km kf = record {
    at = λ s h. let (i, q) = km.at s h in inner (m s).0 (m s).1 i q;
  }
    where
      inner :
          (r : Result A) (s₁ : State E)
          → I s₁.env
          → OnOk Q r
          → I (continue r f s₁).1.env × OnOk R (continue r f s₁).0
      inner (ok a) s₁ i q = (kf a q).at s₁ i
      inner (err x) s₁ i q = (i, tt)

  -- The rule where nothing is known of what the first part returns.
  pub Yields-then :
      {A B : Type 0} {R : B → Type 0} (m : Exec E A) (f : A → Exec E B)
      → Yields I Always m
      → ((a : A) → Yields I R (f a))
      → Yields I R (m >>= f)
  Yields-then m f km kf = Yields-bind m f km (λ a _. kf a)

  pub Yields-done : {A : Type 0} (a : A) → Yields I Always (pure a)
  Yields-done a = Yields-pure a tt

  pub Yields-attempt : {A : Type 0} (m : Exec E A) → Yields I Always m → Yields I Always (attempt m)
  Yields-attempt m km = record { at = λ s h. ((km.at s h).0, tt) }

  -- A test that refuses.
  pub Yields-refuse : (b : Bool) (m : String) → Yields I Always (if b then raise m else pure tt)
  Yields-refuse true m = Yields-raise m
  Yields-refuse false m = Yields-pure tt tt

  module _ (engine : Engine E) where
    pub Yields-execute :
        {A : Type 0} (context : String) (body : Database → Result (A × Database))
        → ((e : E) → I e → I (engine.fault e).1)
        → Yields I Always (execute engine context body)
    unfolding execute
    Yields-execute {A} context body k =
        Yields-bind (ask engine.fault) (run engine context body)
          (Yields-ask {Q = Always} engine.fault (λ e h. (k e h, tt)))
          (λ o _. record { at = λ s h. faulted o s h })
      where
        settled :
            (r : Result (A × Database)) (s : State E)
            → I s.env
            → I (settle engine context r s).1.env × OnOk Always (settle engine context r s).0
        settled (ok (a, db)) s h = (h, tt)
        settled (err x) s h = (h, tt)

        faulted :
            (o : Option String) (s : State E)
            → I s.env
            → I (run engine context body o s).1.env × OnOk Always (run engine context body o s).0
        faulted none s h = settled (body s.db) s h
        faulted (some x) s h = (h, tt)

pub ruleset yields_rules = (Yields-then, Yields-done, Yields-raise, Yields-attempt, Yields-refuse)
