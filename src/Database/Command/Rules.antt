-- ===== src/Database/Command/Rules.antt =====
-- What holds of a command by what holds of its steps (Database/Command.antt).
use tunnara.Prelude.{
  List, [], ◌∷◌, ap, sym, ◌∙◌, ◌≡◌, refl, Bool, true, false, if◌then◌else◌, Option, none, some,
  String,
}
use mathlib.Core.Path.{subst}
use tunnara.Database.Tables.{Database}
use tunnara.Database.Command.{
  Result, ok, err, Engine, State, Exec, pure, raise, lift, continue, ◌>>=◌, ◌>>◌, attempt, for_each,
  ask, call, settle, run, execute, query, update,
}

pub snd_ok :
    {A : Type 0} {a b : A} {db db' : Database}
    → ◌≡◌ {A = Result (A × Database)} (ok (a, db)) (ok (b, db'))
    → db ≡ db'
snd_ok h = cc

pub fst_ok :
    {A : Type 0} {a b : A} {db db' : Database}
    → ◌≡◌ {A = Result (A × Database)} (ok (a, db)) (ok (b, db'))
    → a ≡ b
fst_ok h = cc

module _ {E : Type 0} where
  -- A command that ended well ended well in each of its parts.
  pub bind-eq_ok :
      {A B : Type 0} (m : Exec E A) (f : A → Exec E B) (s : State E) (b : B) (s' : State E)
      → (m >>= f) s ≡ (ok b, s')
      → (a : A) × (s₁ : State E) × (m s ≡ (ok a, s₁)) × (f a s₁ ≡ (ok b, s'))
  bind-eq_ok {A} {B} m f s b s' h = inner (m s).0 (m s).1 refl h
    where
      inner :
          (r : Result A) (s₁ : State E)
          → m s ≡ (r, s₁)
          → continue r f s₁ ≡ (ok b, s')
          → (a : A) × (s₂ : State E) × (m s ≡ (ok a, s₂)) × (f a s₂ ≡ (ok b, s'))
      inner (ok a) s₁ e k = (a, s₁, e, k)
      inner (err x) s₁ e k = cc

  -- A test that ended well did not raise.
  pub raise_if-eq_ok :
      {A : Type 0} (b : Bool) (x : String) (n : Exec E A) (s : State E) (a : A) (s' : State E)
      → (if b then raise x else n) s ≡ (ok a, s')
      → (b ≡ false) × (n s ≡ (ok a, s'))
  raise_if-eq_ok true x n s a s' h = cc
  raise_if-eq_ok false x n s a s' h = (refl, h)

  pub raise_unless-eq_ok :
      {A : Type 0} (b : Bool) (x : String) (m : Exec E A) (s : State E) (a : A) (s' : State E)
      → (if b then m else raise x) s ≡ (ok a, s')
      → (b ≡ true) × (m s ≡ (ok a, s'))
  raise_unless-eq_ok true x m s a s' h = (refl, h)
  raise_unless-eq_ok false x m s a s' h = cc

  -- The branch that a test takes.
  pub branch_true :
      {A : Type 0} {b : Bool} (m n : Exec E A) {s : State E} {x : Result A × State E}
      → b ≡ true
      → (if b then m else n) s ≡ x
      → m s ≡ x
  branch_true {A} {b} m n {s} e h = sym (ap (λ c. (if c then m else n) s) e) ∙ h

  pub branch_false :
      {A : Type 0} {b : Bool} (m n : Exec E A) {s : State E} {x : Result A × State E}
      → b ≡ false
      → (if b then m else n) s ≡ x
      → n s ≡ x
  branch_false {A} {b} m n {s} e h = sym (ap (λ c. (if c then m else n) s) e) ∙ h

  pub lift-eq_ok :
      {A : Type 0} (r : Result A) (a : A) (s s' : State E)
      → lift r s ≡ (ok a, s')
      → (r ≡ ok a) × (s ≡ s')
  lift-eq_ok {A} r a s s' h =
      (ap (λ (x : Result A × State E). x.0) h, ap (λ (x : Result A × State E). x.1) h)

  pub pure-eq_ok :
      {A : Type 0} (a b : A) (s s' : State E) → pure a s ≡ (ok b, s') → (a ≡ b) × (s ≡ s')
  pure-eq_ok a b s s' h = (cc, cc)

-- `m` keeps `P`, whether it returns or raises.
pub record Stable {E A : Type 0} (P : Database → Type 0) (m : Exec E A) : Type 0 where
  pub at : (s : State E) → P s.db → P (m s).1.db

module _ {E : Type 0} {P : Database → Type 0} where
  pub Stable-pure : {A : Type 0} (a : A) → Stable {E = E} P (pure a)
  Stable-pure a = record { at = λ s h. h }

  pub Stable-raise : {A : Type 0} (m : String) → Stable {E = E} {A = A} P (raise m)
  Stable-raise m = record { at = λ s h. h }

  pub Stable-ask : {A : Type 0} (c : E → A × E) → Stable P (ask c)
  Stable-ask c = record { at = λ s h. h }

  pub Stable-call : {A : Type 0} (c : E → Result A × E) → Stable P (call c)
  Stable-call c = record { at = λ s h. h }

  pub Stable-bind :
      {A B : Type 0} (m : Exec E A) (f : A → Exec E B)
      → Stable P m
      → ((a : A) → Stable P (f a))
      → Stable P (m >>= f)
  Stable-bind {A} {B} m f km kf = record { at = λ s h. inner (m s).0 (m s).1 (km.at s h) }
    where
      inner : (r : Result A) (s₁ : State E) → P s₁.db → P (continue r f s₁).1.db
      inner (ok a) s₁ h = (kf a).at s₁ h
      inner (err x) s₁ h = h

  pub Stable-attempt : {A : Type 0} (m : Exec E A) → Stable P m → Stable P (attempt m)
  Stable-attempt m km = record { at = λ s h. km.at s h }

  pub Stable-lift : {A : Type 0} (r : Result A) → Stable {E = E} P (lift r)
  Stable-lift r = record { at = λ s h. h }

  pub Stable-if :
      {A : Type 0} (test : Bool) (yes_part no_part : Exec E A)
      → ((test ≡ true) → Stable P yes_part)
      → ((test ≡ false) → Stable P no_part)
      → Stable P (if test then yes_part else no_part)
  Stable-if true yes_part no_part first second = first refl
  Stable-if false yes_part no_part first second = second refl

  pub Stable-for_each :
      {A : Type 0} (l : List A) (f : A → Exec E (Unit {0}))
      → ((a : A) → Stable P (f a))
      → Stable P (for_each l f)
  Stable-for_each [] f kf = Stable-pure tt
  Stable-for_each (a ∷ l) f kf =
      Stable-bind (f a) (λ _. for_each l f) (kf a) (λ _. Stable-for_each l f kf)

module _ {E : Type 0} (engine : Engine E) {P : Database → Type 0} where
  -- A statement leaves the tables, or what the database makes of them.
  pub execute_at :
      {A : Type 0} (context : String) (body : Database → Result (A × Database)) (s : State E)
      → P s.db
      → ((a : A) (db' : Database) → body s.db ≡ ok (a, db') → P db')
      → P (execute engine context body s).1.db
  unfolding execute
  execute_at {A} context body s h keep = faulted (engine.fault s.env).0 (engine.fault s.env).1
    where
      settled :
          (r : Result (A × Database)) (e : E)
          → body s.db ≡ r
          → P (settle engine context r (record s { env = e })).1.db
      settled (ok (a, db)) e k = keep a db k
      settled (err x) e k = h

      faulted :
          (o : Option String) (e : E) → P (run engine context body o (record s { env = e })).1.db
      faulted none e = settled (body s.db) e refl
      faulted (some x) e = h

  -- A statement keeps what it keeps where the database runs it.
  pub Stable-execute :
      {A : Type 0} (context : String) (body : Database → Result (A × Database))
      → ((db : Database) (a : A) (db' : Database) → P db → body db ≡ ok (a, db') → P db')
      → Stable P (execute engine context body)
  Stable-execute context body keep = record {
    at = λ s h. execute_at context body s h (λ a db' e. keep s.db a db' h e);
  }

  pub Stable-query :
      {A : Type 0} (context : String) (f : Database → A) → Stable P (query engine context f)
  Stable-query context f =
      Stable-execute context (λ db. ok (f db, db)) (λ db a db' h e. subst P (snd_ok e) h)

  pub Stable-update :
      (context : String) (f : Database → Database)
      → ((db : Database) → P db → P (f db))
      → Stable P (update engine context f)
  Stable-update context f keep =
      Stable-execute context (λ db. ok (tt, f db)) (λ db a db' h e. subst P (snd_ok e) (keep db h))

module _ {E A B : Type 0} (m : Exec E A) (f : A → Exec E B) (s : State E)
    (P : Database → Type 0) where
  -- The rule for one state: the rest may use what the first part returned.
  pub bind_at :
      P (m s).1.db
      → ((a : A) (s₁ : State E) → m s ≡ (ok a, s₁) → P s₁.db → P (f a s₁).1.db)
      → P ((m >>= f) s).1.db
  bind_at h k = inner (m s).0 (m s).1 refl h
    where
      inner : (r : Result A) (s₁ : State E) → m s ≡ (r, s₁) → P s₁.db → P (continue r f s₁).1.db
      inner (ok a) s₁ e h = k a s₁ e h
      inner (err x) s₁ e h = h

module _ {E B : Type 0} {P : Database → Type 0} where
  -- After a check, the rest may use that it did not raise.
  pub Stable-check :
      (b : Bool) (x : String) (n : Exec E B)
      → (b ≡ false → Stable P n)
      → Stable P ((if b then raise x else pure tt) >> n)
  Stable-check true x n kn = record { at = λ s h. h }
  Stable-check false x n kn = kn refl

pub ruleset stable_rules = (
  Stable-pure, Stable-raise, Stable-lift, Stable-ask, Stable-call, Stable-if, Stable-bind,
  Stable-attempt, Stable-for_each, Stable-query, Stable-update,
)

module _ {E : Type 0} (engine : Engine E) where
  -- What a statement that ended well did.
  pub execute-eq_ok :
      {A : Type 0} (context : String) (body : Database → Result (A × Database)) (s s' : State E)
      (a : A)
      → execute engine context body s ≡ (ok a, s')
      → body s.db ≡ ok (a, s'.db)
  unfolding execute
  execute-eq_ok {A} context body s s' a h = faulted (engine.fault s.env).0 (engine.fault s.env).1 h
    where
      settled :
          (r : Result (A × Database)) (t : State E)
          → body t.db ≡ r
          → settle engine context r t ≡ (ok a, s')
          → body t.db ≡ ok (a, s'.db)
      settled (ok (b, db)) t e k = e ∙ cc
      settled (err x) t e k = cc

      faulted :
          (o : Option String) (e : E)
          → run engine context body o (record s { env = e }) ≡ (ok a, s')
          → body s.db ≡ ok (a, s'.db)
      faulted none e k = settled (body s.db) (record s { env = e }) refl k
      faulted (some x) e k = cc

  pub query-eq_ok :
      {A : Type 0} (context : String) (f : Database → A) (s s' : State E) (a : A)
      → query engine context f s ≡ (ok a, s')
      → (a ≡ f s.db) × (s'.db ≡ s.db)
  query-eq_ok context f s s' a h =
      let e = execute-eq_ok context (λ db. ok (f db, db)) s s' a h in
      (sym (fst_ok e), sym (snd_ok e))

  pub update-eq_ok :
      (context : String) (f : Database → Database) (s s' : State E) (a : Unit {0})
      → update engine context f s ≡ (ok a, s')
      → s'.db ≡ f s.db
  update-eq_ok context f s s' a h =
      sym (snd_ok (execute-eq_ok context (λ db. ok (tt, f db)) s s' a h))

  pub ask-eq_ok :
      {A : Type 0} (c : E → A × E) (s s' : State E) (a : A)
      → ask c s ≡ (ok a, s')
      → (a ≡ (c s.env).0) × (s'.db ≡ s.db)
  ask-eq_ok c s s' a h = (cc, cc)
