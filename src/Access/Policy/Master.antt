-- ===== src/Access/Policy/Master.antt =====
-- Whom the administration lets in (Access/Policy.antt).
use tunnara.Prelude.{◌≡◌, refl, ap, sym, ◌∙◌, true, false, String, ◌==◌}
use mathlib.Core.Path.{subst}
use tunnara.Prelude.Members.{Memᴰ}
use tunnara.Prelude.Int.{ℤ}
use tunnara.Prelude.Text.{trim}
use tunnara.Database.Tables.{Database, User}
use tunnara.Database.Command.{Result, ok, Engine, State, Exec, pure, call, ◌>>=◌, ◌>>◌}
use tunnara.Database.Command.Rules.{
  bind-eq_ok, pure-eq_ok, raise_unless-eq_ok, Stable, Stable-call, Stable-if, Stable-pure,
  Stable-raise, Stable-bind,
}
use tunnara.Database.Keeping.{open_connection-Stable}
use tunnara.Access.Sessions.{SessionIdentity, touch, require_session_by_token}
use tunnara.Access.Sessions.Acceptance.{
  Accepted, require_session_by_token-eq_ok, require_session_by_token-Stable,
}
use tunnara.Access.Policy.{connect, ensure_master}

-- An account that the session check takes for a master's, and that is active.
pub record IsMaster (db : Database) (i : ℤ) : Type 0 where
  pub user : User
  pub known : Memᴰ user db.users
  pub same_id : i ≡ user.id
  pub is_master : (user.master_user == 1) ≡ true
  pub active : (user.ativo == 0) ≡ false

-- The token's session has not expired at `now`, and its user, whose number is `i`, is a master.
pub record Authorised (db : Database) (token now : String) (i : ℤ) : Type 0 where
  pub identity : SessionIdentity
  pub accepted : Accepted db token now identity
  pub same_id : identity.user_id ≡ i
  pub master : identity.master_user ≡ true

pub Authorised-IsMaster :
    {db : Database} {token now : String} {i : ℤ} → Authorised db token now i → IsMaster db i
Authorised-IsMaster a = record {
  user = a.accepted.user;
  known = a.accepted.known;
  same_id = sym a.same_id ∙ a.accepted.named;
  is_master = sym a.accepted.master ∙ a.master;
  active = a.accepted.active;
}

module _ {E : Type 0} (engine : Engine E) where
  pub ensure_master-eq_ok :
      (token : String) (s s' : State E) (i : ℤ)
      → ensure_master engine token s ≡ (ok i, s')
      → Authorised s.db token (engine.to_rfc3339 (engine.utc_now s.env).0) i
        × (s'.db ≡ touch (trim token) (engine.to_rfc3339 (engine.utc_now s.env).0) s.db)
  unfolding ensure_master
  ensure_master-eq_ok token s s' i h =
      let (identity, s₁, h₁, h₂) = bind-eq_ok (require_session_by_token engine token) _ s i s' h in
      let (accepted, touched) = require_session_by_token-eq_ok engine token s s₁ identity h₁ in
      let (master, h₃) = raise_unless-eq_ok identity.master_user _ _ s₁ i s' h₂ in
      let (same, left) = pure-eq_ok identity.user_id i s₁ s' h₃ in
      (
        record { identity = identity; accepted = accepted; same_id = same; master = master },
        sym (ap (λ (t : State E). t.db) left) ∙ touched,
      )

  -- The time that the clock shows once the connection is open.
  abbrev pub time_of : State E → String
  time_of s = engine.to_rfc3339 (engine.utc_now (connect engine s).1.env).0

  pub connect-db : (s : State E) → (connect engine s).1.db ≡ s.db
  connect-db s =
      (Stable-bind (call engine.db_path) _ (Stable-call _)
          (λ _. open_connection-Stable engine {P = λ db. db ≡ s.db})).at
        s refl

  pub connected :
      (token : String) (s s₁ : State E) (i : ℤ) {a : Unit {0}}
      → connect engine s ≡ (ok a, s₁)
      → Authorised s₁.db token (engine.to_rfc3339 (engine.utc_now s₁.env).0) i
      → Authorised s.db token (time_of s) i
  connected token s s₁ i h authorised =
      let e : (connect engine s).1 ≡ s₁ = ap (λ (r : Result (Unit {0}) × State E). r.1) h in
      subst (λ db. Authorised db token (time_of s) i)
        (sym (ap (λ (t : State E). t.db) e) ∙ connect-db s)
        (subst (λ now. Authorised s₁.db token now i)
          (sym (ap (λ (t : State E). engine.to_rfc3339 (engine.utc_now t.env).0) e)) authorised)

  -- A command of the administration that ended well.
  pub administered-eq_ok :
      {A : Type 0} (token : String) (f : ℤ → Exec E A) (s s' : State E) (a : A)
      → (connect engine >> (ensure_master engine token >>= f)) s ≡ (ok a, s')
      → (i : ℤ) × (s₁ : State E) × Authorised s.db token (time_of s) i
        × (s₁.db ≡ touch (trim token) (time_of s) s.db)
        × (f i s₁ ≡ (ok a, s'))
  administered-eq_ok token f s s' a h =
      let (_, s₁, h₁, h₂) =
        bind-eq_ok (connect engine) (λ _. ensure_master engine token >>= f) s a s' h in
      let e : (connect engine s).1 ≡ s₁ = ap (λ (r : Result (Unit {0}) × State E). r.1) h₁ in
      let (i, s₂, h₃, h₄) = bind-eq_ok (ensure_master engine token) f s₁ a s' h₂ in
      let (authorised, touched) = ensure_master-eq_ok token s₁ s₂ i h₃ in
      let time : engine.to_rfc3339 (engine.utc_now s₁.env).0 ≡ time_of s =
        sym (ap (λ (t : State E). engine.to_rfc3339 (engine.utc_now t.env).0) e) in
      let same : s₁.db ≡ s.db = sym (ap (λ (t : State E). t.db) e) ∙ connect-db s in
      (
        i,
        s₂,
        subst (λ db. Authorised db token (time_of s) i) same
            (subst (λ now. Authorised s₁.db token now i) time authorised),
        touched
            ∙ ap (λ now. touch (trim token) now s₁.db) time
            ∙ ap (touch (trim token) (time_of s)) same,
        h₄,
      )

module _ {E : Type 0} (engine : Engine E) {P : Database → Type 0} where
  pub connect-Stable : Stable P (connect engine)
  connect-Stable =
      Stable-bind (call engine.db_path) _ (Stable-call _) (λ _. open_connection-Stable engine)

  pub ensure_master-Stable :
      ((t n : String) (db : Database) → P db → P (touch t n db))
      → (token : String) → Stable P (ensure_master engine token)
  unfolding ensure_master
  ensure_master-Stable k token =
      Stable-bind _ _ (require_session_by_token-Stable engine k token)
        (λ i. Stable-if i.master_user (pure i.user_id) _ (λ _. Stable-pure _) (λ _. Stable-raise _))
