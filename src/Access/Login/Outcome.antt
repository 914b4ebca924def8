-- ===== src/Access/Login/Outcome.antt =====
-- What a login that succeeds leaves (Access/Login.antt).
use tunnara.Prelude.{
  ◌≡◌, ap, sym, ◌∙◌, ◌⊎◌, inl, inr, true, false, Bool-cases, Option, none, some, String, any,
  if◌then◌else◌, str_eq, ◌==◌,
}
use mathlib.Core.Path.{subst}
use tunnara.Prelude.Members.{Memᴰ, find-eq_some}
use tunnara.Prelude.Text.{trim, lower_is}
use tunnara.Database.Tables.{Database, User}
use tunnara.Database.Command.{ok, Engine, State, Exec, pure, lift, ◌>>=◌, ◌>>◌, call, query}
use tunnara.Database.Command.Rules.{
  Stable, Stable-bind, Stable-call, bind-eq_ok, query-eq_ok, pure-eq_ok, branch_true, branch_false,
  lift-eq_ok,
}
use tunnara.Database.Keeping.{open_connection-Stable, unlogged, Stable-eq}
use tunnara.Security.{verify_password}
use tunnara.Access.Sessions.{LoginResponse}
use tunnara.Access.Login.{
  begin, refusal, user_by_login, clear_sessions, start_session, check_password, login_row,
  auth_login,
}
use tunnara.Access.Login.Opening.{logged_in, start_session-eq_ok}

module _ {E : Type 0} (engine : Engine E) where
  refused-eq_ok :
      (x : String) (s s' : State E) (r : LoginResponse)
      → pure (refusal x) s ≡ (ok r, s')
      → (r.success ≡ false) × (r.session_token ≡ none) × (s'.db ≡ s.db)
  refused-eq_ok x s s' r h =
      let (e, k) = pure-eq_ok (refusal x) r s s' h in
      (
        sym (ap (λ (a : LoginResponse). a.success) e),
        sym (ap (λ (a : LoginResponse). a.session_token) e),
        sym (ap (λ (t : State E). t.db) k),
      )

  -- The outcome of a login that was let in, with the environment `e` in which it started the
  -- session.
  pub record LoggedIn (login senha : String) (db db' : Database) (r : LoginResponse) (e : E)
      : Type 0 where
    pub row : User
    pub last : String
    pub listed : Memᴰ row db.users
    pub same_login : lower_is row.login (engine.to_lowercase (trim login)) ≡ true
    pub active : (row.ativo == 0) ≡ false
    pub right_password : verify_password engine senha row.senha_hash ≡ ok true
    pub success : r.success ≡ true
    pub token : r.session_token ≡ some (engine.new_v4 (engine.utc_now e).1).0
    pub fresh :
        any
          (λ t. str_eq t.session_token (engine.new_v4 (engine.utc_now e).1).0)
          (clear_sessions row.id (engine.to_rfc3339 (engine.utc_now e).0) db).sessions
        ≡ false
    pub tables :
        unlogged db'
        ≡ unlogged (
            logged_in engine
              (engine.utc_now e).0
              (engine.new_v4 (engine.utc_now e).1).0
              last
              row
              db)

  abbrev verified : User → String → Exec E LoginResponse
  verified row senha = lift (verify_password engine senha row.senha_hash) >>= λ right.
      if right then start_session engine row else pure (refusal "Senha inválida.")

  login_row-eq_ok :
      (login senha : String) (row : Option User) (s s' : State E) (r : LoginResponse)
      → user_by_login (engine.to_lowercase (trim login)) s.db ≡ row
      → login_row engine senha row s ≡ (ok r, s')
      → ((e : E) × LoggedIn login senha s.db s'.db r e)
        ⊎ ((r.success ≡ false) × (r.session_token ≡ none) × (s'.db ≡ s.db))
  unfolding login_row check_password
  login_row-eq_ok login senha none s s' r f h =
      inr (refused-eq_ok "Usuário não encontrado." s s' r h)
  login_row-eq_ok login senha (some row) s s' r f h = elim (Bool-cases (row.ativo == 0)) [
    | inl e ↦
        inr
          (refused-eq_ok "Usuário inativo." s s' r (branch_true (pure _) (verified row senha) e h))
    | inr e ↦
        let (right, s₁, h₁, k₁) =
          bind-eq_ok (lift (verify_password engine senha row.senha_hash)) _ s r s'
            (branch_false (pure _) (verified row senha) e h) in
        let (q, same) = lift-eq_ok _ right s s₁ h₁ in
        let (listed, same_login) =
          find-eq_some (λ u. lower_is u.login (engine.to_lowercase (trim login))) s.db.users row
            f in
        elim (Bool-cases right) [
          | inl t ↦
              let k : start_session engine row s ≡ (ok r, s') =
                ap (start_session engine row) same
                ∙ branch_true (start_session engine row) (pure (refusal "Senha inválida.")) t k₁ in
              let (last, success, token, fresh, tables) = start_session-eq_ok engine row s s' r k in
              inl (
                s.env,
                record {
                  row = row;
                  last = last;
                  listed = listed;
                  same_login = same_login;
                  active = e;
                  right_password = q ∙ ap ok t;
                  success = success;
                  token = token;
                  fresh = fresh;
                  tables = tables;
                },
              )
          | inr t ↦
              let (a, b, c) =
                refused-eq_ok "Senha inválida." s₁ s' r (
                  branch_false (start_session engine row) (pure (refusal "Senha inválida.")) t
                    k₁) in
              inr (a, b, c ∙ sym (ap (λ (x : State E). x.db) same))
        ]
  ]

  begin-Stable : {P : Database → Type 0} → Stable P (begin engine)
  begin-Stable =
      Stable-bind (call engine.db_path >> call engine.data_dir) _
        (Stable-bind (call engine.db_path) _ (Stable-call _) (λ _. Stable-call _))
        (λ _. open_connection-Stable engine)

  -- A login that ends without an error either let the caller in or refused it. If it let it in,
  -- an active user has the login that was given, but for case and the spaces around it, and the
  -- password that was given, as it was given; the answer's token is new, no session that was kept
  -- has it; and but for the logs, the tables are those before with the time of the user's last
  -- login, without the user's earlier sessions and without the expired ones, and with one more
  -- session, of that user and that token, which expires seven days later. If it refused it, the
  -- answer has no token and the tables are those before.
  pub auth_login-eq_ok :
      (login senha : String) (s s' : State E) (r : LoginResponse)
      → auth_login engine login senha s ≡ (ok r, s')
      → ((e : E) × LoggedIn login senha s.db s'.db r e)
        ⊎ ((r.success ≡ false) × (r.session_token ≡ none) × (s'.db ≡ s.db))
  unfolding auth_login
  auth_login-eq_ok login senha s s' r h =
      let look =
        query engine "Falha ao consultar usuário: "
          (user_by_login (engine.to_lowercase (trim login))) in
      let (_, s₁, h₁, k₁) =
        bind-eq_ok (begin engine) (λ _. look >>= login_row engine senha) s r s' h in
      let (row, s₂, h₂, k₂) = bind-eq_ok look (login_row engine senha) s₁ r s' k₁ in
      let (found, same) = query-eq_ok engine _ (user_by_login _) s₁ s₂ row h₂ in
      let e₁ = Stable-eq (λ db. db) (begin engine) s s₁ _ begin-Stable h₁ in
      let e : s₂.db ≡ s.db = same ∙ e₁ in
      let f : user_by_login (engine.to_lowercase (trim login)) s₂.db ≡ row =
        ap (user_by_login (engine.to_lowercase (trim login))) same ∙ sym found in
      subst
        (λ db.
          ((e : E) × LoggedIn login senha db s'.db r e)
          ⊎ ((r.success ≡ false) × (r.session_token ≡ none) × (s'.db ≡ db)))
        e (login_row-eq_ok login senha row s₂ s' r f k₂)
