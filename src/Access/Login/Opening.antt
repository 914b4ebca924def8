-- ===== src/Access/Login/Opening.antt =====
-- The session that a login opens (Access/Login.antt).
use tunnara.Prelude.{
  none, ◌≡◌, ap, sym, ◌∙◌, inl, inr, ℕ, ◌+◌, true, false, Bool-cases, not, some, String, [], ◌∷◌,
  ◌++◌, map, filter, any, if◌then◌else◌, str_eq, ◌||◌, arith,
}
use tunnara.Prelude.Int.{ℤ, eqb_ℤ}
use tunnara.Database.Tables.{Database, User, Session}
use tunnara.Database.Command.{ok, Engine, State, pure, attempt, execute, update}
use tunnara.Database.Command.Rules.{
  Stable-attempt, bind-eq_ok, update-eq_ok, execute-eq_ok, pure-eq_ok,
}
use tunnara.Database.{write_app_log}
use tunnara.Database.Keeping.{unlogged, unlogged-Unlogged, Stable-eq, write_app_log-Stable}
use tunnara.Access.Rows.{has_user, text_lt}
use tunnara.Access.Sessions.{LoginResponse, build_auth_user}
use tunnara.Access.Sessions.Identity.{build_auth_user-Stable}
use tunnara.Access.Login.{
  login_details, welcome, week, clear_sessions, insert_session, update_user, start_session,
}

-- The session that a login at the time `now` opens for the user.
abbrev pub opened : {E : Type 0} → Engine E → ℕ → String → ℤ → Session
opened engine now token i = record {
  usuario_id = i;
  session_token = token;
  created_at = engine.to_rfc3339 now;
  expires_at = engine.to_rfc3339 (now + week);
  last_activity_at = engine.to_rfc3339 now;
}

module _ {E : Type 0} (engine : Engine E) where
  -- The tables once the session was opened and the time `last` of the login was written.
  abbrev pub logged_in : ℕ → String → String → User → Database → Database
  logged_in now token last row db = record db {
    users =
        map (λ u. if eqb_ℤ u.id row.id then record u { ultimo_login_em = some last } else u)
          db.users;
    sessions =
        filter
          (λ s.
            not (eqb_ℤ s.usuario_id row.id || not (text_lt (engine.to_rfc3339 now) s.expires_at)))
          db.sessions
        ++ (opened engine now token row.id ∷ []);
  }

  insert_session-eq_ok :
      (n : Session) (db db' : Database) (a : Unit {0})
      → insert_session n db ≡ ok (a, db')
      → (any (λ t. str_eq t.session_token n.session_token) db.sessions ≡ false)
        × (db' ≡ record db { sessions = db.sessions ++ (n ∷ []) })
  insert_session-eq_ok n db db' a h =
      elim (Bool-cases (any (λ t. str_eq t.session_token n.session_token) db.sessions)) [
        | inl e ↦ ground arith
        | inr e ↦ elim (Bool-cases (has_user n.usuario_id db)) [
          | inl k ↦ (e, ground arith)
          | inr k ↦ ground arith
        ]
      ]

  pub start_session-eq_ok :
      (row : User) (s s' : State E) (r : LoginResponse)
      → start_session engine row s ≡ (ok r, s')
      → let now = (engine.utc_now s.env).0 in
        let token = (engine.new_v4 (engine.utc_now s.env).1).0 in
        (last : String) × (r.success ≡ true)
        × (r.session_token ≡ some token)
        × (any
              (λ t. str_eq t.session_token token)
              (clear_sessions row.id (engine.to_rfc3339 now) s.db).sessions
            ≡ false)
        × (unlogged s'.db ≡ unlogged (logged_in now token last row s.db))
  unfolding start_session
  start_session-eq_ok row s s' r h =
      let now = (engine.utc_now s.env).0 in
      let token = (engine.new_v4 (engine.utc_now s.env).1).0 in
      let s₂ : State E = record { db = s.db; env = (engine.new_v4 (engine.utc_now s.env).1).1 } in
      let (_, s₃, h₃, k₃) =
        bind-eq_ok
          (update engine "Falha ao limpar sessões antigas: "
            (clear_sessions row.id (engine.to_rfc3339 now)))
          _ s₂ r s' h in
      let (_, s₄, h₄, k₄) =
        bind-eq_ok
          (execute engine "Falha ao criar sessão: "
            (insert_session (opened engine now token row.id)))
          _ s₃ r s' k₃ in
      let last = engine.to_rfc3339 (engine.utc_now s₄.env).0 in
      let s₅ : State E = record { db = s₄.db; env = (engine.utc_now s₄.env).1 } in
      let (_, s₆, h₆, k₆) =
        bind-eq_ok
          (update engine "Falha ao atualizar último login: "
            (update_user row.id (λ u. record u { ultimo_login_em = some last })))
          _ s₅ r s' k₄ in
      let (user, s₇, h₇, k₇) = bind-eq_ok (build_auth_user engine row.id) _ s₆ r s' k₆ in
      let log = attempt (
        write_app_log engine none "info" "auth" "Login efetuado com sucesso."
          (some (login_details row))) in
      let (_, s₈, h₈, k₈) = bind-eq_ok log (λ _. pure (welcome token user)) s₇ r s' k₇ in
      let (answer, e₈) = pure-eq_ok (welcome token user) r s₈ s' k₈ in
      let d₃ = update-eq_ok engine _ (clear_sessions row.id (engine.to_rfc3339 now)) s₂ s₃ _ h₃ in
      let (fresh, d₄) =
        insert_session-eq_ok (opened engine now token row.id) s₃.db s₄.db _
          (execute-eq_ok engine _ (insert_session (opened engine now token row.id)) s₃ s₄ _ h₄) in
      let d₆ =
        update-eq_ok engine _ (update_user row.id (λ u. record u { ultimo_login_em = some last }))
          s₅ s₆ _ h₆ in
      let d₇ =
        Stable-eq (λ db. db) (build_auth_user engine row.id) s₆ s₇ _
          (build_auth_user-Stable engine row.id) h₇ in
      let d₈ =
        Stable-eq unlogged log s₇ s₈ _
          (Stable-attempt _ (write_app_log-Stable engine (unlogged-Unlogged s₇.db) _ _ _ _ _)) h₈ in
      let whole : s₆.db ≡ logged_in now token last row s.db =
        d₆
        ∙ ap (update_user row.id (λ u. record u { ultimo_login_em = some last })) d₄
        ∙ ap
            (λ db.
              update_user row.id (λ u. record u { ultimo_login_em = some last })
                (record db { sessions = db.sessions ++ (opened engine now token row.id ∷ []) }))
            d₃ in
      (
        last,
        sym (ap (λ (x : LoginResponse). x.success) answer),
        sym (ap (λ (x : LoginResponse). x.session_token) answer),
        sym (ap (λ (db : Database). any (λ t. str_eq t.session_token token) db.sessions) d₃)
            ∙ fresh,
        sym (ap (λ (t : State E). unlogged t.db) e₈) ∙ d₈ ∙ ap unlogged (d₇ ∙ whole),
      )
