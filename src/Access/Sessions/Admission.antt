-- ===== src/Access/Sessions/Admission.antt =====
-- A session that is valid is let in (Access/Sessions.antt).
use tunnara.Prelude.{
  ◌≡◌, refl, ap, sym, ◌∙◌, true, false, Option, none, some, String, if◌then◌else◌, ◌==◌, ◌&&◌,
  str_eq, eq_iff, filter, map, Option-cases, inl, inr, arith,
}
use tunnara.Prelude.Members.{Memᴰ, find-eq_some, find-eq_none, mem_filter, mem_map, mem_concat_map}
use tunnara.Prelude.Int.{eqb_ℤ, eqb_ℤ-refl}
use tunnara.Access.Rows.{text_lt}
use tunnara.Access.Sessions.Acceptance.{joined-mem}
use tunnara.Prelude.Text.{trim, is_empty}
use tunnara.Database.Tables.{Database, User, Session}
use tunnara.Database.Command.{
  Result, ok, Engine, State, Exec, pure, raise, continue, ◌>>=◌, ◌>>◌, run, settle, execute, query,
  update, now_rfc3339,
}
use tunnara.Access.Sessions.{
  SessionIdentity, invalid_session, joined, find_session, touch, accept_session,
  require_session_by_token,
}

-- The tables list a session that has not expired at `now`, and its user, who is active; no other
-- session has its token, and no other user the user's number.
pub record Valid (db : Database) (token now : String) (session : Session) (user : User)
    : Type 0 where
  pub listed : Memᴰ session db.sessions
  pub known : Memᴰ user db.users
  pub same_token : session.session_token ≡ token
  pub unexpired : text_lt now session.expires_at ≡ true
  pub owner : user.id ≡ session.usuario_id
  pub active : (user.ativo == 0) ≡ false
  pub only_session :
      (t : Session) → Memᴰ t db.sessions → t.session_token ≡ session.session_token → t ≡ session
  pub only_user : (u : User) → Memᴰ u db.users → u.id ≡ user.id → u ≡ user

-- A valid session is the one that the query finds.
find_session-Valid :
    (db : Database) (token now : String) (session : Session) (user : User)
    → Valid db token now session user
    → find_session token now db ≡ some (session, user)
find_session-Valid db token now session user v =
    let test : Session × User → _ =
      λ r. str_eq r.0.session_token token && text_lt now r.0.expires_at in
    let owned = filter (λ u. eqb_ℤ u.id session.usuario_id) db.users in
    let own : Memᴰ user owned =
      mem_filter (λ u. eqb_ℤ u.id session.usuario_id) db.users user v.known
        (ap (λ i. eqb_ℤ i session.usuario_id) v.owner ∙ eqb_ℤ-refl session.usuario_id) in
    let there : Memᴰ (session, user) (joined db) =
      mem_concat_map (λ s. map (λ u. (s, u)) (filter (λ u. eqb_ℤ u.id s.usuario_id) db.users))
        db.sessions session (session, user) v.listed (mem_map (λ u. (session, u)) owned user own) in
    let passes : test (session, user) ≡ true =
      let q = eq_iff session.session_token token in
      let e = v.same_token in let f = v.unexpired in ground arith in
    elim (Option-cases (find_session token now db)) [
      | inl none_found ↦
          let k = find-eq_none test (joined db) (session, user) none_found there in cc
      | inr ((s, u), found) ↦
          let (listed, passed) = find-eq_some test (joined db) (s, u) found in
          let (s_listed, u_listed, o) = joined-mem db s u listed in
          let same : s.session_token ≡ token =
            let q = eq_iff s.session_token token in ground arith in
          let es : s ≡ session = v.only_session s s_listed (same ∙ sym v.same_token) in
          let eu : u ≡ user =
            v.only_user u u_listed (o ∙ ap (λ (s : Session). s.usuario_id) es ∙ sym v.owner) in
          found ∙ λ i. some (es i, eu i)
    ]

module _ {E : Type 0} (engine : Engine E) (calm : (e : E) → (engine.fault e).0 ≡ none) where
  -- Where the engine refuses nothing, a statement that no constraint refuses is run.
  execute_runs :
      {A : Type 0} (context : String) (body : Database → Result (A × Database)) (s : State E)
      (a : A) (db : Database)
      → body s.db ≡ ok (a, db)
      → execute engine context body s ≡ (ok a, record { db = db; env = (engine.fault s.env).1 })
  unfolding execute
  execute_runs {A} context body s a db h =
      let s₁ : State E = record s { env = (engine.fault s.env).1 } in
      ap (λ o. run engine context body o s₁) (calm s.env) ∙ ap (λ r. settle engine context r s₁) h

  -- Where the engine refuses nothing, a token is let in that is not blank and, but for spaces
  -- around it, that of a session in the table which has not expired at the time that the clock
  -- shows, whose user is in the table and active, if the token and the user's number are unique
  -- there; the answer is that user, and the times of the last activity of the sessions with that
  -- token are all that the call changes.
  pub require_session_by_token_admits :
      (token : String) (s : State E) (session : Session) (user : User)
      → is_empty (trim token) ≡ false
      → Valid s.db (trim token) (engine.to_rfc3339 (engine.utc_now s.env).0) session user
      → ((require_session_by_token engine token s).0
          ≡ ok (record { user_id = user.id; master_user = user.master_user == 1 }))
        × ((require_session_by_token engine token s).1.db
            ≡ touch (trim token) (engine.to_rfc3339 (engine.utc_now s.env).0) s.db)
  unfolding require_session_by_token accept_session
  require_session_by_token_admits token s session user filled valid =
      let now = engine.to_rfc3339 (engine.utc_now s.env).0 in
      let t = trim token in
      let found = find_session-Valid s.db t now session user valid in
      let active = valid.active in
      let s₁ : State E = record { db = s.db; env = (engine.utc_now s.env).1 } in
      let s₂ : State E = record { db = s.db; env = (engine.fault s₁.env).1 } in
      let s₃ : State E = record { db = touch t now s.db; env = (engine.fault s₂.env).1 } in
      let answer : SessionIdentity = record {
        user_id = session.usuario_id;
        master_user = user.master_user == 1;
      } in
      let look = query engine "Falha ao validar sessão: " (find_session t now) in
      let refresh = update engine "Falha ao atualizar atividade da sessão: " (touch t now) in
      let rest : Exec E SessionIdentity = now_rfc3339 engine >>= λ now.
      query engine "Falha ao validar sessão: " (find_session t now)
      >>= accept_session engine t now in
      let opens : (if is_empty t then raise invalid_session else rest) s ≡ rest s =
        ap (λ b. (if b then raise invalid_session else rest) s) filled in
      let looked : look s₁ ≡ (ok (some (session, user)), s₂) =
        execute_runs "Falha ao validar sessão: " (λ db. ok (find_session t now db, db)) s₁
          (find_session t now s.db) s.db refl
        ∙ ap (λ o. (ok o, s₂)) found in
      let entered : accept_session engine t now (some (session, user)) s₂
          ≡ (refresh >> pure answer) s₂ =
        ap (λ b. (if b then raise "Usuário inativo." else (refresh >> pure answer)) s₂) active in
      let refreshed : refresh s₂ ≡ (ok tt, s₃) =
        execute_runs "Falha ao atualizar atividade da sessão: " (λ db. ok (tt, touch t now db)) s₂
          tt (touch t now s.db) refl in
      let whole : require_session_by_token engine token s ≡ (ok answer, s₃) =
        opens
        ∙ ap
            (λ (x : Result (Option (Session × User)) × State E).
              continue x.0 (accept_session engine t now) x.1)
            looked
        ∙ entered
        ∙ ap (λ (x : Result (Unit {0}) × State E). continue x.0 (λ _. pure answer) x.1) refreshed in
      (
        ap (λ (x : Result SessionIdentity × State E). x.0) whole ∙ λ i.
            ok (record { user_id = sym valid.owner i; master_user = user.master_user == 1 }),
        ap (λ (x : Result SessionIdentity × State E). x.1.db) whole,
      )
