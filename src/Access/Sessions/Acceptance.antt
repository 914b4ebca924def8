-- ===== src/Access/Sessions/Acceptance.antt =====
-- Which tokens `require_session_by_token` accepts (Access/Sessions.antt).
use tunnara.Prelude.{
  ◌≡◌, ap, sym, ◌∙◌, true, false, ◌&&◌, Option, none, some, String, str_eq, ◌==◌, filter, map,
  arith, eq_iff,
}
use tunnara.Prelude.Int.{eqb_ℤ, eqb_ℤ-eq}
use mathlib.Core.List.Memᴰ
use tunnara.Prelude.Members.{Memᴰ, find-eq_some, mem-filter, mem-map, mem-concat_map}
use tunnara.Prelude.Text.{trim, is_empty}
use tunnara.Database.Tables.{Database, User, Session}
use tunnara.Database.Command.{
  ok, Engine, State, pure, raise, ◌>>=◌, ◌>>◌, query, update, now_rfc3339,
}
use tunnara.Database.Command.Rules.{
  Stable, Stable-raise, Stable-bind, Stable-update, Stable-query, Stable-pure, Stable-if,
  bind-eq_ok, query-eq_ok, update-eq_ok, raise_if-eq_ok, pure-eq_ok,
}
use tunnara.Database.Keeping.{now_rfc3339-Stable}
use tunnara.Access.Rows.{text_lt}
use tunnara.Access.Sessions.{
  SessionIdentity, invalid_session, joined, find_session, touch, accept_session,
  require_session_by_token,
}

-- The token is that of a session in the table that has not expired at `now`, and the identity is
-- that of its user, who is active.
pub record Accepted (db : Database) (token now : String) (identity : SessionIdentity) : Type 0 where
  pub session : Session
  pub user : User
  pub listed : Memᴰ session db.sessions
  pub known : Memᴰ user db.users
  pub same_token : session.session_token ≡ trim token
  pub unexpired : text_lt now session.expires_at ≡ true
  pub owner : session.usuario_id ≡ user.id
  pub active : (user.ativo == 0) ≡ false
  pub named : identity.user_id ≡ user.id
  pub master : identity.master_user ≡ (user.master_user == 1)

pub joined-mem :
    (db : Database) (s : Session) (u : User)
    → Memᴰ (s, u) (joined db)
    → Memᴰ s db.sessions × Memᴰ u db.users × (u.id ≡ s.usuario_id)
joined-mem db s u m =
    let (t, k, n) =
      mem-concat_map (λ s. map (λ u. (s, u)) (filter (λ u. eqb_ℤ u.id s.usuario_id) db.users))
        db.sessions (s, u) m in
    let (v, o, e) =
      mem-map (λ u. (t, u)) (filter (λ u. eqb_ℤ u.id t.usuario_id) db.users) (s, u) n in
    let (w, g) = mem-filter (λ u. eqb_ℤ u.id t.usuario_id) db.users v o in
    let es : s ≡ t = ap (λ (r : Session × User). r.0) e in
    let eu : u ≡ v = ap (λ (r : Session × User). r.1) e in
    (
      Memᴰ.cast es k,
      Memᴰ.cast eu w,
      ap (λ (u : User). u.id) eu
          ∙ eqb_ℤ-eq v.id t.usuario_id g
          ∙ sym (ap (λ (s : Session). s.usuario_id) es),
    )

module _ {E : Type 0} (engine : Engine E) where
  accept_session-eq_ok :
      (db : Database) (token now : String) (row : Option (Session × User)) (s s' : State E)
      (identity : SessionIdentity)
      → find_session (trim token) now db ≡ row
      → accept_session engine (trim token) now row s ≡ (ok identity, s')
      → Accepted db token now identity × (s'.db ≡ touch (trim token) now s.db)
  unfolding accept_session
  accept_session-eq_ok db token now none s s' identity f h = cc
  accept_session-eq_ok db token now (some (session, user)) s s' identity f h =
      let refresh =
        update engine "Falha ao atualizar atividade da sessão: " (touch (trim token) now) in
      let answer : SessionIdentity = record {
        user_id = session.usuario_id;
        master_user = user.master_user == 1;
      } in
      let (active, h₁) =
        raise_if-eq_ok (user.ativo == 0) "Usuário inativo." (refresh >> pure answer) s identity s'
          h in
      let (_, s₁, h₂, h₃) = bind-eq_ok refresh (λ _. pure answer) s identity s' h₁ in
      let touched =
        update-eq_ok engine "Falha ao atualizar atividade da sessão: " (touch (trim token) now) s s₁
          _ h₂ in
      let (named, same) = pure-eq_ok answer identity s₁ s' h₃ in
      let (listed, test) =
        find-eq_some (λ r. str_eq r.0.session_token (trim token) && text_lt now r.0.expires_at)
          (joined db) (session, user) f in
      let (k, l, o) = joined-mem db session user listed in
      (
        record {
          session = session;
          user = user;
          listed = k;
          known = l;
          same_token = let q = eq_iff session.session_token (trim token) in ground arith;
          unexpired = ground arith;
          owner = sym o;
          active = active;
          named = sym (ap (λ (i : SessionIdentity). i.user_id) named) ∙ sym o;
          master = sym (ap (λ (i : SessionIdentity). i.master_user) named);
        },
        sym (ap (λ (t : State E). t.db) same) ∙ touched,
      )

  -- A token is accepted only if it is, but for spaces around it, that of a session in the table
  -- whose end is after the time that the clock shows, and whose user is active; the identity is
  -- that user's, a master if and only if its flag is 1; and the times of the last activity of the
  -- sessions with that token are all that the call changes.
  pub require_session_by_token-eq_ok :
      (token : String) (s s' : State E) (identity : SessionIdentity)
      → require_session_by_token engine token s ≡ (ok identity, s')
      → Accepted s.db token (engine.to_rfc3339 (engine.utc_now s.env).0) identity
        × (s'.db ≡ touch (trim token) (engine.to_rfc3339 (engine.utc_now s.env).0) s.db)
  unfolding require_session_by_token
  require_session_by_token-eq_ok token s s' identity h =
      let now = engine.to_rfc3339 (engine.utc_now s.env).0 in
      let s₁ : State E = record { db = s.db; env = (engine.utc_now s.env).1 } in
      let look = query engine "Falha ao validar sessão: " (find_session (trim token) now) in
      let (_, h₁) =
        raise_if-eq_ok (is_empty (trim token)) invalid_session
          (now_rfc3339 engine >>= λ now.
            query engine "Falha ao validar sessão: " (find_session (trim token) now)
            >>= accept_session engine (trim token) now)
          s identity s' h in
      let (row, s₂, h₂, h₃) =
        bind-eq_ok look (accept_session engine (trim token) now) s₁ identity s' h₁ in
      let (found, same) =
        query-eq_ok engine "Falha ao validar sessão: " (find_session (trim token) now) s₁ s₂ row
          h₂ in
      let (accepted, touched) =
        accept_session-eq_ok s.db token now row s₂ s' identity (sym found) h₃ in
      (accepted, touched ∙ ap (touch (trim token) now) same)

module _ {E : Type 0} (engine : Engine E) {P : Database → Type 0} where
  accept_session-Stable :
      ((t n : String) (db : Database) → P db → P (touch t n db))
      → (t n : String) (row : Option (Session × User)) → Stable P (accept_session engine t n row)
  unfolding accept_session
  accept_session-Stable k t n none = Stable-raise _
  accept_session-Stable k t n (some (session, user)) =
      Stable-if (user.ativo == 0) (raise "Usuário inativo.") _ (λ _. Stable-raise _)
        (λ _. Stable-bind _ _ (Stable-update engine _ (touch t n) (k t n)) (λ _. Stable-pure _))

  -- It keeps what does not look at the times of the last activity.
  pub require_session_by_token-Stable :
      ((t n : String) (db : Database) → P db → P (touch t n db))
      → (token : String) → Stable P (require_session_by_token engine token)
  unfolding require_session_by_token
  require_session_by_token-Stable k token =
      let a = accept_session-Stable k (trim token) in
      Stable-if (is_empty (trim token)) (raise invalid_session) _ (λ _. Stable-raise _)
        (λ _. Stable-bind (now_rfc3339 engine) _ (now_rfc3339-Stable engine) (λ now.
          Stable-bind _ _
            (Stable-query engine "Falha ao validar sessão: " (find_session (trim token) now))
            (a now)))
