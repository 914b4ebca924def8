-- ===== src/Access/Sessions.antt =====
-- Sessions: apps/console/src-tauri/src/commands/auth.rs.
pub mod Acceptance
pub mod Admission
pub mod Identity
pub mod Rights
use tunnara.Prelude.{
  Bool, not, ◌&&◌, Option, none, some, String, List, [], ◌∷◌, ◌++◌, map, filter, find, concat_map,
  if◌then◌else◌, ◌==◌, str_eq, any,
}
use tunnara.Prelude.Int.{ℤ, eqb_ℤ}
use tunnara.Prelude.Text.{is_empty, trim}
use tunnara.Database.Tables.{Database, User, Session, Company}
use tunnara.Database.Command.{
  Result, ok, Engine, Exec, pure, raise, ◌>>=◌, ◌>>◌, query, update, select, now_rfc3339,
}
use tunnara.Access.Rows.{text_lt, sort_by, sort_texts, dedup, violated, has_user, user_by_id}

abbrev pub permission_catalog : List String
permission_catalog =
    "dashboard:view" ∷ "empresas:view" ∷ "empresas:manage" ∷ "cadastros:view" ∷ "cadastros:manage"
    ∷ "usuarios:view" ∷ "usuarios:manage" ∷ "perfis:view" ∷ "perfis:manage" ∷ "config:view"
    ∷ "config:manage" ∷ "licenciamento:view" ∷ "licenciamento:manage" ∷ "logs:view" ∷ "logs:manage"
    ∷ "sync:view" ∷ "relatorios:export" ∷ []

unfoldable pub all_permission_keys : List String
unfolding sort_by dedup
all_permission_keys = dedup (sort_texts permission_catalog)

pub record AuthUser : Type 0 where
  pub id : ℤ
  pub nome : String
  pub login : String
  pub email : Option String
  pub telefone : Option String
  pub cargo : Option String
  pub photo_url : Option String
  pub administrador : Bool
  pub master_user : Bool
  pub senha_provisoria : Bool
  pub permission_keys : List String
  pub profile_names : List String
  pub company_ids : List ℤ
  pub company_names : List String

pub record LoginResponse : Type 0 where
  pub success : Bool
  pub message : String
  pub session_token : Option String
  pub user : Option AuthUser

pub record SessionIdentity : Type 0 where
  pub user_id : ℤ
  pub master_user : Bool

-- The names of the profiles that are linked to the user.
abbrev pub linked_names : ℤ → Database → List String
linked_names i db =
    concat_map (λ up. map (λ p. p.nome) (filter (λ p. eqb_ℤ p.id up.perfil_id) db.profiles))
      (filter (λ up. eqb_ℤ up.usuario_id i) db.user_profiles)

abbrev pub linked_companies : ℤ → Database → List Company
linked_companies i db =
    concat_map (λ ue. filter (λ e. eqb_ℤ e.id ue.empresa_id) db.companies)
      (filter (λ ue. eqb_ℤ ue.usuario_id i) db.user_companies)

-- The permissions of the profiles that are linked to the user.
abbrev pub linked_permissions : ℤ → Database → List String
linked_permissions i db =
    concat_map
      (λ up.
        map (λ pp. pp.permissao_chave)
          (filter (λ pp. eqb_ℤ pp.perfil_id up.perfil_id) db.permissions))
      (filter (λ up. eqb_ℤ up.usuario_id i) db.user_profiles)

-- The sessions with their users.
abbrev pub joined : Database → List (Session × User)
joined db =
    concat_map (λ s. map (λ u. (s, u)) (filter (λ u. eqb_ℤ u.id s.usuario_id) db.users)) db.sessions

abbrev pub find_session : String → String → Database → Option (Session × User)
find_session token now db =
    find (λ r. str_eq r.0.session_token token && text_lt now r.0.expires_at) (joined db)

-- The insertion into `user_sessions`, whose token is unique and whose user has to be there.
abbrev pub insert_session : Session → Database → Result (Unit {0} × Database)
insert_session s db =
    if any (λ t. str_eq t.session_token s.session_token) db.sessions
    then violated "UNIQUE constraint failed: user_sessions.session_token"
    else if not (has_user s.usuario_id db)
    then violated "FOREIGN KEY constraint failed"
    else ok (tt, record db { sessions = db.sessions ++ (s ∷ []) })

-- `UPDATE user_sessions SET last_activity_at = ?1 WHERE session_token = ?2`
abbrev pub touch : String → String → Database → Database
touch token now db = record db {
  sessions =
      map (λ s. if str_eq s.session_token token then record s { last_activity_at = now } else s)
        db.sessions;
}

abbrev pub invalid_session : String
invalid_session = "Sessão inválida ou expirada."

module _ {E : Type 0} (engine : Engine E) where
  unfoldable pub permissions_of : User → Exec E (List String)
  unfolding all_permission_keys
  permissions_of user =
      if user.master_user == 1
      then pure all_permission_keys
      else select engine "Falha ao preparar permissões do usuário: "
          "Falha ao consultar permissões do usuário: " "Falha ao mapear permissões do usuário: "
          (λ db. dedup (sort_texts (linked_permissions user.id db)))

  -- The part of `build_auth_user` that follows the user's row.
  unfoldable pub auth_user_of : User → Exec E AuthUser
  unfolding permissions_of
  auth_user_of user = do
    profile_names ←
        select engine "Falha ao preparar perfis do usuário: "
          "Falha ao consultar perfis do usuário: " "Falha ao mapear perfis do usuário: "
          (λ db. sort_texts (linked_names user.id db))
    company_rows ←
        select engine "Falha ao preparar empresas do usuário: "
          "Falha ao consultar empresas do usuário: " "Falha ao mapear empresas do usuário: "
          (λ db. sort_by (λ e. e.nome) (linked_companies user.id db))
    permission_keys ← permissions_of user
    pure (record {
      id = user.id;
      nome = user.nome;
      login = user.login;
      email = user.email;
      telefone = user.telefone;
      cargo = user.cargo;
      photo_url = user.photo_url;
      administrador = user.administrador == 1;
      master_user = user.master_user == 1;
      senha_provisoria = user.senha_provisoria == 1;
      permission_keys = permission_keys;
      profile_names = profile_names;
      company_ids = map (λ e. e.id) company_rows;
      company_names = map (λ e. e.nome) company_rows;
    })

  unfoldable pub active_user : Option User → Exec E AuthUser
  unfolding auth_user_of
  active_user none = raise "Usuário da sessão não encontrado."
  active_user (some user) = if user.ativo == 0 then raise "Usuário inativo." else auth_user_of user

  unfoldable pub build_auth_user : ℤ → Exec E AuthUser
  unfolding active_user
  build_auth_user user_id =
      query engine "Falha ao carregar usuário autenticado: " (user_by_id user_id) >>= active_user

  -- What `require_session_by_token` does with the row that it found.
  unfoldable pub accept_session : String → String → Option (Session × User) → Exec E SessionIdentity
  accept_session token now none = raise invalid_session
  accept_session token now (some (session, user)) =
      if user.ativo == 0 then raise "Usuário inativo." else (do
        update engine "Falha ao atualizar atividade da sessão: " (touch token now)
        pure (record { user_id = session.usuario_id; master_user = user.master_user == 1 }))

  unfoldable pub require_session_by_token : String → Exec E SessionIdentity
  unfolding accept_session
  require_session_by_token session_token =
      let token = trim session_token in
      if is_empty token then raise invalid_session else (do
        now ← now_rfc3339 engine
        row ← query engine "Falha ao validar sessão: " (find_session token now)
        accept_session token now row)
