-- ===== src/Access/Login.antt =====
-- The commands of apps/console/src-tauri/src/commands/auth.rs.
pub mod Opening
pub mod Outcome
use tunnara.Prelude.{
  ℕ, ◌+◌, ◌*◌, ◌^◌, Bool, true, false, not, ◌||◌, Option, none, some, String, ◌++◌, ◌∷◌, [], map,
  filter, find, any, if◌then◌else◌, ltb, str_eq, ◌==◌,
}
use tunnara.Prelude.Int.{ℤ, eqb_ℤ}
use tunnara.Prelude.Text.{trim, lower_is, show_ℤ}
use Prim.Native.String as Native
use tunnara.Value.{Value, number, string, object, end, field}
use tunnara.Database.Tables.{Database, User, Session}
use tunnara.Database.Command.{
  Result, ok, err, Engine, Exec, pure, raise, lift, ◌>>=◌, ◌>>◌, attempt, ask, call, execute, query,
  update, now_rfc3339,
}
use tunnara.Database.{open_connection, write_app_log}
use tunnara.Security.{hash_password, verify_password}
use tunnara.Access.Rows.{text_lt, violated, has_user, user_by_id}
use tunnara.Access.Sessions.{
  AuthUser, LoginResponse, SessionIdentity, invalid_session, build_auth_user,
  require_session_by_token,
}

abbrev pub refusal : String → LoginResponse
refusal message = record { success = false; message = message; session_token = none; user = none }

-- `Duration::days(7)`, in nanoseconds
abbrev pub week : ℕ
week = 7 * 86400 * 10 ^ 9

abbrev pub id_value : ℤ → Value
id_value i = number (record { as_i64 = some i; printed = show_ℤ i })

-- `LOWER(login) = ?`
abbrev pub user_by_login : String → Database → Option User
user_by_login login db = find (λ u. lower_is u.login login) db.users

-- `DELETE FROM user_sessions WHERE usuario_id = ?1 OR expires_at <= ?2`
abbrev pub clear_sessions : ℤ → String → Database → Database
clear_sessions i now db = record db {
  sessions = filter (λ s. not (eqb_ℤ s.usuario_id i || not (text_lt now s.expires_at))) db.sessions;
}

-- The insertion into `user_sessions`, whose token is unique and whose user has to be there.
abbrev pub insert_session : Session → Database → Result (Unit {0} × Database)
insert_session s db =
    if any (λ t. str_eq t.session_token s.session_token) db.sessions
    then violated "UNIQUE constraint failed: user_sessions.session_token"
    else if not (has_user s.usuario_id db)
    then violated "FOREIGN KEY constraint failed"
    else ok (tt, record db { sessions = db.sessions ++ (s ∷ []) })

-- `UPDATE usuarios SET … WHERE id = ?`
abbrev pub update_user : ℤ → (User → User) → Database → Database
update_user i f db = record db { users = map (λ u. if eqb_ℤ u.id i then f u else u) db.users }

-- `query_row` without `optional`
abbrev pub row_or_error : {A : Type 0} → Option A → Database → Result (A × Database)
row_or_error none db = err "Query returned no rows"
row_or_error (some a) db = ok (a, db)

abbrev pub login_details : User → Value
login_details row =
    object (field "usuario_id" (id_value row.id) (field "login" (string row.login) end))

abbrev pub welcome : String → AuthUser → LoginResponse
welcome session_token user = record {
  success = true;
  message =
      if user.senha_provisoria
      then "Login efetuado com sucesso. Este usuário está com senha provisória."
      else "Login efetuado com sucesso.";
  session_token = some session_token;
  user = some user;
}

module _ {E : Type 0} (engine : Engine E) where
  -- The start of a command: the paths of the application, and the connection.
  abbrev pub begin : Exec E (Unit {0})
  begin = call engine.db_path >> call engine.data_dir >> open_connection engine

  -- The part of `auth_login` that follows the check of the password.
  unfoldable pub start_session : User → Exec E LoginResponse
  start_session row = do
    now ← ask engine.utc_now
    session_token ← ask engine.new_v4
    let expires_at = engine.to_rfc3339 (now + week)
    let now_str = engine.to_rfc3339 now
    update engine "Falha ao limpar sessões antigas: " (clear_sessions row.id now_str)
    execute engine "Falha ao criar sessão: " (
        insert_session (record {
          usuario_id = row.id;
          session_token = session_token;
          created_at = now_str;
          expires_at = expires_at;
          last_activity_at = now_str;
        }))
    last ← now_rfc3339 engine
    update engine "Falha ao atualizar último login: "
        (update_user row.id (λ u. record u { ultimo_login_em = some last }))
    user ← build_auth_user engine row.id
    attempt (
        write_app_log engine none "info" "auth" "Login efetuado com sucesso."
          (some (login_details row)))
    pure (welcome session_token user)

  unfoldable pub check_password : String → User → Exec E LoginResponse
  unfolding start_session
  check_password senha row = if row.ativo == 0 then pure (refusal "Usuário inativo.") else (do
    password_ok ← lift (verify_password engine senha row.senha_hash)
    if password_ok then start_session row else pure (refusal "Senha inválida."))

  unfoldable pub login_row : String → Option User → Exec E LoginResponse
  unfolding check_password
  login_row senha none = pure (refusal "Usuário não encontrado.")
  login_row senha (some row) = check_password senha row

  unfoldable pub auth_login : String → String → Exec E LoginResponse
  unfolding login_row
  auth_login login senha = do
    begin
    let normalized_login = engine.to_lowercase (trim login)
    row ← query engine "Falha ao consultar usuário: " (user_by_login normalized_login)
    login_row senha row

  unfoldable pub restored : String → Result SessionIdentity → Exec E LoginResponse
  restored session_token (err m) = do
    attempt (
        write_app_log engine none "warning" "session"
          "Falha ao restaurar sessão expirada ou inválida." none)
    pure (refusal invalid_session)
  restored session_token (ok identity) = do
    user ← build_auth_user engine identity.user_id
    attempt (
        write_app_log engine none "info" "session" "Sessão restaurada com sucesso."
          (some (object (field "usuario_id" (id_value identity.user_id) end))))
    pure (record {
      success = true;
      message = "Sessão restaurada com sucesso.";
      session_token = some session_token;
      user = some user;
    })

  unfoldable pub auth_restore : String → Exec E LoginResponse
  unfolding restored
  auth_restore session_token = do
    begin
    identity ← attempt (require_session_by_token engine session_token)
    restored session_token identity

  unfoldable pub auth_logout : String → Exec E Bool
  auth_logout session_token = do
    begin
    update engine "Falha ao encerrar sessão: " λ db. record db {
      sessions = filter (λ s. not (str_eq s.session_token session_token)) db.sessions;
    }
    attempt (write_app_log engine none "info" "session" "Sessão encerrada." none)
    pure true

  -- The part of `auth_change_password` that follows the comparison of the current password.
  unfoldable pub store_password : ℤ → String → Exec E Bool
  store_password user_id new_password = do
    new_hash ← hash_password engine (trim new_password)
    now ← now_rfc3339 engine
    update engine "Falha ao atualizar senha: " (
        update_user user_id
          (λ u. record u { senha_hash = new_hash; senha_provisoria = 0; updated_at = now }))
    attempt (
        write_app_log engine none "info" "auth" "Senha alterada com sucesso."
          (some (object (field "usuario_id" (id_value user_id) end))))
    pure true

  unfoldable pub change_password : ℤ → String → String → Exec E Bool
  unfolding store_password
  change_password user_id current_password new_password = do
    user ←
        execute engine "Falha ao consultar senha atual: "
          (λ db. row_or_error (user_by_id user_id db) db)
    correct ← lift (verify_password engine (trim current_password) user.senha_hash)
    if correct
        then store_password user_id new_password
        else raise "A senha atual informada está incorreta."

  unfoldable pub auth_change_password : String → String → String → Exec E Bool
  unfolding change_password
  auth_change_password session_token current_password new_password = do
    begin
    identity ← require_session_by_token engine session_token
    if ltb (Native.len (trim new_password)) 6
        then raise "A nova senha deve conter ao menos 6 caracteres."
        else change_password identity.user_id current_password new_password
