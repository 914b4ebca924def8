-- ===== src/Access/Save.antt =====
-- `user_save` and `user_delete` in apps/console/src-tauri/src/commands/access.rs.
pub mod Deletion
pub mod Checks
pub mod Outcome
pub mod Links
pub mod Saved
use tunnara.Prelude.{
  Bool, true, false, Option, none, some, String, filter, if◌then◌else◌, length, ◌==◌, ◌&&◌, not,
  ltb, leb,
}
use tunnara.Prelude.Int.{ℤ, pos, eqb_ℤ}
use tunnara.Prelude.Text.{◌++◌, trim, show_ℤ}
use Prim.Native.String as Native
use tunnara.Value.{Value, Fields, string, object, end, field}
use tunnara.Database.Tables.{Database}
use tunnara.Database.Command.{
  Engine, Exec, pure, raise, lift, ◌>>=◌, ◌>>◌, for_each, execute, query, update, now_rfc3339,
}
use tunnara.Database.{enqueue_sync, write_audit}
use tunnara.Security.{hash_password}
use tunnara.Access.Payload.{get_i64, validate_email}
use tunnara.Access.Rows.{has_profile, has_company}
use tunnara.Access.Statements.{
  login_taken, set_user, insert_user, delete_user, link_profile, link_company, count_masters,
  master_flag,
}
use tunnara.Access.Policy.{connect, ensure_master, load_login_min_length, int_value}
use tunnara.Access.Profiles.{text_value, saved_action}
use tunnara.Access.Users.{UserInput, user_input, user_get, as_usize, write_columns, new_user}

-- `existing_id == actor_id && ativo == 0`
abbrev pub switches_off : Option ℤ → ℤ → UserInput → Bool
switches_off none actor_id input = false
switches_off (some existing_id) actor_id input = eqb_ℤ existing_id actor_id && input.ativo == 0

abbrev pub bad_email : Option String → Bool
unfolding validate_email
bad_email none = false
bad_email (some value) = not (validate_email value)

-- `DELETE FROM user_sessions WHERE usuario_id = ?1`
abbrev pub clear_user : ℤ → Database → Database
clear_user i db = record db { sessions = filter (λ s. not (eqb_ℤ s.usuario_id i)) db.sessions }

-- A check that fails with its message.
abbrev pub refuse_if : {E : Type 0} → Bool → String → Exec E (Unit {0})
refuse_if b message = if b then raise message else pure tt

-- `raw_password.trim().len() < 6`
abbrev pub too_short : String → Bool
too_short raw_password = ltb (Native.len (trim raw_password)) 6

module _ {E : Type 0} (engine : Engine E) where
  unfoldable pub check_profile_id : ℤ → Exec E (Unit {0})
  check_profile_id perfil_id = do
    exists ← query engine "Falha ao validar perfil do usuário: " (has_profile perfil_id)
    refuse_if (not exists) ("Perfil inválido informado: " ++ show_ℤ perfil_id ++ ".")

  unfoldable pub check_company_id : ℤ → Exec E (Unit {0})
  check_company_id empresa_id = do
    exists ← query engine "Falha ao validar empresa do usuário: " (has_company empresa_id)
    refuse_if (not exists) ("Empresa inválida informada: " ++ show_ℤ empresa_id ++ ".")

  -- What `user_save` checks before it writes.
  unfoldable pub check_user : ℤ → Option ℤ → UserInput → Exec E (Unit {0})
  unfolding check_profile_id check_company_id
  check_user actor_id id input = do
    login_min_length ← load_login_min_length engine
    refuse_if (ltb (Native.len input.login) (as_usize login_min_length))
        ("O login deve conter ao menos " ++ show_ℤ login_min_length ++ " caracteres.")
    refuse_if (bad_email input.email) "O e-mail do usuário é inválido."
    refuse_if (switches_off id actor_id input)
        "O usuário master logado não pode ser inativado nesta operação."
    taken ← query engine "Falha ao validar login do usuário: " (login_taken input.login id)
    refuse_if taken "Já existe usuário com este login."
    refuse_if (not (input.master_user == 1) && length input.profile_ids == 0)
        "Selecione ao menos um perfil de acesso para o usuário."
    refuse_if (not (input.master_user == 1) && length input.empresa_ids == 0)
        "Selecione ao menos uma empresa para o usuário."
    for_each input.profile_ids check_profile_id
    for_each input.empresa_ids check_company_id

  unfoldable pub write_user : Option ℤ → Option String → UserInput → String → Exec E ℤ
  write_user (some existing_id) (some raw_password) input now = do
    refuse_if (too_short raw_password) "A senha deve conter ao menos 6 caracteres."
    password_hash ← hash_password engine (trim raw_password)
    execute engine "Falha ao atualizar usuário: " (
        set_user existing_id input.login
          (λ u. record (write_columns input now u) { senha_hash = password_hash }))
    pure existing_id
  write_user (some existing_id) none input now = do
    execute engine "Falha ao atualizar usuário: "
        (set_user existing_id input.login (write_columns input now))
    pure existing_id
  write_user none none input now = raise "Informe a senha do novo usuário."
  write_user none (some raw_password) input now = do
    refuse_if (too_short raw_password) "A senha deve conter ao menos 6 caracteres."
    password_hash ← hash_password engine (trim raw_password)
    execute engine "Falha ao inserir usuário: "
        (insert_user (new_user input password_hash now) input.login)

  -- The links of the user, in place of those it had.
  unfoldable pub write_links : ℤ → UserInput → String → Exec E (Unit {0})
  write_links record_id input now = do
    update engine "Falha ao limpar perfis do usuário: " λ db. record db {
      user_profiles = filter (λ l. not (eqb_ℤ l.usuario_id record_id)) db.user_profiles;
    }
    update engine "Falha ao limpar empresas do usuário: " λ db. record db {
      user_companies = filter (λ l. not (eqb_ℤ l.usuario_id record_id)) db.user_companies;
    }
    for_each input.profile_ids λ perfil_id.
        execute engine "Falha ao vincular perfil ao usuário: " (
          link_profile (record { usuario_id = record_id; perfil_id = perfil_id; created_at = now }))
    for_each input.empresa_ids λ empresa_id.
        execute engine "Falha ao vincular empresa ao usuário: " (
          link_company
            (record { usuario_id = record_id; empresa_id = empresa_id; created_at = now }))

  unfoldable pub report_user : Option ℤ → ℤ → ℤ → UserInput → Exec E (Unit {0})
  report_user id actor_id record_id input = do
    let payload_json : Value = object (
        field "id" (int_value record_id) (
          field "nome" (string input.nome) (
            field "login" (string input.login) (
              field "photo_url" (text_value input.photo_url) (
                field "master_user" (int_value (pos input.master_user)) (
                  field "administrador" (int_value (pos input.administrador))
                    (field "ativo" (int_value (pos input.ativo)) end)))))))
    enqueue_sync engine "usuarios" (saved_action id) (some record_id) payload_json
    write_audit engine "usuarios" (saved_action id) (some record_id)
        (object (field "actor_id" (int_value actor_id) (field "payload" payload_json end)))

  unfoldable pub user_save : String → Fields → Exec E Fields
  unfolding user_input check_user write_user write_links report_user
  user_save session_token payload = do
    connect engine
    actor_id ← ensure_master engine session_token
    let id = get_i64 payload "id"
    now ← now_rfc3339 engine
    input ← lift (user_input engine payload)
    check_user actor_id id input
    record_id ← write_user id input.password input now
    write_links record_id input now
    report_user id actor_id record_id input
    user_get engine session_token record_id

  -- The part of `user_delete` that follows its guards.
  unfoldable pub remove_user : ℤ → ℤ → Exec E Bool
  remove_user actor_id id = do
    update engine "Falha ao limpar sessões do usuário: " (clear_user id)
    affected ← execute engine "Falha ao excluir usuário: " (delete_user id)
    refuse_if (affected == 0) "Usuário não encontrado."
    write_audit engine "usuarios" "delete" (some id)
        (object (field "actor_id" (int_value actor_id) end))
    pure true

  -- The part of `user_delete` that follows the check of the session.
  unfoldable pub delete_as : ℤ → ℤ → Exec E Bool
  unfolding remove_user
  delete_as actor_id id = do
    refuse_if (eqb_ℤ actor_id id) "O usuário master logado não pode excluir a própria conta."
    master_count ← query engine "Falha ao validar usuários master: " count_masters
    target_is_master ← query engine "Falha ao validar usuário alvo: " (master_flag id)
    refuse_if (target_is_master == 1 && leb master_count 1)
        "Não é possível excluir o último usuário master ativo."
    remove_user actor_id id

  unfoldable pub user_delete : String → ℤ → Exec E Bool
  unfolding delete_as
  user_delete session_token id = do
    connect engine
    actor_id ← ensure_master engine session_token
    delete_as actor_id id
