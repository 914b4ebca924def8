-- ===== src/Access/Profiles.antt =====
-- The commands on profiles in apps/console/src-tauri/src/commands/access.rs.
use tunnara.Prelude.{
  ℕ, Bool, true, Option, none, some, String, ◌∷◌, [], List, map, filter, any, if◌then◌else◌, str_eq,
  is_some, length, ◌==◌, ◌&&◌, not, ltb,
}
use tunnara.Prelude.Int.{ℤ, pos, eqb_ℤ}
use tunnara.Prelude.Text.{◌++◌ as ◌+s◌}
use tunnara.Value.{Value, Items, Fields, null, string, array, object, nil, cons, end, field}
use tunnara.Database.Command.{
  Result, ok, err, Engine, Exec, pure, raise, lift, ◌>>=◌, ◌>>◌, for_each, execute, query, update,
  select, now_rfc3339,
}
use tunnara.Database.{enqueue_sync, write_audit}
use tunnara.Access.Payload.{get_string, get_bool, get_i64, get_string_array}
use tunnara.Access.Rows.{dedup, sort_texts, profile_by_id}
use tunnara.Access.Sessions.{all_permission_keys, require_session_by_token}
use tunnara.Access.Statements.{
  profile_taken, set_profile, insert_profile, delete_profile, insert_permission,
}
use tunnara.Access.Policy.{connect, ensure_master, ok_or, int_value}

abbrev pub text_value : Option String → Value
text_value none = null
text_value (some s) = string s

abbrev pub texts : List String → Items
texts [] = nil
texts (s ∷ ss) = cons (string s) (texts ss)

abbrev pub saved_action : Option ℤ → String
saved_action id = if is_some id then "update" else "insert"

-- What `profile_save` reads of its payload.
pub record ProfileInput : Type 0 where
  pub nome : String
  pub descricao : Option String
  pub perfil_master : ℕ
  pub ativo : ℕ
  pub permission_keys : List String

abbrev pub has_text : String → List String → Bool
has_text s = any (λ t. str_eq t s)

module _ {E : Type 0} (engine : Engine E) where
  unfoldable pub profile_get : String → ℤ → Exec E Fields
  profile_get session_token id = do
    connect engine
    require_session_by_token engine session_token
    row ← query engine "Falha ao consultar perfil: " (profile_by_id id)
    p ← lift (ok_or "Perfil não encontrado." row)
    permission_keys ←
        select engine "Falha ao preparar permissões do perfil: "
          "Falha ao consultar permissões do perfil: " "Falha ao mapear permissões do perfil: "
          (λ db.
            sort_texts
              (map (λ q. q.permissao_chave) (filter (λ q. eqb_ℤ q.perfil_id id) db.permissions)))
    pure (
        field "id" (int_value p.id) (
          field "nome" (string p.nome) (
            field "descricao" (text_value p.descricao) (
              field "perfil_master" (int_value (pos p.perfil_master)) (
                field "ativo" (int_value (pos p.ativo)) (
                  field "created_at" (string p.created_at) (
                    field "updated_at" (string p.updated_at)
                      (field "permission_keys" (array (texts permission_keys)) end))))))))

  unfoldable pub profile_input : Fields → Result ProfileInput
  unfolding get_string get_bool get_string_array dedup
  profile_input payload = elim (get_string payload "nome") [
    | none ↦ err "Informe o nome do perfil."
    | some nome ↦ ok (record {
      nome = nome;
      descricao = get_string payload "descricao";
      perfil_master = get_bool engine.to_lowercase payload "perfil_master" Bool.false;
      ativo = get_bool engine.to_lowercase payload "ativo" true;
      permission_keys = dedup (sort_texts (get_string_array payload "permission_keys"));
    })
  ]

  -- What `profile_save` checks before it writes.
  unfoldable pub check_profile : Option ℤ → ProfileInput → Exec E (Unit {0})
  unfolding all_permission_keys
  check_profile id input = do
    if input.perfil_master == 0 && length input.permission_keys == 0
        then raise "Selecione pelo menos uma permissão para o perfil."
        else pure tt
    for_each input.permission_keys λ key.
        if has_text key all_permission_keys then pure tt else raise ("Permissão inválida: " +s key)
    taken ← query engine "Falha ao validar nome do perfil: " (profile_taken input.nome id)
    if taken then raise "Já existe perfil com este nome." else pure tt

  unfoldable pub write_profile : Option ℤ → ProfileInput → String → Exec E ℤ
  write_profile (some existing_id) input now = do
    execute engine "Falha ao atualizar perfil: " (
        set_profile existing_id input.nome (λ p. record p {
          nome = input.nome;
          descricao = input.descricao;
          perfil_master = input.perfil_master;
          ativo = input.ativo;
          updated_at = now;
        }))
    pure existing_id
  write_profile none input now = execute engine "Falha ao inserir perfil: " (
      insert_profile
        (λ i. record {
          id = i;
          nome = input.nome;
          descricao = input.descricao;
          perfil_master = input.perfil_master;
          ativo = input.ativo;
          created_at = now;
          updated_at = now;
        })
        input.nome)

  abbrev pub permission_rows : ProfileInput → List String
  unfolding all_permission_keys
  permission_rows input =
      if input.perfil_master == 1 then all_permission_keys else input.permission_keys

  -- The permissions of the profile, in place of those it had.
  unfoldable pub write_permissions : ℤ → ProfileInput → String → Exec E (Unit {0})
  unfolding all_permission_keys
  write_permissions record_id input now = do
    update engine "Falha ao limpar permissões do perfil: " λ db. record db {
      permissions = filter (λ q. not (eqb_ℤ q.perfil_id record_id)) db.permissions;
    }
    for_each (permission_rows input) λ key. execute engine "Falha ao gravar permissão do perfil: " (
        insert_permission
          (record { perfil_id = record_id; permissao_chave = key; created_at = now }))

  unfoldable pub report_profile : Option ℤ → ℤ → ℤ → ProfileInput → Exec E (Unit {0})
  report_profile id actor_id record_id input = do
    let payload_json : Value = object (
        field "id" (int_value record_id) (
          field "nome" (string input.nome) (
            field "descricao" (text_value input.descricao) (
              field "perfil_master" (int_value (pos input.perfil_master))
                (field "ativo" (int_value (pos input.ativo)) end)))))
    enqueue_sync engine "perfis_acesso" (saved_action id) (some record_id) payload_json
    write_audit engine "perfis_acesso" (saved_action id) (some record_id)
        (object (field "actor_id" (int_value actor_id) (field "payload" payload_json end)))

  unfoldable pub profile_save : String → Fields → Exec E Fields
  unfolding profile_input check_profile write_profile write_permissions report_profile
  profile_save session_token payload = do
    connect engine
    actor_id ← ensure_master engine session_token
    let id = get_i64 payload "id"
    now ← now_rfc3339 engine
    input ← lift (profile_input payload)
    check_profile id input
    record_id ← write_profile id input now
    write_permissions record_id input now
    report_profile id actor_id record_id input
    profile_get session_token record_id

  -- The part of `profile_delete` that follows the count of the links.
  unfoldable pub remove_profile : ℤ → ℤ → Exec E Bool
  remove_profile actor_id id = do
    update engine "Falha ao excluir permissões do perfil: "
        λ db. record db { permissions = filter (λ q. not (eqb_ℤ q.perfil_id id)) db.permissions }
    affected ← execute engine "Falha ao excluir perfil: " (delete_profile id)
    if affected == 0 then raise "Perfil não encontrado." else (do
      write_audit engine "perfis_acesso" "delete" (some id)
          (object (field "actor_id" (int_value actor_id) end))
      pure true)

  unfoldable pub profile_delete : String → ℤ → Exec E Bool
  unfolding remove_profile
  profile_delete session_token id = do
    connect engine
    actor_id ← ensure_master engine session_token
    linked_users ←
        query engine "Falha ao validar vínculo do perfil: "
          (λ db. length (filter (λ l. eqb_ℤ l.perfil_id id) db.user_profiles))
    if ltb 0 linked_users
        then raise "Não é possível excluir o perfil porque existem usuários vinculados a ele."
        else remove_profile actor_id id
