-- ===== src/Access/Users.antt =====
-- The commands on users in apps/console/src-tauri/src/commands/access.rs.
pub mod Reading
use tunnara.Prelude.{
  ℕ, ◌+◌, ◌-◌, ◌^◌, true, false, Option, none, some, String, ◌∷◌, [], List, map, filter,
}
use tunnara.Prelude.Int.{ℤ, pos, negsuc, eqb_ℤ}
use tunnara.Prelude.Text.{trim}
use tunnara.Value.{Items, Fields, string, array, nil, cons, end, field}
use tunnara.Database.Tables.{User}
use tunnara.Database.Command.{Result, ok, err, Engine, Exec, pure, lift, ◌>>=◌, ◌>>◌, query, select}
use tunnara.Access.Payload.{get_string, get_bool, get_i64_array}
use tunnara.Access.Rows.{sort_ids, user_by_id}
use tunnara.Access.Sessions.{require_session_by_token}
use tunnara.Access.Policy.{connect, ok_or, int_value}
use tunnara.Access.Profiles.{text_value}

abbrev pub numbers : List ℤ → Items
numbers [] = nil
numbers (i ∷ is) = cons (int_value i) (numbers is)

-- `as usize` of a 64-bit number
abbrev pub as_usize : ℤ → ℕ
as_usize (pos n) = n
as_usize (negsuc n) = 2 ^ 64 - (n + 1)

-- What `user_save` reads of its payload, with `normalize_login` of the login.
pub record UserInput : Type 0 where
  pub nome : String
  pub login : String
  pub email : Option String
  pub telefone : Option String
  pub cargo : Option String
  pub observacoes : Option String
  pub photo_url : Option String
  pub master_user : ℕ
  pub administrador : ℕ
  pub senha_provisoria : ℕ
  pub ativo : ℕ
  pub password : Option String
  pub profile_ids : List ℤ
  pub empresa_ids : List ℤ

-- What both `UPDATE usuarios` write.
abbrev pub write_columns : UserInput → String → User → User
write_columns input now u = record u {
  nome = input.nome;
  login = input.login;
  email = input.email;
  telefone = input.telefone;
  cargo = input.cargo;
  observacoes = input.observacoes;
  photo_url = input.photo_url;
  master_user = input.master_user;
  administrador = input.administrador;
  senha_provisoria = input.senha_provisoria;
  ativo = input.ativo;
  updated_at = now;
}

abbrev pub new_user : UserInput → String → String → ℤ → User
new_user input password_hash now i = record {
  id = i;
  nome = input.nome;
  login = input.login;
  email = input.email;
  telefone = input.telefone;
  cargo = input.cargo;
  observacoes = input.observacoes;
  photo_url = input.photo_url;
  senha_hash = password_hash;
  master_user = input.master_user;
  administrador = input.administrador;
  senha_provisoria = input.senha_provisoria;
  ultimo_login_em = none;
  ativo = input.ativo;
  created_at = now;
  updated_at = now;
}

abbrev pub user_fields : User → Fields → Fields
user_fields u rest = field "id" (int_value u.id) (
    field "nome" (string u.nome) (
      field "login" (string u.login) (
        field "email" (text_value u.email) (
          field "telefone" (text_value u.telefone) (
            field "cargo" (text_value u.cargo) (
              field "observacoes" (text_value u.observacoes) (
                field "photo_url" (text_value u.photo_url) (
                  field "master_user" (int_value (pos u.master_user)) (
                    field "administrador" (int_value (pos u.administrador)) (
                      field "senha_provisoria" (int_value (pos u.senha_provisoria)) (
                        field "ativo" (int_value (pos u.ativo)) (
                          field "ultimo_login_em" (text_value u.ultimo_login_em) (
                            field "created_at" (string u.created_at)
                              (field "updated_at" (string u.updated_at) rest))))))))))))))

module _ {E : Type 0} (engine : Engine E) where
  unfoldable pub user_input : Fields → Result UserInput
  unfolding get_string get_bool get_i64_array
  user_input payload = elim (get_string payload "nome") [
    | none ↦ err "Informe o nome do usuário."
    | some nome ↦ elim (get_string payload "login") [
      | none ↦ err "Informe o login do usuário."
      | some login ↦ ok (record {
        nome = nome;
        login = engine.to_lowercase (trim login);
        email = get_string payload "email";
        telefone = get_string payload "telefone";
        cargo = get_string payload "cargo";
        observacoes = get_string payload "observacoes";
        photo_url = get_string payload "photo_url";
        master_user = get_bool engine.to_lowercase payload "master_user" false;
        administrador = get_bool engine.to_lowercase payload "administrador" false;
        senha_provisoria = get_bool engine.to_lowercase payload "senha_provisoria" false;
        ativo = get_bool engine.to_lowercase payload "ativo" true;
        password = get_string payload "senha";
        profile_ids = get_i64_array payload "profile_ids";
        empresa_ids = get_i64_array payload "empresa_ids";
      })
    ]
  ]

  unfoldable pub user_get : String → ℤ → Exec E Fields
  user_get session_token id = do
    connect engine
    require_session_by_token engine session_token
    row ← query engine "Falha ao consultar usuário: " (user_by_id id)
    u ← lift (ok_or "Usuário não encontrado." row)
    profile_ids ←
        select engine "Falha ao preparar perfis do usuário: "
          "Falha ao consultar perfis do usuário: " "Falha ao mapear perfis do usuário: "
          (λ db.
            sort_ids
              (map (λ l. l.perfil_id) (filter (λ l. eqb_ℤ l.usuario_id id) db.user_profiles)))
    empresa_ids ←
        select engine "Falha ao preparar empresas do usuário: "
          "Falha ao consultar empresas do usuário: " "Falha ao mapear empresas do usuário: "
          (λ db.
            sort_ids
              (map (λ l. l.empresa_id) (filter (λ l. eqb_ℤ l.usuario_id id) db.user_companies)))
    pure (
        user_fields u (
          field "profile_ids" (array (numbers profile_ids))
            (field "empresa_ids" (array (numbers empresa_ids)) end)))
