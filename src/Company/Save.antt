-- ===== src/Company/Save.antt =====
-- `company_get`, `company_save` and `company_delete` in
-- apps/console/src-tauri/src/commands/companies.rs.
pub mod Rows
pub mod Saved
pub mod Placing
pub mod Distinct
use tunnara.Prelude.{
  ℕ, suc, Bool, not, ◌||◌, ◌&&◌, Option, none, some, String, [], ◌∷◌, ◌++◌, map, filter, find, any,
  if◌then◌else◌, is_some, length, ltb, str_eq, unwrap_or, code, ◌==◌,
}
use tunnara.Prelude.Int.{ℤ, pos, eqb_ℤ}
use tunnara.Prelude.Text.{filter_chars}
use tunnara.Value.{Value, Fields, string, object, end, field}
use tunnara.Database.Tables.{Database, Company}
use tunnara.Database.Command.{
  Result, ok, Engine, Exec, pure, lift, ◌>>=◌, ◌>>◌, execute, query, now_rfc3339,
}
use tunnara.Database.{enqueue_sync, write_audit}
use tunnara.Access.Rows.{violated, has_company}
use tunnara.Access.Statements.{another}
use tunnara.Access.Policy.{connect, ok_or, int_value}
use tunnara.Access.Profiles.{text_value}
use tunnara.Access.Save.{refuse_if}
use tunnara.Company.Payload.{CompanyInput, get_id, company_input}

-- `company_select_sql` and `row_to_json_map`
abbrev pub company_fields : Company → Fields
company_fields c = field "id" (int_value c.id) (
    field "nome" (string c.nome) (
      field "nome_fantasia" (text_value c.nome_fantasia) (
        field "documento" (text_value c.documento) (
          field "inscricao_estadual" (text_value c.inscricao_estadual) (
            field "inscricao_municipal" (text_value c.inscricao_municipal) (
              field "telefone" (text_value c.telefone) (
                field "email" (text_value c.email) (
                  field "responsavel_nome" (text_value c.responsavel_nome) (
                    field "responsavel_telefone" (text_value c.responsavel_telefone) (
                      field "cep" (text_value c.cep) (
                        field "endereco" (text_value c.endereco) (
                          field "numero" (text_value c.numero) (
                            field "complemento" (text_value c.complemento) (
                              field "bairro" (text_value c.bairro) (
                                field "cidade" (text_value c.cidade) (
                                  field "estado" (text_value c.estado) (
                                    field "observacoes" (text_value c.observacoes) (
                                      field "ativo" (int_value (pos c.ativo)) (
                                        field "created_at" (string c.created_at) (
                                          field "updated_at" (string c.updated_at)
                                            end))))))))))))))))))))

abbrev pub company_by_id : ℤ → Database → Option Company
company_by_id i db = find (λ c. eqb_ℤ c.id i) db.companies

-- What `UPDATE empresas` writes.
abbrev pub write_company : CompanyInput → String → Company → Company
write_company input now c = record {
  id = c.id;
  nome = input.nome;
  nome_fantasia = input.nome_fantasia;
  documento = some input.documento;
  inscricao_estadual = input.inscricao_estadual;
  inscricao_municipal = input.inscricao_municipal;
  telefone = input.telefone;
  email = input.email;
  responsavel_nome = input.responsavel_nome;
  responsavel_telefone = input.responsavel_telefone;
  cep = input.cep;
  endereco = input.endereco;
  numero = input.numero;
  complemento = input.complemento;
  bairro = input.bairro;
  cidade = input.cidade;
  estado = input.estado;
  observacoes = input.observacoes;
  ativo = input.ativo;
  created_at = c.created_at;
  updated_at = now;
}

abbrev pub new_company : CompanyInput → String → ℤ → Company
new_company input now i = record {
  id = i;
  nome = input.nome;
  nome_fantasia = input.nome_fantasia;
  documento = some input.documento;
  inscricao_estadual = input.inscricao_estadual;
  inscricao_municipal = input.inscricao_municipal;
  telefone = input.telefone;
  email = input.email;
  responsavel_nome = input.responsavel_nome;
  responsavel_telefone = input.responsavel_telefone;
  cep = input.cep;
  endereco = input.endereco;
  numero = input.numero;
  complemento = input.complemento;
  bairro = input.bairro;
  cidade = input.cidade;
  estado = input.estado;
  observacoes = input.observacoes;
  ativo = input.ativo;
  created_at = now;
  updated_at = now;
}

abbrev pub update_company : ℤ → CompanyInput → String → Database → Database
update_company i input now db = record db {
  companies = map (λ c. if eqb_ℤ c.id i then write_company input now c else c) db.companies;
}

abbrev pub insert_company : CompanyInput → String → Database → Database
insert_company input now db = record db {
  companies = db.companies ++ (new_company input now (pos (suc db.last_company)) ∷ []);
  last_company = suc db.last_company;
}

-- `DELETE FROM empresas WHERE id = ?1`: the foreign key of the licences refuses it, that of the
-- users' links deletes them.
abbrev pub without_company : ℤ → Database → Database
without_company i db = record db {
  companies = filter (λ c. not (eqb_ℤ c.id i)) db.companies;
  user_companies = filter (λ l. not (eqb_ℤ l.empresa_id i)) db.user_companies;
}

abbrev pub delete_company : ℤ → Database → Result (ℕ × Database)
delete_company i db =
    if has_company i db && any (λ l. eqb_ℤ l.empresa_id i) db.local_licenses
    then violated "FOREIGN KEY constraint failed"
    else ok (length (filter (λ c. eqb_ℤ c.id i) db.companies), without_company i db)

abbrev pub company_action : Option ℤ → String
company_action id = if is_some id then "update" else "create"

module _ {E : Type 0} (engine : Engine E) where
  -- `UPPER(REPLACE(REPLACE(REPLACE(COALESCE(documento, ''), '.', ''), '-', ''), '/', ''))`
  abbrev pub stored_key : Option String → String
  stored_key documento = engine.sql_upper (
      filter_chars (λ c. not (code c == b'.' || code c == b'-' || code c == b'/'))
        (unwrap_or documento ""))

  abbrev pub document_taken : String → Option ℤ → Database → Bool
  document_taken documento id db =
      any (λ c. str_eq (stored_key c.documento) documento && another id c.id) db.companies

  abbrev pub read_company : String → String → ℤ → Exec E Fields
  read_company context absent i = do
    row ← query engine context (company_by_id i)
    c ← lift (ok_or absent row)
    pure (company_fields c)

  unfoldable pub company_get : ℤ → Exec E Fields
  company_get id = do
    connect engine
    read_company "Falha ao consultar empresa: " "Empresa não encontrada." id

  unfoldable pub write_input : Option ℤ → CompanyInput → String → Exec E ℤ
  write_input (some existing_id) input now = do
    execute engine "Falha ao atualizar empresa: "
        (λ db. ok (tt, update_company existing_id input now db))
    pure existing_id
  write_input none input now =
      execute engine "Falha ao inserir empresa: "
        (λ db. ok (pos (suc db.last_company), insert_company input now db))

  unfoldable pub report_company : Option ℤ → ℤ → Fields → Exec E (Unit {0})
  report_company id record_id saved = do
    write_audit engine "empresas" (company_action id) (some record_id) (object saved)
    enqueue_sync engine "empresas" (company_action id) (some record_id) (object saved)

  -- The part of `company_save` that follows its checks.
  unfoldable pub store_company : Option ℤ → CompanyInput → String → Exec E Fields
  unfolding write_input report_company
  store_company id input now = do
    record_id ← write_input id input now
    saved ← read_company "Falha ao reler empresa salva: " "Empresa salva não encontrada." record_id
    report_company id record_id saved
    pure saved

  unfoldable pub store_unless_taken : Option ℤ → CompanyInput → String → Exec E Fields
  unfolding store_company
  store_unless_taken id input now = do
    duplicate ←
        query engine "Falha ao validar documento da empresa: " (document_taken input.documento id)
    refuse_if duplicate "Já existe uma empresa usuária com este documento."
    store_company id input now

  unfoldable pub company_save : Fields → Exec E Fields
  unfolding get_id company_input store_unless_taken
  company_save payload = do
    connect engine
    let id = get_id payload
    now ← now_rfc3339 engine
    input ← lift (company_input engine.to_uppercase payload)
    store_unless_taken id input now

  unfoldable pub report_deletion : ℤ → Exec E (Unit {0})
  report_deletion id = do
    let payload : Value =
        object (field "id" (int_value id) (field "entity" (string "empresas") end))
    write_audit engine "empresas" "delete" (some id) payload
    enqueue_sync engine "empresas" "delete" (some id) payload

  unfoldable pub company_delete : ℤ → Exec E Bool
  unfolding report_deletion
  company_delete id = do
    connect engine
    affected ← execute engine "Falha ao excluir empresa: " (delete_company id)
    if ltb 0 affected then report_deletion id else pure tt
    pure (ltb 0 affected)
