-- ===== src/Company/Payload.antt =====
-- What the commands on companies read of their payloads: the first part of
-- apps/console/src-tauri/src/commands/companies.rs.
use tunnara.Prelude.{
  ℕ, Bool, true, false, not, ◌||◌, Option, none, some, String, if◌then◌else◌, str_eq, and_then,
  unwrap_or, map_option, ◌==◌,
}
use tunnara.Prelude.Int.{ℤ, pos, eqb_ℤ}
use tunnara.Prelude.Text.{trim}
use Prim.Native.String as Native
use tunnara.Value.{Value, Fields, bool, number, string, get}
use tunnara.Database.Command.{Result, ok, err}
use tunnara.Access.Payload.{parse_i64, validate_email}
use tunnara.Company.Document.{
  only_digits, normalize_document_key, normalize_optional_registration, normalize_upper_uf,
  validate_company_document, non_empty,
}

abbrev text_of : Value → Option String
text_of (string text) = some (trim text)
text_of (number n) = some n.printed
text_of (bool flag) = some (if flag then "1" else "0")
text_of _ = none

unfoldable pub get_string : Fields → String → Option String
get_string payload key = and_then (and_then (get payload key) text_of) non_empty

abbrev flag_of : Bool → Option Value → ℕ
flag_of default (some (bool flag)) = if flag then 1 else 0
flag_of default (some (number n)) =
    if not (eqb_ℤ (unwrap_or n.as_i64 (pos 0)) (pos 0)) then 1 else 0
flag_of default (some (string text)) =
    let t = trim text in
    if str_eq t "1" || str_eq t "true" || str_eq t "TRUE" || str_eq t "sim" || str_eq t "SIM"
    then 1
    else 0
flag_of default _ = if default then 1 else 0

unfoldable pub get_bool : Fields → String → Bool → ℕ
get_bool payload key default = flag_of default (get payload key)

abbrev id_of : Value → Option ℤ
unfolding parse_i64
id_of (number n) = n.as_i64
id_of (string text) = parse_i64 (trim text)
id_of _ = none

unfoldable pub get_id : Fields → Option ℤ
unfolding parse_i64
get_id payload = and_then (get payload "id") id_of

-- What `company_save` writes of its payload.
pub record CompanyInput : Type 0 where
  pub nome : String
  pub nome_fantasia : Option String
  pub documento : String
  pub inscricao_estadual : Option String
  pub inscricao_municipal : Option String
  pub telefone : Option String
  pub email : Option String
  pub responsavel_nome : Option String
  pub responsavel_telefone : Option String
  pub cep : Option String
  pub endereco : Option String
  pub numero : Option String
  pub complemento : Option String
  pub bairro : Option String
  pub cidade : Option String
  pub estado : Option String
  pub observacoes : Option String
  pub ativo : ℕ

unfoldable pub bad_email : Option String → Bool
unfolding validate_email
bad_email none = false
bad_email (some value) = not (validate_email value)

abbrev pub bad_uf : Option String → Bool
bad_uf none = false
bad_uf (some uf) = not (Native.len uf == 2)

module _ (to_uppercase : String → String) where
  -- The fields that nothing checks.
  unfoldable pub filled : Fields → String → String → Option String → Option String → CompanyInput
  unfolding get_string get_bool only_digits normalize_optional_registration
  filled payload nome documento email estado = record {
    nome = nome;
    nome_fantasia = get_string payload "nome_fantasia";
    documento = documento;
    inscricao_estadual =
        normalize_optional_registration to_uppercase (get_string payload "inscricao_estadual");
    inscricao_municipal =
        normalize_optional_registration to_uppercase (get_string payload "inscricao_municipal");
    telefone = map_option only_digits (get_string payload "telefone");
    email = email;
    responsavel_nome = get_string payload "responsavel_nome";
    responsavel_telefone = map_option only_digits (get_string payload "responsavel_telefone");
    cep = map_option only_digits (get_string payload "cep");
    endereco = get_string payload "endereco";
    numero = get_string payload "numero";
    complemento = get_string payload "complemento";
    bairro = get_string payload "bairro";
    cidade = get_string payload "cidade";
    estado = estado;
    observacoes = get_string payload "observacoes";
    ativo = get_bool payload "ativo" true;
  }

  -- The checks in their order.
  unfoldable pub checked : Fields → String → String → Result CompanyInput
  unfolding get_string normalize_document_key validate_company_document normalize_upper_uf filled
  checked payload nome documento_raw =
      let documento = normalize_document_key to_uppercase documento_raw in
      let email = get_string payload "email" in
      let estado = normalize_upper_uf to_uppercase (get_string payload "estado") in
      if not (validate_company_document to_uppercase documento)
      then err
          "Documento inválido para empresa usuária. Informe CPF/CNPJ válido ou identificador interno compatível com o cadastro local."
      else if bad_email email
      then err "E-mail da empresa é inválido."
      else if bad_uf estado
      then err "UF da empresa deve conter 2 caracteres."
      else ok (filled payload nome documento email estado)

  -- From the texts of the name and the document.
  abbrev pub from_texts : Fields → Option String → Option String → Result CompanyInput
  from_texts payload none documento = err "Informe a razão social da empresa."
  from_texts payload (some nome) none = err "Informe o documento da empresa usuária."
  from_texts payload (some nome) (some documento_raw) = checked payload nome documento_raw

  unfoldable pub company_input : Fields → Result CompanyInput
  unfolding get_string checked
  company_input payload =
      from_texts payload (get_string payload "nome") (get_string payload "documento")
