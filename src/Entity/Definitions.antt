-- ===== src/Entity/Definitions.antt =====
-- The tables of the generic commands and the values that they take from a payload:
-- apps/console/src-tauri/src/commands/entities.rs, with the values and the drivers of
-- src/core/database beside it.
use tunnara.Prelude.{
  Bool, true, false, Option, none, some, String, List, [], ◌∷◌, any, if◌then◌else◌, str_eq,
}
use tunnara.Prelude.Int.{ℤ}
use tunnara.Prelude.Text.{trim, is_empty}
use tunnara.Value.{Number, Value, Fields, null, bool, number, string, get}
use tunnara.Access.Payload.{parse_i64}
use tunnara.Access.Policy.{int_value}

pub record EntityDefinition : Type 0 where
  pub table : String
  pub fields : List String
  pub searchable : List String
  pub required : List String
  pub label_column : String

-- One arm of the `match`: the names of an entity and what they stand for.
abbrev pub entities : List (List String × EntityDefinition)
entities =
    (
      "empresas" ∷ "companies" ∷ [],
      record {
        table = "empresas";
        fields = "nome" ∷ "nome_fantasia" ∷ "documento" ∷ "cidade" ∷ "estado" ∷ "ativo" ∷ [];
        searchable = "nome" ∷ "nome_fantasia" ∷ "documento" ∷ "cidade" ∷ [];
        required = "nome" ∷ [];
        label_column = "nome";
      },
    )
    ∷ (
      "perfis" ∷ "perfis_acesso" ∷ "profiles" ∷ [],
      record {
        table = "perfis_acesso";
        fields = "nome" ∷ "descricao" ∷ "perfil_master" ∷ "ativo" ∷ [];
        searchable = "nome" ∷ "descricao" ∷ [];
        required = "nome" ∷ [];
        label_column = "nome";
      },
    )
    ∷ (
      "usuarios" ∷ "users" ∷ [],
      record {
        table = "usuarios";
        fields =
            "nome" ∷ "login" ∷ "email" ∷ "telefone" ∷ "cargo" ∷ "observacoes" ∷ "master_user"
            ∷ "administrador" ∷ "senha_provisoria" ∷ "ativo" ∷ [];
        searchable = "nome" ∷ "login" ∷ "email" ∷ [];
        required = "nome" ∷ "login" ∷ [];
        label_column = "nome";
      },
    )
    ∷ (
      "departamentos" ∷ [],
      record {
        table = "departamentos";
        fields = "descricao" ∷ "ativo" ∷ [];
        searchable = "descricao" ∷ [];
        required = "descricao" ∷ [];
        label_column = "descricao";
      },
    )
    ∷ (
      "funcoes" ∷ [],
      record {
        table = "funcoes";
        fields = "descricao" ∷ "ativo" ∷ [];
        searchable = "descricao" ∷ [];
        required = "descricao" ∷ [];
        label_column = "descricao";
      },
    )
    ∷ (
      "centro_custos" ∷ [],
      record {
        table = "centro_custos";
        fields = "codigo" ∷ "descricao" ∷ "ativo" ∷ [];
        searchable = "codigo" ∷ "descricao" ∷ [];
        required = "descricao" ∷ [];
        label_column = "descricao";
      },
    )
    ∷ (
      "clientes" ∷ [],
      record {
        table = "clientes";
        fields =
            "nome" ∷ "documento" ∷ "telefone" ∷ "email" ∷ "endereco" ∷ "cidade" ∷ "estado"
            ∷ "observacoes" ∷ "ativo" ∷ [];
        searchable = "nome" ∷ "documento" ∷ "email" ∷ [];
        required = "nome" ∷ [];
        label_column = "nome";
      },
    )
    ∷ (
      "fornecedores" ∷ [],
      record {
        table = "fornecedores";
        fields =
            "nome" ∷ "documento" ∷ "telefone" ∷ "email" ∷ "endereco" ∷ "cidade" ∷ "estado"
            ∷ "observacoes" ∷ "ativo" ∷ [];
        searchable = "nome" ∷ "documento" ∷ "email" ∷ [];
        required = "nome" ∷ [];
        label_column = "nome";
      },
    )
    ∷ (
      "produtos" ∷ [],
      record {
        table = "produtos";
        fields = "codigo" ∷ "descricao" ∷ "tipo" ∷ "unidade" ∷ "valor" ∷ "ativo" ∷ [];
        searchable = "codigo" ∷ "descricao" ∷ "tipo" ∷ [];
        required = "descricao" ∷ [];
        label_column = "descricao";
      },
    )
    ∷ []

abbrev named : String → List (List String × EntityDefinition) → Option EntityDefinition
named entity [] = none
named entity ((names, definition) ∷ rest) =
    let later = named entity rest in
    if any (λ name. str_eq name entity) names then some definition else later

unfoldable pub entity_definition : String → Option EntityDefinition
entity_definition entity = named entity entities

pub data DatabaseDriver : Type 0 where
  sqlite : DatabaseDriver
  mysql : DatabaseDriver
  postgres : DatabaseDriver
  firebird_unsupported : DatabaseDriver

abbrev pub is_postgres : DatabaseDriver → Bool
is_postgres postgres = true
is_postgres _ = false

-- `real` holds a number that is no `i64`, which serde_json can always give as an `f64`.
pub data DbValue : Type 0 where
  null_value : DbValue
  bool_value : Bool → DbValue
  integer : ℤ → DbValue
  real : Number → DbValue
  text : String → DbValue
  json : Value → DbValue

abbrev pub number_value : Number → Option ℤ → DbValue
number_value n none = real n
number_value n (some i) = integer i

unfoldable pub db_value_from_json : Value → DbValue
db_value_from_json null = null_value
db_value_from_json (bool b) = bool_value b
db_value_from_json (number n) = number_value n n.as_i64
db_value_from_json (string s) = text s
db_value_from_json other = json other

abbrev pub numeric_fields : List String
numeric_fields =
    "empresa_id" ∷ "departamento_id" ∷ "funcao_id" ∷ "centro_custo_id" ∷ "horario_id" ∷ "escala_id"
    ∷ "numero" ∷ "porta" ∷ "carga_horaria_minutos" ∷ "tolerancia_minutos" ∷ "ativo"
    ∷ "administrador" ∷ "impacta_banco_horas" ∷ "abono" ∷ "banco_horas_ativo" ∷ "permite_hora_extra"
    ∷ "compensa_atraso_com_extra" ∷ "usa_banco_para_excedente" ∷ []

abbrev pub parsed_or_null : Option ℤ → Value
parsed_or_null none = null
parsed_or_null (some i) = int_value i

abbrev pub numeric : Value → Value
unfolding parse_i64
numeric (string v) = if is_empty (trim v) then null else parsed_or_null (parse_i64 v)
numeric other = other

abbrev pub value_or_null : Option Value → Value
value_or_null none = null
value_or_null (some v) = v

unfoldable pub normalize_value : Fields → String → Value
unfolding numeric
normalize_value payload name =
    let value = value_or_null (get payload name) in
    if any (λ known. str_eq known name) numeric_fields then numeric value else value
