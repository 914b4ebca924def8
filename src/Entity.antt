-- ===== src/Entity.antt =====
-- The generic commands on a database provider: the second half of
-- apps/console/src-tauri/src/commands/entities.rs. A provider runs the texts of SQL that it is
-- given; `to_string` of a JSON value is serde_json's.
pub mod Definitions
pub mod Sql
pub mod Confined
mod Tests
use tunnara.Prelude.{
  ℕ, zero, suc, ◌+◌, Bool, true, false, Option, none, some, String, List, [], ◌∷◌, ◌++◌, map,
  length, if◌then◌else◌, is_some, ltb, and_then, unwrap_or, or_else, map_option,
}
use tunnara.Prelude.Int.{ℤ}
use tunnara.Prelude.Text.{◌++◌ as ◌+s◌, trim, is_empty, show_ℕ, join}
use tunnara.Value.{Value, Fields, number, string, object, end, field, get}
use tunnara.Database.Command.{Result, ok, err, Exec, pure, raise, lift, ◌>>=◌, ◌>>◌, ask, call}
use tunnara.Access.Payload.{parse_i64}
use tunnara.Access.Policy.{ok_or, int_value}
use tunnara.Company.Answers.{as_str}
use tunnara.Entity.Definitions.{
  EntityDefinition, entity_definition, DatabaseDriver, sqlite, mysql, postgres,
  firebird_unsupported, is_postgres, DbValue, null_value, integer, text, db_value_from_json,
  normalize_value,
}
use tunnara.Entity.Sql.{
  placeholder, last_insert_id_sql, select_columns, numbered, placeholders, list_sql, get_sql,
  audit_sql, sync_sql, update_sql, insert_sql, delete_sql,
}

-- `DatabaseProvider`, and what the commands call beside it
pub record Provider (E : Type 0) : Type 0 where
  pub driver : DatabaseDriver
  pub execute : String → List DbValue → E → Result ℕ × E
  pub query : String → List DbValue → E → Result (List Fields) × E
  pub query_one : String → List DbValue → E → Result (Option Fields) × E
  -- `Utc::now().to_rfc3339()`
  pub now : E → String × E
  -- `Value::to_string`
  pub to_string : Value → String

-- `as_i64`, or the number that a text spells
abbrev pub id_of : Value → Option ℤ
unfolding parse_i64
id_of (number n) = n.as_i64
id_of (string s) = parse_i64 s
id_of _ = none

unfoldable pub payload_id : Fields → Option ℤ
unfolding id_of
payload_id payload = and_then (get payload "id") id_of

-- The first required field that the payload leaves blank.
unfoldable pub check_required : Fields → List String → Result (Unit {0})
check_required payload [] = ok tt
check_required payload (required ∷ rest) =
    let later = check_required payload rest in
    if is_empty (unwrap_or (map_option trim (and_then (get payload required) as_str)) "")
    then err ("O campo " +s required +s " é obrigatório.")
    else later

-- The value of `record_id` in a log.
abbrev pub id_value : Option ℤ → DbValue
id_value none = null_value
id_value (some i) = integer i

abbrev pub action_name : Option ℤ → String
action_name id = if is_some id then "update" else "create"

-- The id that a row holds.
abbrev pub row_id : Option Fields → String → Result ℤ
unfolding payload_id
row_id none absent = err absent
row_id (some row) absent = ok_or "Id retornado pelo provider é inválido." (payload_id row)

module _ {E : Type 0} (provider : Provider E) where
  abbrev pub definition_of : String → Exec E EntityDefinition
  unfolding entity_definition
  definition_of entity = lift (ok_or "Entidade não permitida." (entity_definition entity))

  unfoldable pub provider_list_with_database : String → String → Exec E (List Fields)
  unfolding definition_of
  provider_list_with_database entity search = do
    definition ← definition_of entity
    let wanted = trim search
    let params : List DbValue =
        if is_empty wanted
        then []
        else map (λ column. text ("%" +s wanted +s "%")) definition.searchable
    call (
        provider.query
          (list_sql provider.driver definition (if is_empty wanted then false else true)) params)

  unfoldable pub provider_get_with_database : String → ℤ → Exec E (Option Fields)
  unfolding definition_of
  provider_get_with_database entity id = do
    definition ← definition_of entity
    call (provider.query_one (get_sql provider.driver definition) (integer id ∷ []))

  unfoldable pub provider_insert_audit :
      String → String → Option ℤ → Value → String → Exec E (Unit {0})
  provider_insert_audit entity action record_id payload now =
      call (
        provider.execute (audit_sql provider.driver) (
          text entity
          ∷ text action
          ∷ id_value record_id
          ∷ text (provider.to_string payload)
          ∷ text now
          ∷ []))
      >> pure tt

  unfoldable pub provider_enqueue_sync :
      String → String → Option ℤ → Value → String → Exec E (Unit {0})
  provider_enqueue_sync entity action record_id payload now =
      call (
        provider.execute (sync_sql provider.driver) (
          text entity
          ∷ text action
          ∷ id_value record_id
          ∷ text (provider.to_string payload)
          ∷ text "pending"
          ∷ text now
          ∷ text now
          ∷ []))
      >> pure tt

  unfoldable pub report : String → String → Option ℤ → Value → String → Exec E (Unit {0})
  unfolding provider_insert_audit provider_enqueue_sync
  report entity action record_id payload now = do
    provider_insert_audit entity action record_id payload now
    provider_enqueue_sync entity action record_id payload now

  unfoldable pub insert_row : EntityDefinition → List DbValue → Exec E ℤ
  unfolding row_id
  insert_row definition values =
      if is_postgres provider.driver
      then (call (provider.query_one (insert_sql provider.driver definition) values) >>= λ row.
          lift (row_id row "Falha ao obter id retornado pelo PostgreSQL."))
      else call (provider.execute (insert_sql provider.driver definition) values)
        >> (call (provider.query_one (last_insert_id_sql provider.driver) []) >>= λ row.
            lift (row_id row "Falha ao obter último id inserido pelo provider."))

  unfoldable pub write_row : EntityDefinition → Option ℤ → List DbValue → String → Exec E ℤ
  unfolding insert_row
  write_row definition (some existing_id) values now =
      call (
        provider.execute (update_sql provider.driver definition)
          (values ++ (text now ∷ integer existing_id ∷ [])))
      >> pure existing_id
  write_row definition none values now =
      insert_row definition (values ++ (text now ∷ text now ∷ []))

  -- The part of a save that follows its checks.
  unfoldable pub save_row : EntityDefinition → String → Fields → String → Exec E Fields
  unfolding normalize_value db_value_from_json payload_id write_row provider_get_with_database
      report
  save_row definition entity payload now = do
    let values = map (λ name. db_value_from_json (normalize_value payload name)) definition.fields
    record_id ← write_row definition (payload_id payload) values now
    row ← provider_get_with_database entity record_id
    saved ← lift (ok_or "Registro salvo não encontrado pelo provider." row)
    report entity (action_name (payload_id payload)) (some record_id) (object saved) now
    pure saved

  unfoldable pub provider_save_with_database : String → Fields → Exec E Fields
  unfolding definition_of check_required save_row
  provider_save_with_database entity payload = do
    definition ← definition_of entity
    now ← ask provider.now
    lift (check_required payload definition.required)
    save_row definition entity payload now

  abbrev pub report_deletion : String → ℤ → Exec E (Unit {0})
  unfolding report
  report_deletion entity id =
      ask provider.now
      >>= report entity "delete" (some id)
          (object (field "id" (int_value id) (field "entity" (string entity) end)))

  unfoldable pub provider_delete_with_database : String → ℤ → Exec E Bool
  unfolding definition_of report_deletion
  provider_delete_with_database entity id = do
    definition ← definition_of entity
    affected ← call (provider.execute (delete_sql provider.driver definition) (integer id ∷ []))
    if ltb 0 affected then report_deletion entity id else pure tt
    pure (ltb 0 affected)

  -- The command that updates, once the provider is there.
  unfoldable pub provider_entity_update : String → Fields → Exec E Fields
  unfolding provider_save_with_database
  provider_entity_update entity payload =
      if is_some (get payload "id")
      then provider_save_with_database entity payload
      else raise "Campo id é obrigatório para atualização via provider_entity_update."
