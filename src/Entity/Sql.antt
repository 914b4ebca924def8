-- ===== src/Entity/Sql.antt =====
-- The texts of SQL that the commands on a provider send (Entity.antt), with `placeholder` and
-- `last_insert_id_sql` of apps/console/src-tauri/src/core/database/provider/mod.rs.
use tunnara.Prelude.{ℕ, zero, suc, ◌+◌, Bool, String, List, [], ◌∷◌, ◌++◌, length, if◌then◌else◌}
use tunnara.Prelude.Text.{◌++◌ as ◌+s◌, show_ℕ, join}
use tunnara.Entity.Definitions.{
  EntityDefinition, DatabaseDriver, sqlite, mysql, postgres, firebird_unsupported, is_postgres,
}

unfoldable pub placeholder : DatabaseDriver → ℕ → String
placeholder postgres index = "$" +s show_ℕ index
placeholder sqlite index = "?"
placeholder mysql index = "?"
placeholder firebird_unsupported index = "?"

abbrev pub last_insert_id_sql : DatabaseDriver → String
last_insert_id_sql sqlite = "SELECT last_insert_rowid() AS id"
last_insert_id_sql mysql = "SELECT LAST_INSERT_ID() AS id"
last_insert_id_sql postgres = ""
last_insert_id_sql firebird_unsupported = ""

unfoldable pub select_columns : EntityDefinition → String
unfolding join
select_columns definition = "id, " +s join ", " definition.fields

-- The texts of SQL, by the driver.
module _ (driver : DatabaseDriver) where
  -- `enumerate` and `map`: each column with its placeholder, from the number that is given.
  unfoldable pub numbered : String → ℕ → List String → List String
  unfolding placeholder
  numbered between index [] = []
  numbered between index (column ∷ columns) =
      (column +s between +s placeholder driver index) ∷ numbered between (suc index) columns

  unfoldable pub placeholders : ℕ → ℕ → List String
  unfolding placeholder
  placeholders start zero = []
  placeholders start (suc count) = placeholder driver start ∷ placeholders (suc start) count

  abbrev pub list_sql : EntityDefinition → Bool → String
  list_sql definition searching =
      "SELECT "
      +s select_columns definition
      +s " FROM "
      +s definition.table
      +s (if searching
          then " WHERE (" +s join " OR " (numbered " LIKE " 1 definition.searchable) +s ")"
          else "")
      +s " ORDER BY id DESC"

  abbrev pub get_sql : EntityDefinition → String
  get_sql definition =
      "SELECT "
      +s select_columns definition
      +s " FROM "
      +s definition.table
      +s " WHERE id = "
      +s placeholder driver 1

  abbrev pub audit_sql : String
  audit_sql =
      "INSERT INTO audit_logs (entity_name, action_name, record_id, payload_json, created_at) VALUES ("
      +s join ", " (placeholders 1 5)
      +s ")"

  abbrev pub sync_sql : String
  sync_sql =
      "INSERT INTO sync_queue (entity_name, action_name, record_id, payload_json, status, created_at, updated_at) VALUES ("
      +s join ", " (placeholders 1 7)
      +s ")"

  abbrev pub update_sql : EntityDefinition → String
  update_sql definition =
      let count = length definition.fields in
      "UPDATE "
      +s definition.table
      +s " SET "
      +s join ", " (
          numbered " = " 1 definition.fields
          ++ (("updated_at = " +s placeholder driver (count + 1)) ∷ []))
      +s " WHERE id = "
      +s placeholder driver (count + 2)

  abbrev pub insert_sql : EntityDefinition → String
  insert_sql definition =
      let columns = definition.fields ++ ("created_at" ∷ "updated_at" ∷ []) in
      "INSERT INTO "
      +s definition.table
      +s " ("
      +s join ", " columns
      +s ") VALUES ("
      +s join ", " (placeholders 1 (length columns))
      +s ")"
      +s (if is_postgres driver then " RETURNING id" else "")

  abbrev pub delete_sql : EntityDefinition → String
  delete_sql definition =
      "DELETE FROM " +s definition.table +s " WHERE id = " +s placeholder driver 1
