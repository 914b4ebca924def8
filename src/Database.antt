-- ===== src/Database.antt =====
-- apps/console/src-tauri/src/db.rs.
pub mod Tables
pub mod Command
pub mod Keeping
use tunnara.Prelude.{ℕ, Option, none, some, String, [], ◌∷◌, ◌++◌, map_option}
use tunnara.Prelude.Int.{ℤ}
use tunnara.Value.{Value}
use tunnara.Logs.{sanitize_log_value}
use tunnara.Database.Tables.{Database, Entry, AppLog}
use tunnara.Database.Command.{
  Engine, Exec, pure, ◌>>=◌, ◌>>◌, ask, call, query, update, now_rfc3339,
}

module _ {E : Type 0} (engine : Engine E) where
  -- It turns the foreign keys on.
  unfoldable pub open_connection : Exec E (Unit {0})
  open_connection = do
    query engine "Falha ao abrir banco: " (λ _. tt)
    query engine "Falha ao ativar foreign_keys: " (λ _. tt)

  unfoldable pub enqueue_sync : String → String → Option ℤ → Value → Exec E (Unit {0})
  enqueue_sync entity_name action_name record_id payload = do
    now ← ask engine.datetime_now
    update engine "Falha ao enfileirar sincronização: " λ db. record db {
      sync_queue =
          db.sync_queue
          ++ (record {
            entity_name = entity_name;
            action_name = action_name;
            record_id = record_id;
            payload_json = payload;
            created_at = now;
          }
              ∷ []);
    }

  unfoldable pub write_audit : String → String → Option ℤ → Value → Exec E (Unit {0})
  write_audit entity_name action_name record_id payload = do
    now ← ask engine.datetime_now
    update engine "Falha ao gravar auditoria: " λ db. record db {
      audit_logs =
          db.audit_logs
          ++ (record {
            entity_name = entity_name;
            action_name = action_name;
            record_id = record_id;
            payload_json = payload;
            created_at = now;
          }
              ∷ []);
    }

  -- The row, and then the line in the file.
  unfoldable pub write_app_log :
      Option String → String → String → String → Option Value → Exec E (Unit {0})
  unfolding sanitize_log_value
  write_app_log route level category message details = do
    now ← now_rfc3339 engine
    let entry : AppLog = record {
      level = level;
      category = category;
      message = message;
      source = some "backend";
      route = route;
      details_json = map_option (sanitize_log_value engine.to_lowercase) details;
      created_at = now;
    }
    update engine "Falha ao gravar log da aplicação: "
        λ db. record db { app_logs = db.app_logs ++ (entry ∷ []) }
    call (engine.append_log entry)
