-- ===== src/Access/Policy.antt =====
-- The guard of the administration and the policy for logins:
-- apps/console/src-tauri/src/commands/access.rs.
pub mod Master
pub mod Bounds
use tunnara.Prelude.{
  Option, none, some, String, ◌++◌, ◌∷◌, [], map, find, any, if◌then◌else◌, str_eq, unwrap_or,
  and_then,
}
use tunnara.Prelude.Int.{ℤ, pos, ltb_ℤ, eqb_ℤ}
use tunnara.Prelude.Text.{trim, show_ℤ}
use tunnara.Value.{Value, Fields, number, object, end, field}
use tunnara.Database.Tables.{Database, Setting}
use tunnara.Database.Command.{
  Result, ok, err, Engine, Exec, pure, raise, lift, ◌>>=◌, ◌>>◌, call, execute, update, now_rfc3339,
}
use tunnara.Database.{open_connection, write_audit}
use tunnara.Access.Payload.{get_i64, parse_i64}
use tunnara.Access.Sessions.{require_session_by_token}

abbrev pub ok_or : {A : Type 0} → String → Option A → Result A
ok_or message none = err message
ok_or message (some a) = ok a

abbrev pub int_value : ℤ → Value
int_value i = number (record { as_i64 = some i; printed = show_ℤ i })

abbrev pub user_login_min_length_key : String
user_login_min_length_key = "user_login_min_length"

abbrev pub clamp_login_min_length : ℤ → ℤ
clamp_login_min_length value =
    if ltb_ℤ value (pos 1) then pos 1 else if ltb_ℤ (pos 64) value then pos 64 else value

-- `row.get(0)` into a text: a NULL is none.
abbrev pub column_text : Option String → Database → Result (Option String × Database)
column_text none db = err "Invalid column type Null at index: 0, name: valor"
column_text (some v) db = ok (some v, db)

abbrev pub optional_text : Option Setting → Database → Result (Option String × Database)
optional_text none db = ok (none, db)
optional_text (some c) db = column_text c.valor db

-- `query_row` of a setting with `optional`.
abbrev pub setting_text : String → Database → Result (Option String × Database)
setting_text key db = optional_text (find (λ c. str_eq c.chave key) db.settings) db

-- `INSERT … ON CONFLICT(chave) DO UPDATE`
abbrev pub save_setting : String → String → String → Database → Database
save_setting key value now db = record db {
  settings =
      if any (λ c. str_eq c.chave key) db.settings
      then map
          (λ c. if str_eq c.chave key then record c { valor = some value; updated_at = now } else c)
          db.settings
      else db.settings
        ++ (record { chave = key; valor = some value; created_at = now; updated_at = now } ∷ []);
}

unfoldable pub parsed_min_length : Option String → ℤ
unfolding parse_i64
parsed_min_length raw =
    clamp_login_min_length (unwrap_or (and_then raw (λ v. parse_i64 (trim v))) (pos 2))

abbrev pub policy_fields : ℤ → Fields
policy_fields n = field "login_min_length" (int_value n) (
    field "login_min_allowed" (int_value (pos 1))
      (field "login_max_allowed" (int_value (pos 64)) end))

module _ {E : Type 0} (engine : Engine E) where
  -- The start of a command of access.rs.
  abbrev pub connect : Exec E (Unit {0})
  connect = call engine.db_path >> open_connection engine

  unfoldable pub ensure_master : String → Exec E ℤ
  ensure_master session_token = do
    identity ← require_session_by_token engine session_token
    if identity.master_user
        then pure identity.user_id
        else raise "Apenas usuário master pode executar esta operação."

  unfoldable pub load_login_min_length : Exec E ℤ
  unfolding parsed_min_length
  load_login_min_length = do
    raw ←
        execute engine "Falha ao consultar política de login: "
          (setting_text user_login_min_length_key)
    pure (parsed_min_length raw)

  unfoldable pub user_policy_get : String → Exec E Fields
  user_policy_get session_token = do
    connect
    ensure_master session_token
    login_min_length ← load_login_min_length
    pure (policy_fields login_min_length)

  unfoldable pub user_policy_save : String → Fields → Exec E Fields
  user_policy_save session_token payload = do
    connect
    actor_id ← ensure_master session_token
    now ← now_rfc3339 engine
    value ← lift (
        ok_or "Informe a quantidade mínima de caracteres para login."
          (get_i64 payload "login_min_length"))
    if eqb_ℤ (clamp_login_min_length value) value
        then (do
          update engine "Falha ao salvar política de login: "
              (save_setting user_login_min_length_key (show_ℤ value) now)
          write_audit engine "user_policy" "update" (some actor_id)
              (object (field "login_min_length" (int_value value) end))
          pure (policy_fields value))
        else raise "A política de login deve ficar entre 1 e 64 caracteres."
