-- ===== src/Logs.antt =====
-- The application's log: `write_app_log` of apps/console/src-tauri/src/db.rs and what it makes
-- of the details.
pub mod Redaction
mod Tests
use tunnara.Prelude.{Bool, String, List, [], ◌∷◌, any, if◌then◌else◌}
use tunnara.Prelude.Text.{trim, contains}
use tunnara.Value.{
  Value, Items, Fields, null, bool, number, string, array, object, nil, cons, end, field,
}

abbrev pub sensitive_words : List String
sensitive_words =
    "senha" ∷ "password" ∷ "confirm_password" ∷ "password_confirmation" ∷ "token" ∷ "secret"
    ∷ "api_key" ∷ "apikey" ∷ "authorization" ∷ []

-- `to_lowercase` is the standard library's.
module _ (to_lowercase : String → String) where
  pub is_sensitive_key : String → Bool
  is_sensitive_key key = any (λ item. contains (to_lowercase (trim key)) item) sensitive_words

  unfoldable mutual
    unfolding is_sensitive_key

    pub sanitize_log_value : Value → Value
    sanitize_log_value (object map) = object (sanitize_fields map)
    sanitize_log_value (array items) = array (sanitize_items items)
    sanitize_log_value null = null
    sanitize_log_value (bool b) = bool b
    sanitize_log_value (number n) = number n
    sanitize_log_value (string s) = string s

    sanitize_items : Items → Items
    sanitize_items nil = nil
    sanitize_items (cons v vs) = cons (sanitize_log_value v) (sanitize_items vs)

    sanitize_fields : Fields → Fields
    sanitize_fields end = end
    sanitize_fields (field k v fs) =
        let inner = sanitize_log_value v in
        let rest = sanitize_fields fs in
        field k (if is_sensitive_key k then string "***" else inner) rest
