-- ===== src/Logs/Tests.antt =====
-- Runs of the redaction (Logs.antt), and its theorem at a concrete input.
use tunnara.Prelude.{◌≡◌, refl, String}
use tunnara.Prelude.Text.{trim, contains}
use tunnara.Value.{Value, string, object, end, field}
use tunnara.Logs.{sanitize_log_value}
use tunnara.Logs.Redaction.{Redacted, sanitize_log_value-Redacted}

abbrev same : String → String
same s = s

abbrev details : Value
details = object (
    field "login" (string "ana") (
      field "body" (object (field "nova_senha" (string "x") end))
        (field "session_token" (object (field "id" (string "t") end)) end)))

sanitize_run :
    sanitize_log_value same details
    ≡ object (
        field "login" (string "ana") (
          field "body"
            (object (field "nova_senha" (string "***") end))
            (field "session_token" (string "***") end)))
unfolding sanitize_log_value trim contains
sanitize_run = refl

sanitize_log_value-Redacted_example :
    Redacted same (sanitize_log_value same details)
    × (Redacted same details → sanitize_log_value same details ≡ details)
    × (sanitize_log_value same (sanitize_log_value same details) ≡ sanitize_log_value same details)
sanitize_log_value-Redacted_example = sanitize_log_value-Redacted same details
