-- ===== src/Security.antt =====
-- apps/console/src-tauri/src/security.rs.
use tunnara.Prelude.{none, some, String, Bool}
use tunnara.Prelude.Text.{◌++◌}
use tunnara.Database.Command.{Result, ok, err, Engine, Exec, call}

module _ {E : Type 0} (engine : Engine E) where
  abbrev pub or_text : {A : Type 0} → String → Result A → Result A
  or_text context (ok a) = ok a
  or_text context (err m) = err (context ++ m)

  unfoldable pub hash_password : String → Exec E String
  hash_password password = call λ e.
      let (r, e') = engine.argon_hash password e in (or_text "Falha ao gerar hash da senha: " r, e')

  unfoldable pub verify_password : String → String → Result Bool
  verify_password password password_hash = elim (engine.argon_parse password_hash) [
    | some m ↦ err ("Falha ao interpretar hash armazenado: " ++ m)
    | none ↦ ok (engine.argon_verify password password_hash)
  ]
