-- ===== src/Entity/Tests.antt =====
-- Runs of the generic commands on a provider that writes down the texts of SQL.
use tunnara.Prelude.{◌≡◌, refl, sym, ◌∙◌, inl, inr, some, String, List, [], ◌∷◌}
use mathlib.Core.Path.{subst}
use tunnara.Prelude.Int.{pos}
use tunnara.Prelude.Members.{Memᴰ, mem-cons}
use tunnara.Prelude.Text.{trim, join, show_ℕ}
use tunnara.Value.{Fields, string, end, field}
use tunnara.Database.Command.{ok, State}
use tunnara.Access.Policy.{int_value}
use tunnara.Access.Samples.{tables}
use tunnara.Access.Payload.{parse_i64}
use tunnara.Entity.Definitions.{
  EntityDefinition, entity_definition, postgres, normalize_value, db_value_from_json,
}
use tunnara.Entity.Sql.{placeholder, placeholders, numbered, select_columns}
use tunnara.Entity.{
  Provider, provider_save_with_database, provider_delete_with_database, save_row, write_row,
  insert_row, report, provider_get_with_database, provider_insert_audit, provider_enqueue_sync,
  check_required, payload_id,
}
use tunnara.Entity.Confined.{statements, Kept, provider_writes_confined}

abbrev logging : Provider (List String)
logging = record {
  driver = postgres;
  execute = λ sql params e. (ok 1, sql ∷ e);
  query = λ sql params e. (ok [], sql ∷ e);
  query_one = λ sql params e. (ok (some (field "id" (int_value (pos 7)) end)), sql ∷ e);
  now = λ e. ("agora", e);
  to_string = λ v. "{}";
}

abbrev Expected : List String → Type 0
Expected log =
    (definition : EntityDefinition)
    → entity_definition "departamentos" ≡ some definition
    → (sql : String) → Memᴰ sql log
    → Memᴰ sql (statements postgres definition)

some_eq : {A : Type 0} {a b : A} → some a ≡ some b → a ≡ b
some_eq h = cc

sent :
    (definition : EntityDefinition) (known : entity_definition "departamentos" ≡ some definition)
    (sql : String) (log : List String)
    → Memᴰ sql (statements postgres definition)
    → Expected log
    → Expected (sql ∷ log)
sent definition known sql log m h d k q n = elim (mem-cons n) [
  | inl e ↦
      subst (λ (x : String). Memᴰ x (statements postgres d)) (sym e)
        (subst (λ c. Memᴰ sql (statements postgres c)) (some_eq (sym known ∙ k)) m)
  | inr l ↦ h d k q l
]

logging-Kept :
    (definition : EntityDefinition)
    → entity_definition "departamentos" ≡ some definition
    → Kept logging definition Expected
logging-Kept definition known = record {
  executes = λ sql params e m h. sent definition known sql e m h;
  queries = λ sql params e m h. sent definition known sql e m h;
  clock = λ e h. h;
}

abbrev injection : Fields
injection = field "descricao" (string "x'); DROP TABLE usuarios; --") end

abbrev silent : State (List String)
silent = record { db = tables; env = [] }

provider_writes_confined_example :
    Expected (provider_save_with_database logging "departamentos" injection silent).1.env
    × Expected (provider_delete_with_database logging "departamentos" (pos 3) silent).1.env
provider_writes_confined_example =
    provider_writes_confined logging Expected "departamentos" logging-Kept silent
      (λ d k sql m. elim m [ ]) injection (pos 3)

insert_run :
    (provider_save_with_database logging "departamentos" injection silent).1.env
    ≡ "INSERT INTO sync_queue (entity_name, action_name, record_id, payload_json, status, created_at, updated_at) VALUES ($1, $2, $3, $4, $5, $6, $7)"
      ∷ "INSERT INTO audit_logs (entity_name, action_name, record_id, payload_json, created_at) VALUES ($1, $2, $3, $4, $5)"
      ∷ "SELECT id, descricao, ativo FROM departamentos WHERE id = $1"
      ∷ "INSERT INTO departamentos (descricao, ativo, created_at, updated_at) VALUES ($1, $2, $3, $4) RETURNING id"
      ∷ []
unfolding provider_save_with_database entity_definition check_required save_row payload_id parse_i64
    normalize_value db_value_from_json write_row insert_row provider_get_with_database report
    provider_insert_audit provider_enqueue_sync placeholder placeholders numbered select_columns
    join trim show_ℕ
insert_run = refl
