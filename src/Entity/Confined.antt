-- ===== src/Entity/Confined.antt =====
-- The texts of SQL that a save and a removal send (Entity.antt).
use tunnara.Prelude.{
  inl, inr, Option-cases, ◌≡◌, refl, Bool, true, false, Option, none, some, String, List, [], ◌∷◌,
  if◌then◌else◌, ltb, sym,
}
use mathlib.Core.Path.{subst}
use tunnara.Prelude.Int.{ℤ}
use tunnara.Prelude.Members.{Memᴰ}
use tunnara.Value.{Value, Fields}
use tunnara.Database.Command.{Result, ok, err, State, Exec, pure, lift, ask, call, ◌>>=◌, ◌>>◌}
use tunnara.Database.Command.Yields.{
  Yields, Always, Yields-pure, Yields-raise, Yields-ask, Yields-call, Yields-bind, Yields-then,
  Yields-done, yields_rules,
}
use tunnara.Entity.Definitions.{
  EntityDefinition, entity_definition, DatabaseDriver, DbValue, is_postgres,
}
use tunnara.Entity.Sql.{
  update_sql, insert_sql, get_sql, audit_sql, sync_sql, delete_sql, last_insert_id_sql,
}
use tunnara.Entity.{
  Provider, definition_of, provider_get_with_database, provider_insert_audit, provider_enqueue_sync,
  report, insert_row, write_row, save_row, check_required, provider_save_with_database,
  report_deletion, provider_delete_with_database, row_id,
}

-- All that is sent for an entity, whatever the values are.
abbrev pub statements : DatabaseDriver → EntityDefinition → List String
statements driver definition =
    update_sql driver definition
    ∷ insert_sql driver definition
    ∷ last_insert_id_sql driver
    ∷ get_sql driver definition
    ∷ audit_sql driver
    ∷ sync_sql driver
    ∷ delete_sql driver definition
    ∷ []

-- `I` is kept by the clock and by those texts, with whatever parameters.
pub record Kept {E : Type 0} (provider : Provider E) (definition : EntityDefinition)
    (I : E → Type 0) : Type 0 where
  pub executes :
      (sql : String) (params : List DbValue) (e : E)
      → Memᴰ sql (statements provider.driver definition)
      → I e
      → I (provider.execute sql params e).1
  pub queries :
      (sql : String) (params : List DbValue) (e : E)
      → Memᴰ sql (statements provider.driver definition)
      → I e
      → I (provider.query_one sql params e).1
  pub clock : (e : E) → I e → I (provider.now e).1

module _ {E : Type 0} (provider : Provider E) (definition : EntityDefinition) (I : E → Type 0)
    (kept : Kept provider definition I) where
  execute-Yields :
      (sql : String) (params : List DbValue)
      → Memᴰ sql (statements provider.driver definition)
      → Yields I Always (call (provider.execute sql params))
  execute-Yields sql params m =
      Yields-call (provider.execute sql params) (λ e h. kept.executes sql params e m h)

  query-Yields :
      (sql : String) (params : List DbValue)
      → Memᴰ sql (statements provider.driver definition)
      → Yields I Always (call (provider.query_one sql params))
  query-Yields sql params m =
      Yields-call (provider.query_one sql params) (λ e h. kept.queries sql params e m h)

  lift-Yields : {A : Type 0} (r : Result A) → Yields I Always (lift r)
  lift-Yields (ok a) = Yields-done a
  lift-Yields (err m) = Yields-raise m

  report-Yields :
      (entity action : String) (id : Option ℤ) (payload : Value) (now : String)
      → Yields I Always (report provider entity action id payload now)
  unfolding report provider_insert_audit provider_enqueue_sync
  report-Yields entity action id payload now =
      let audited = Memᴰ.tail (Memᴰ.tail (Memᴰ.tail (Memᴰ.tail (Memᴰ.head refl)))) in
      let queued = Memᴰ.tail (Memᴰ.tail (Memᴰ.tail (Memᴰ.tail (Memᴰ.tail (Memᴰ.head refl))))) in
      Yields-then _ _
        (Yields-then _ _ (execute-Yields (audit_sql provider.driver) _ audited)
          (λ _. Yields-done tt))
        (λ _.
          Yields-then _ _ (execute-Yields (sync_sql provider.driver) _ queued)
            (λ _. Yields-done tt))

  insert_row-Yields :
      (values : List DbValue) → Yields I Always (insert_row provider definition values)
  unfolding insert_row
  insert_row-Yields values = choose (is_postgres provider.driver)
    where
      second : Memᴰ (insert_sql provider.driver definition) (statements provider.driver definition)
      second = Memᴰ.tail (Memᴰ.head refl)

      third : Memᴰ (last_insert_id_sql provider.driver) (statements provider.driver definition)
      third = Memᴰ.tail (Memᴰ.tail (Memᴰ.head refl))

      choose :
          (b : Bool)
          → Yields I Always (
              if b
              then (call (provider.query_one (insert_sql provider.driver definition) values)
                  >>= λ row. lift (row_id row "Falha ao obter id retornado pelo PostgreSQL."))
              else call (provider.execute (insert_sql provider.driver definition) values)
                >> (call (provider.query_one (last_insert_id_sql provider.driver) []) >>= λ row.
                    lift (row_id row "Falha ao obter último id inserido pelo provider.")))
      choose true = Yields-then _ _ (query-Yields _ values second) (λ row. lift-Yields _)
      choose false =
          Yields-then _ _ (execute-Yields _ values second)
            (λ _. Yields-then _ _ (query-Yields _ [] third) (λ row. lift-Yields _))

  write_row-Yields :
      (id : Option ℤ) (values : List DbValue) (now : String)
      → Yields I Always (write_row provider definition id values now)
  unfolding write_row
  write_row-Yields (some i) values now =
      Yields-then _ _ (execute-Yields (update_sql provider.driver definition) _ (Memᴰ.head refl))
        (λ _. Yields-done i)
  write_row-Yields none values now = insert_row-Yields _

  now-Yields : Yields I Always (ask provider.now)
  now-Yields = Yields-ask provider.now (λ e h. (kept.clock e h, tt))

  module _ (entity : String) (known : entity_definition entity ≡ some definition) where
    definition_of-Yields : Yields I (λ d. d ≡ definition) (definition_of provider entity)
    unfolding definition_of
    definition_of-Yields = rw known (Yields-pure definition refl)

    get-Yields : (id : ℤ) → Yields I Always (provider_get_with_database provider entity id)
    unfolding provider_get_with_database
    get-Yields id = Yields-bind _ _ definition_of-Yields (λ d same.
        query-Yields (get_sql provider.driver d) _
          (rw same (Memᴰ.tail (Memᴰ.tail (Memᴰ.tail (Memᴰ.head refl))))))

    save_row-Yields :
        (payload : Fields) (now : String)
        → Yields I Always (save_row provider definition entity payload now)
    unfolding save_row
    save_row-Yields payload now =
        search (yields_rules, write_row-Yields, get-Yields, lift-Yields, report-Yields)

    save-Yields :
        (payload : Fields) → Yields I Always (provider_save_with_database provider entity payload)
    unfolding provider_save_with_database
    save-Yields payload =
        let rest : EntityDefinition → Exec E Fields = λ d. ask provider.now >>= λ now.
        lift (check_required payload d.required) >> save_row provider d entity payload now in
        let saved : Yields I Always (rest definition) =
          search (yields_rules, now-Yields, lift-Yields, save_row-Yields) in
        Yields-bind (definition_of provider entity) rest definition_of-Yields
          (λ d same. subst (λ d. Yields I Always (rest d)) (sym same) saved)

    deletion-Yields : (id : ℤ) → Yields I Always (report_deletion provider entity id)
    unfolding report_deletion
    deletion-Yields id = search (yields_rules, now-Yields, report-Yields)

    delete-Yields : (id : ℤ) → Yields I Always (provider_delete_with_database provider entity id)
    unfolding provider_delete_with_database
    delete-Yields id = Yields-bind _ _ definition_of-Yields (λ d same.
        Yields-then _ _
          (execute-Yields (delete_sql provider.driver d) _ (
            rw same (
              Memᴰ.tail
                (Memᴰ.tail (Memᴰ.tail (Memᴰ.tail (Memᴰ.tail (Memᴰ.tail (Memᴰ.head refl)))))))))
          (λ n. Yields-then _ _ (reported (ltb 0 n)) (λ _. Yields-done (ltb 0 n))))
      where
        reported :
            (b : Bool) → Yields I Always (if b then report_deletion provider entity id else pure tt)
        reported false = Yields-done tt
        reported true = deletion-Yields id

module _ {E : Type 0} (provider : Provider E) (I : E → Type 0) (entity : String)
    (kept : (definition : EntityDefinition)
      → entity_definition entity ≡ some definition
      → Kept provider definition I)
    (s : State E) (holds : I s.env) where
  save_confined :
      (payload : Fields) → I (provider_save_with_database provider entity payload s).1.env
  unfolding provider_save_with_database
  save_confined payload = elim (Option-cases (entity_definition entity)) [
    | inl unknown ↦ rw unknown holds
    | inr (definition, known) ↦
        ((save-Yields provider definition I (kept definition known) entity known payload).at s
          holds).0
  ]

  delete_confined : (id : ℤ) → I (provider_delete_with_database provider entity id s).1.env
  unfolding provider_delete_with_database
  delete_confined id = elim (Option-cases (entity_definition entity)) [
    | inl unknown ↦ rw unknown holds
    | inr (definition, known) ↦
        ((delete-Yields provider definition I (kept definition known) entity known id).at s holds).0
  ]

  -- Whatever the payload and the number are and however it ends, a save or a removal keeps what
  -- the clock and the seven texts of SQL of the entity's definition and the driver keep with any
  -- parameters; and for a name that is no entity it keeps everything. So no text of SQL that they
  -- send has anything of the payload in it.
  pub provider_writes_confined :
      (payload : Fields) (id : ℤ)
      → I (provider_save_with_database provider entity payload s).1.env
        × I (provider_delete_with_database provider entity id s).1.env
  provider_writes_confined payload id = (save_confined payload, delete_confined id)
