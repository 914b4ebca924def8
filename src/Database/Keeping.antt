-- ===== src/Database/Keeping.antt =====
-- What the connection and the logs keep (Database.antt).
use tunnara.Prelude.{◌≡◌, refl, ap, sym, ◌∙◌, Option, String, List, [], ◌∷◌, ◌++◌}
use tunnara.Prelude.Int.{ℤ}
use tunnara.Value.{Value}
use tunnara.Database.Tables.{Database, Entry, AppLog}
use tunnara.Database.Command.{Result, ok, ask, ◌>>=◌, update, Engine, State, Exec, now_rfc3339}
use tunnara.Database.Command.Rules.{Stable, stable_rules, bind-eq_ok, ask-eq_ok, update-eq_ok}
use tunnara.Database.{open_connection, enqueue_sync, write_audit, write_app_log}

-- `P` does not look at the logs.
pub record Unlogged (P : Database → Type 0) : Type 0 where
  pub audit : (db : Database) (l : List Entry) → P db → P (record db { audit_logs = l })
  pub sync : (db : Database) (l : List Entry) → P db → P (record db { sync_queue = l })
  pub app : (db : Database) (l : List AppLog) → P db → P (record db { app_logs = l })

-- The tables but for the logs.
abbrev pub unlogged : Database → Database
unlogged db = record db { audit_logs = []; sync_queue = []; app_logs = [] }

abbrev pub unlogged-Unlogged : (d : Database) → Unlogged (λ db. unlogged db ≡ unlogged d)
unlogged-Unlogged d = record { audit = λ db l h. h; sync = λ db l h. h; app = λ db l h. h }

-- The tables but for the logs and the sessions.
abbrev pub accounts : Database → Database
accounts db = record (unlogged db) { sessions = [] }

abbrev pub accounts-Unlogged : (d : Database) → Unlogged (λ db. accounts db ≡ accounts d)
accounts-Unlogged d = record { audit = λ db l h. h; sync = λ db l h. h; app = λ db l h. h }

-- What a command that keeps `F` leaves of it.
pub Stable-eq :
    {E A B : Type 0} (F : Database → B) (m : Exec E A) (s s' : State E) (r : Result A)
    → Stable (λ d. F d ≡ F s.db) m
    → m s ≡ (r, s')
    → F s'.db ≡ F s.db
Stable-eq {E} {A} F m s s' r k h = sym (ap (λ (x : Result A × State E). F x.1.db) h) ∙ k.at s refl

module _ {E : Type 0} (engine : Engine E) {P : Database → Type 0} where
  pub open_connection-Stable : Stable P (open_connection engine)
  unfolding open_connection
  open_connection-Stable = search stable_rules

  pub now_rfc3339-Stable : Stable P (now_rfc3339 engine)
  now_rfc3339-Stable = search stable_rules

  module _ (u : Unlogged P) where
    pub write_audit-Stable :
        (name action : String) (id : Option ℤ) (v : Value)
        → Stable P (write_audit engine name action id v)
    unfolding write_audit
    write_audit-Stable name action id v = search (stable_rules, u.audit)

    pub enqueue_sync-Stable :
        (name action : String) (id : Option ℤ) (v : Value)
        → Stable P (enqueue_sync engine name action id v)
    unfolding enqueue_sync
    enqueue_sync-Stable name action id v = search (stable_rules, u.sync)

    pub write_app_log-Stable :
        (route : Option String) (level category message : String) (details : Option Value)
        → Stable P (write_app_log engine route level category message details)
    unfolding write_app_log
    write_app_log-Stable route level category message details =
        search (stable_rules, now_rfc3339-Stable, u.app)

abbrev pub entry_of : String → String → Option ℤ → Value → String → Entry
entry_of name action id v time = record {
  entity_name = name;
  action_name = action;
  record_id = id;
  payload_json = v;
  created_at = time;
}

module _ {E : Type 0} (engine : Engine E) where
  stamped-eq_ok :
      (context : String) (add : String → Database → Database) (s s' : State E) (u : Unit {0})
      → (ask engine.datetime_now >>= λ now. update engine context (add now)) s ≡ (ok u, s')
      → (time : String) × (s'.db ≡ add time s.db)
  stamped-eq_ok context add s s' u h =
      let (time, s₁, h₁, k₁) =
        bind-eq_ok (ask engine.datetime_now) (λ now. update engine context (add now)) s u s' h in
      let (_, same) = ask-eq_ok engine engine.datetime_now s s₁ time h₁ in
      (time, update-eq_ok engine context (add time) s₁ s' u k₁ ∙ ap (add time) same)

-- What a report that ended well added to its log.
module _ {E : Type 0} (engine : Engine E) (name action : String) (id : Option ℤ) (v : Value)
    (s s' : State E) (u : Unit {0}) where
  pub write_audit-eq_ok :
      write_audit engine name action id v s ≡ (ok u, s')
      → (time : String) × (s'.db
          ≡ record s.db { audit_logs = s.db.audit_logs ++ (entry_of name action id v time ∷ []) })
  unfolding write_audit
  write_audit-eq_ok h =
      stamped-eq_ok engine "Falha ao gravar auditoria: "
        (λ time db. record db {
          audit_logs = db.audit_logs ++ (entry_of name action id v time ∷ []);
        })
        s s' u h

  pub enqueue_sync-eq_ok :
      enqueue_sync engine name action id v s ≡ (ok u, s')
      → (time : String) × (s'.db
          ≡ record s.db { sync_queue = s.db.sync_queue ++ (entry_of name action id v time ∷ []) })
  unfolding enqueue_sync
  enqueue_sync-eq_ok h =
      stamped-eq_ok engine "Falha ao enfileirar sincronização: "
        (λ time db. record db {
          sync_queue = db.sync_queue ++ (entry_of name action id v time ∷ []);
        })
        s s' u h
