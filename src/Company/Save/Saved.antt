-- ===== src/Company/Save/Saved.antt =====
-- What `company_save` did where it ends well (Company/Save.antt).
use tunnara.Prelude.{
  ◌≡◌, refl, ap, sym, ◌∙◌, suc, true, false, not, ◌||◌, ◌&&◌, Bool-cases, inl, inr, Option, none,
  some, String, [], ◌∷◌, ◌++◌, find, unwrap_or, code, ◌==◌, str_eq, eq_iff, arith,
}
use tunnara.Prelude.Members.{Memᴰ, not_any}
use tunnara.Prelude.Text.{filter_chars}
use tunnara.Access.Statements.{another}
use tunnara.Company.Save.Rows.{
  Written, columns, fields_of, company_fields-columns, entry, entry_of-entry, reported_in,
  rewritten,
}
use mathlib.Core.Path.{subst}
use tunnara.Prelude.Int.{ℤ, pos, eqb_ℤ, eqb_ℤ-eq}
use tunnara.Value.{Fields, object}
use tunnara.Database.Tables.{Database, Company}
use tunnara.Database.Command.{Result, ok, Engine, State, pure, lift, query, execute}
use tunnara.Database.Command.Rules.{
  bind-eq_ok, lift-eq_ok, query-eq_ok, execute-eq_ok, pure-eq_ok, fst_ok, snd_ok,
}
use tunnara.Database.{write_audit}
use tunnara.Database.Keeping.{write_audit-eq_ok, enqueue_sync-eq_ok}
use tunnara.Access.Policy.{connect, ok_or}
use tunnara.Access.Policy.Master.{connect-db}
use tunnara.Access.Save.{refuse_if}
use tunnara.Access.Save.Checks.{refuse_if-eq_ok}
use tunnara.Company.Payload.{CompanyInput, get_id, company_input}
use tunnara.Company.Save.{
  stored_key, company_fields, company_by_id, update_company, insert_company, company_action,
  document_taken, read_company, write_input, report_company, company_save, store_company,
  store_unless_taken,
}

module _ {E : Type 0} (engine : Engine E) where
  -- `db` had no other company with the input's document, and `db'` has what the input says.
  pub record Saved (id : Option ℤ) (input : CompanyInput) (db db' : Database) (r : Fields)
      : Type 0 where
    pub now : String
    pub rid : ℤ
    pub between : Database
    pub time : (e : E) × (now ≡ engine.to_rfc3339 (engine.utc_now e).0)
    pub free :
        (c : Company)
        → Memᴰ c db.companies
        → engine.sql_upper (
            filter_chars
              (λ k. not (code k == b'.' || code k == b'-' || code k == b'/'))
              (unwrap_or c.documento ""))
          ≡ input.documento
        → id ≡ some c.id
    pub written : Written id input now db rid between
    pub row : Company
    pub found : find (λ c. eqb_ℤ c.id rid) between.companies ≡ some row
    pub answer : r ≡ fields_of (columns row)
    pub audit_time : String
    pub sync_time : String
    pub reported : db' ≡ reported_in id rid r audit_time sync_time between

  -- No company but that of the payload's number has the document.
  not_taken :
      (documento : String) (id : Option ℤ) (db : Database) (c : Company)
      → document_taken engine documento id db ≡ false
      → Memᴰ c db.companies
      → stored_key engine c.documento ≡ documento
      → id ≡ some c.id
  not_taken documento none db c h m e =
      let k =
        not_any (λ c. str_eq (stored_key engine c.documento) documento && another none c.id)
          db.companies c h m in
      let q = eq_iff (stored_key engine c.documento) documento in absurd (ground arith)
  not_taken documento (some i) db c h m e =
      let k =
        not_any (λ c. str_eq (stored_key engine c.documento) documento && another (some i) c.id)
          db.companies c h m in
      let q = eq_iff (stored_key engine c.documento) documento in
      let same : eqb_ℤ c.id i ≡ true = elim (Bool-cases (eqb_ℤ c.id i)) [
        | inl p ↦ p
        | inr p ↦ absurd (ground arith)
      ] in
      ap some (sym (eqb_ℤ-eq c.id i same))

  ok_or-eq_ok : {A : Type 0} (m : String) (o : Option A) (a : A) → ok_or m o ≡ ok a → o ≡ some a
  ok_or-eq_ok m none a h = cc
  ok_or-eq_ok m (some b) a h = cc

  read_company-eq_ok :
      (context absent : String) (i : ℤ) (s s' : State E) (r : Fields)
      → read_company engine context absent i s ≡ (ok r, s')
      → (c : Company) × (company_by_id i s.db ≡ some c) × (r ≡ company_fields c) × (s'.db ≡ s.db)
  read_company-eq_ok context absent i s s' r h =
      let (row, s₁, h₁, k₁) = bind-eq_ok (query engine context (company_by_id i)) _ s r s' h in
      let (e, same) = query-eq_ok engine context (company_by_id i) s s₁ row h₁ in
      let (c, s₂, h₂, k₂) =
        bind-eq_ok (lift (ok_or absent row)) (λ c. pure (company_fields c)) s₁ r s' k₁ in
      let (f, same') = lift-eq_ok (ok_or absent row) c s₁ s₂ h₂ in
      let (g, same'') = pure-eq_ok (company_fields c) r s₂ s' k₂ in
      (
        c,
        sym e ∙ ok_or-eq_ok absent row c f,
        sym g,
        sym (ap (λ (t : State E). t.db) same'') ∙ sym (ap (λ (t : State E). t.db) same') ∙ same,
      )

  write_input-Written :
      (id : Option ℤ) (input : CompanyInput) (now : String) (s s' : State E) (rid : ℤ)
      → write_input engine id input now s ≡ (ok rid, s')
      → Written id input now s.db rid s'.db
  unfolding write_input
  write_input-Written (some i) input now s s' rid h =
      let (u, s₁, h₁, k₁) =
        bind-eq_ok
          (execute engine "Falha ao atualizar empresa: "
            (λ db. ok (tt {0}, update_company i input now db)))
          (λ _. pure i) s rid s' h in
      let d = execute-eq_ok engine _ (λ db. ok (tt {0}, update_company i input now db)) s s₁ u h₁ in
      let (e, same) = pure-eq_ok i rid s₁ s' k₁ in
      (
        sym e,
        sym (ap (λ (t : State E). t.db) same) ∙ sym (snd_ok d) ∙ λ t. record s.db {
          companies = rewritten i input now s.db.companies t;
        },
      )
  write_input-Written none input now s s' rid h =
      let d =
        execute-eq_ok engine "Falha ao inserir empresa: "
          (λ db. ok (pos (suc db.last_company), insert_company input now db)) s s' rid h in
      (sym (fst_ok d), sym (snd_ok d))

  report_company-eq_ok :
      (id : Option ℤ) (rid : ℤ) (r : Fields) (s s' : State E) (u : Unit {0})
      → report_company engine id rid r s ≡ (ok u, s')
      → (audit sync : String) × (s'.db ≡ reported_in id rid r audit sync s.db)
  unfolding report_company
  report_company-eq_ok id rid r s s' u h =
      let (v, s₁, h₁, k₁) =
        bind-eq_ok (write_audit engine "empresas" (company_action id) (some rid) (object r)) _ s u
          s' h in
      let (audit, d₁) =
        write_audit-eq_ok engine "empresas" (company_action id) (some rid) (object r) s s₁ v h₁ in
      let (sync, d₂) =
        enqueue_sync-eq_ok engine "empresas" (company_action id) (some rid) (object r) s₁ s' u k₁ in
      (
        audit,
        sync,
        d₂
            ∙ (λ t. record (d₁ t) {
              sync_queue = (d₁ t).sync_queue ++ (entry_of-entry id rid r sync t ∷ []);
            })
            ∙ (λ t. record s.db {
              audit_logs = s.db.audit_logs ++ (entry_of-entry id rid r audit t ∷ []);
              sync_queue = s.db.sync_queue ++ (entry id rid r sync ∷ []);
            }),
      )

  -- What follows the checks of `company_save`, from tables that passed them.
  store-eq_ok :
      (id : Option ℤ) (input : CompanyInput) (now : String) (db : Database) (s s' : State E)
      (r : Fields)
      → ((e : E) × (now ≡ engine.to_rfc3339 (engine.utc_now e).0))
      → document_taken engine input.documento id db ≡ false
      → s.db ≡ db
      → store_company engine id input now s ≡ (ok r, s')
      → Saved id input db s'.db r
  unfolding store_company
  store-eq_ok id input now db s s' r time free e h =
      let (rid, s₁, h₁, k₁) = bind-eq_ok (write_input engine id input now) _ s r s' h in
      let written = write_input-Written id input now s s₁ rid h₁ in
      let (saved, s₂, h₂, k₂) =
        bind-eq_ok
          (read_company engine "Falha ao reler empresa salva: " "Empresa salva não encontrada." rid)
          _ s₁ r s' k₁ in
      let (row, found, answer, e₂) = read_company-eq_ok _ _ rid s₁ s₂ saved h₂ in
      let (u, s₃, h₃, k₃) =
        bind-eq_ok (report_company engine id rid saved) (λ _. pure saved) s₂ r s' k₂ in
      let (audit, sync, reported) = report_company-eq_ok id rid saved s₂ s₃ u h₃ in
      let (same, e₃) = pure-eq_ok saved r s₃ s' k₃ in
      record {
        now = now;
        time = time;
        rid = rid;
        between = s₁.db;
        free = λ c m e. not_taken input.documento id db c free m e;
        written = subst (λ db. Written id input now db rid s₁.db) e written;
        row = row;
        found = found;
        answer = sym same ∙ answer ∙ company_fields-columns row;
        audit_time = audit;
        sync_time = sync;
        reported =
            sym (ap (λ (t : State E). t.db) e₃)
            ∙ reported
            ∙ ap (reported_in id rid saved audit sync) e₂
            ∙ ap (λ f. reported_in id rid f audit sync s₁.db) same;
      }

  -- A save that ends well read a valid input whose document no company had, by capitals and
  -- without its dots, dashes and slashes, but that of the payload's number. The tables are then
  -- those before but for the input's columns, written into the company of the payload's number only or into a new one with the next
  -- number, at a time that the clock showed, and one entry in the audit log and one in the queue of
  -- synchronisation, each with the company's number, the action and the answer; and the answer has
  -- the columns of the company as it was written.
  pub company_save-Saved :
      (payload r : Fields) (s s' : State E)
      → company_save engine payload s ≡ (ok r, s')
      → (input : CompanyInput) × (company_input engine.to_uppercase payload ≡ ok input)
        × Saved (get_id payload) input s.db s'.db r
  unfolding company_save store_unless_taken
  company_save-Saved payload r s s' h =
      let id = get_id payload in
      let (_, s₁, h₁, k₁) = bind-eq_ok (connect engine) _ s r s' h in
      let e₁ : s₁.db ≡ s.db =
        sym (ap (λ (x : Result (Unit {0}) × State E). x.1.db) h₁) ∙ connect-db engine s in
      let now = engine.to_rfc3339 (engine.utc_now s₁.env).0 in
      let s₂ : State E = record { db = s₁.db; env = (engine.utc_now s₁.env).1 } in
      let (input, s₃, h₃, k₃) =
        bind-eq_ok (lift (company_input engine.to_uppercase payload)) _ s₂ r s' k₁ in
      let (read, same) = lift-eq_ok (company_input engine.to_uppercase payload) input s₂ s₃ h₃ in
      let e₃ : s₃.db ≡ s.db = sym (ap (λ (t : State E). t.db) same) ∙ e₁ in
      let taken = document_taken engine input.documento id in
      let (duplicate, s₄, h₄, k₄) =
        bind-eq_ok (query engine "Falha ao validar documento da empresa: " taken) _ s₃ r s' k₃ in
      let (look, d₄) = query-eq_ok engine _ taken s₃ s₄ duplicate h₄ in
      let (_, s₅, h₅, k₅) = bind-eq_ok (refuse_if duplicate _) _ s₄ r s' k₄ in
      let (free, d₅) = refuse_if-eq_ok engine duplicate _ s₄ s₅ _ h₅ in
      let e₅ : s₅.db ≡ s.db = d₅ ∙ d₄ ∙ e₃ in
      (
        input,
        read,
        store-eq_ok id input now s.db s₅ s' r (s₁.env, refl) (sym (look ∙ ap taken e₃) ∙ free) e₅
            k₅,
      )
