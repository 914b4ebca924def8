-- ===== src/Company/Save/Distinct.antt =====
-- The documents of the companies stay distinct (Company/Save.antt).
use tunnara.Prelude.{
  ◌≡◌, ap, sym, ◌∙◌, suc, Bool, true, false, not, Option, none, some, String, if◌then◌else◌,
}
use mathlib.Core.Path.{subst}
use tunnara.Prelude.Int.{ℤ, pos}
use tunnara.Value.{Fields}
use tunnara.Database.Tables.{Database}
use tunnara.Database.Command.{
  Result, ok, err, Engine, State, Exec, pure, raise, lift, ◌>>=◌, now_rfc3339, query, execute,
}
use tunnara.Database.Command.Rules.{
  Stable, Stable-bind, Stable-query, Stable-lift, Stable-pure, bind_at, execute_at, lift-eq_ok,
  query-eq_ok, snd_ok, Stable-if, Stable-raise,
}
use tunnara.Database.Keeping.{Unlogged, write_audit-Stable, enqueue_sync-Stable, now_rfc3339-Stable}
use tunnara.Access.Policy.{connect}
use tunnara.Access.Policy.Master.{connect-Stable}
use tunnara.Access.Save.{refuse_if}
use tunnara.Access.Save.Checks.{refuse_if-eq_ok}
use tunnara.Company.Document.{normalize_document_key, normalize_upper_uf, validate_company_document}
use tunnara.Company.Payload.{
  CompanyInput, get_id, company_input, checked, from_texts, get_string, bad_uf, bad_email, filled,
}
use tunnara.Company.Save.{
  company_by_id, update_company, insert_company, stored_key, document_taken, read_company,
  write_input, report_company, store_company, store_unless_taken, company_save,
}
use tunnara.Company.Save.Placing.{
  Distinct, KeysAgree, Distinct-Placed, update_company-Placed, insert_company-Placed,
}

abbrev documento_of : Result CompanyInput → String
documento_of (ok input) = input.documento
documento_of (err m) = ""

module _ {E : Type 0} (engine : Engine E) where
  write_input-Distinct :
      (id : Option ℤ) (input : CompanyInput) (now : String) (s : State E)
      → stored_key engine (some input.documento) ≡ input.documento
      → document_taken engine input.documento id s.db ≡ false
      → Distinct engine s.db
      → Distinct engine (write_input engine id input now s).1.db
  unfolding write_input
  write_input-Distinct (some i) input now s own free h =
      let body : Database → Result (Unit {0} × Database) =
        λ db. ok (tt, update_company i input now db) in
      bind_at (execute engine "Falha ao atualizar empresa: " body) (λ _. pure i) s (Distinct engine)
        (execute_at engine _ body s h (λ _ db' e. subst (Distinct engine) (snd_ok e) (
          Distinct-Placed engine (some i) i input.documento s.db (update_company i input now s.db)
            own free (update_company-Placed engine i input now s.db) h)))
        (λ _ s' _ k. k)
  write_input-Distinct none input now s own free h =
      execute_at engine _ (λ db. ok (pos (suc db.last_company), insert_company input now db)) s h
        (λ _ db' e. subst (Distinct engine) (snd_ok e) (
          Distinct-Placed engine none (pos (suc s.db.last_company)) input.documento s.db
            (insert_company input now s.db) own free (insert_company-Placed engine input now s.db)
            h))

  Distinct-Unlogged : Unlogged (Distinct engine)
  Distinct-Unlogged = record { audit = λ db l h. h; sync = λ db l h. h; app = λ db l h. h }

  read_company-Stable :
      (context absent : String) (i : ℤ)
      → Stable (Distinct engine) (read_company engine context absent i)
  read_company-Stable context absent i =
      Stable-bind (query engine context (company_by_id i)) _ (Stable-query engine _ _)
        (λ row. Stable-bind (lift _) _ (Stable-lift _) (λ c. Stable-pure _))

  report_company-Stable :
      (id : Option ℤ) (rid : ℤ) (r : Fields)
      → Stable (Distinct engine) (report_company engine id rid r)
  unfolding report_company
  report_company-Stable id rid r =
      Stable-bind _ _ (write_audit-Stable engine Distinct-Unlogged "empresas" _ _ _)
        (λ _. enqueue_sync-Stable engine Distinct-Unlogged "empresas" _ _ _)

  store_company-Distinct :
      (id : Option ℤ) (input : CompanyInput) (now : String) (s : State E)
      → stored_key engine (some input.documento) ≡ input.documento
      → document_taken engine input.documento id s.db ≡ false
      → Distinct engine s.db
      → Distinct engine (store_company engine id input now s).1.db
  unfolding store_company
  store_company-Distinct id input now s own free h =
      bind_at (write_input engine id input now) _ s (Distinct engine)
        (write_input-Distinct id input now s own free h)
        λ rid s₁ _ h₁.
          (Stable-bind (read_company engine _ _ rid) _ (read_company-Stable _ _ rid) (λ saved.
              Stable-bind (report_company engine id rid saved) _
                (report_company-Stable id rid saved) (λ _. Stable-pure saved))).at
            s₁ h₁

  store_unless_taken-Distinct :
      (id : Option ℤ) (input : CompanyInput) (now : String) (s : State E)
      → stored_key engine (some input.documento) ≡ input.documento
      → Distinct engine s.db
      → Distinct engine (store_unless_taken engine id input now s).1.db
  unfolding store_unless_taken
  store_unless_taken-Distinct id input now s own h =
      let taken = document_taken engine input.documento id in
      bind_at (query engine "Falha ao validar documento da empresa: " taken) _ s (Distinct engine)
        ((Stable-query engine {P = Distinct engine} _ taken).at s h)
        λ duplicate s₁ e h₁.
          let (look, same) = query-eq_ok engine _ taken s s₁ duplicate e in
          let refusal : String = "Já existe uma empresa usuária com este documento." in
          bind_at (refuse_if duplicate refusal) _ s₁ (Distinct engine)
            ((Stable-if {P = Distinct engine} duplicate (raise refusal) (pure tt)
                (λ _. Stable-raise refusal) (λ _. Stable-pure tt)).at
              s₁ h₁)
            λ _ s₂ f h₂.
              let (free, same') = refuse_if-eq_ok engine duplicate _ s₁ s₂ _ f in
              store_company-Distinct id input now s₂ own (ap taken (same' ∙ same) ∙ sym look ∙ free)
                h₂

  err_ok : {A : Type 0} {m : String} {a : A} → ◌≡◌ {A = Result A} (err m) (ok a) → ⊥
  err_ok h = cc

  unless_ok :
      {A : Type 0} (b : Bool) (m : String) (r : Result A) (a : A)
      → (if b then err m else r) ≡ ok a
      → r ≡ ok a
  unless_ok true m r a h = cc
  unless_ok false m r a h = h

  checked-documento :
      (up : String → String) (payload : Fields) (nome raw : String) (input : CompanyInput)
      → checked up payload nome raw ≡ ok input
      → input.documento ≡ normalize_document_key up raw
  unfolding checked filled
  checked-documento up payload nome raw input h =
      let documento = normalize_document_key up raw in
      let email = get_string payload "email" in
      let estado = normalize_upper_uf up (get_string payload "estado") in
      let r₃ : Result CompanyInput = ok (filled up payload nome documento email estado) in
      let r₂ = if bad_uf estado then err "UF da empresa deve conter 2 caracteres." else r₃ in
      let r₁ = if bad_email email then err "E-mail da empresa é inválido." else r₂ in
      sym (
        ap documento_of (
          unless_ok (bad_uf estado) _ r₃ input (
            unless_ok (bad_email email) _ r₂ input
              (unless_ok (not (validate_company_document up documento)) _ r₁ input h))))

  -- A valid input has the payload's document, normalized.
  from_texts-documento :
      (up : String → String) (payload : Fields) (nome documento : Option String)
      (input : CompanyInput)
      → from_texts up payload nome documento ≡ ok input
      → (value : String) × (input.documento ≡ normalize_document_key up value)
  from_texts-documento up payload none documento input h = elim (err_ok h) [ ]
  from_texts-documento up payload (some nome) none input h = elim (err_ok h) [ ]
  from_texts-documento up payload (some nome) (some raw) input h =
      (raw, checked-documento up payload nome raw input h)

  company_input-documento :
      (up : String → String) (payload : Fields) (input : CompanyInput)
      → company_input up payload ≡ ok input
      → (value : String) × (input.documento ≡ normalize_document_key up value)
  unfolding company_input
  company_input-documento up payload input h = from_texts-documento up payload _ _ input h

  -- Whatever it comes to, also where it fails midway, a save leaves companies of different
  -- numbers with different documents, but for companies without one, where they were so before,
  -- provided that the engine's `UPPER` leaves the letters and digits of a document in Rust's
  -- upper case as they are.
  pub company_save-Distinct :
      (payload : Fields) (s : State E)
      → KeysAgree engine
      → Distinct engine s.db
      → Distinct engine (company_save engine payload s).1.db
  unfolding company_save
  company_save-Distinct payload s keys h =
      let id = get_id payload in
      let store : String → CompanyInput → Exec E Fields =
        λ now input. store_unless_taken engine id input now in
      let checked_store : String → Exec E Fields =
        λ now. lift (company_input engine.to_uppercase payload) >>= store now in
      bind_at (connect engine) (λ _. now_rfc3339 engine >>= checked_store) s (Distinct engine)
        ((connect-Stable engine {P = Distinct engine}).at s h)
        λ _ s₁ _ h₁.
          bind_at (now_rfc3339 engine) checked_store s₁ (Distinct engine)
            ((now_rfc3339-Stable engine {P = Distinct engine}).at s₁ h₁)
            λ now s₂ _ h₂.
              bind_at (lift (company_input engine.to_uppercase payload)) (store now) s₂
                (Distinct engine) h₂
                λ input s₃ e h₃.
                  let (read, _) =
                    lift-eq_ok (company_input engine.to_uppercase payload) input s₂ s₃ e in
                  let (value, d) = company_input-documento engine.to_uppercase payload input read in
                  let own : stored_key engine (some input.documento) ≡ input.documento =
                    subst (λ t. stored_key engine (some t) ≡ t) (sym d) (keys value) in
                  store_unless_taken-Distinct id input now s₃ own h₃
