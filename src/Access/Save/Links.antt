-- ===== src/Access/Save/Links.antt =====
-- The links that `user_save` writes (Access/Save.antt).
use tunnara.Prelude.{
  ◌≡◌, ap, sym, ◌∙◌, Bool-cases, inl, inr, not, String, List, [], ◌∷◌, ◌++◌, map, filter, ◌&&◌, any,
  arith,
}
use mathlib.Core.List.{append_assoc, append-nil}
use tunnara.Prelude.Int.{ℤ, eqb_ℤ}
use tunnara.Database.Tables.{Database, UserProfile, UserCompany}
use tunnara.Database.Command.{ok, Engine, State, Exec, for_each, execute, update}
use tunnara.Database.Command.Rules.{bind-eq_ok, update-eq_ok, execute-eq_ok, pure-eq_ok}
use tunnara.Access.Rows.{has_user, has_profile, has_company}
use tunnara.Access.Statements.{link_profile, link_company}
use tunnara.Access.Users.{UserInput}
use tunnara.Access.Save.{write_links}

-- The links of a user that the loops append.
abbrev pub profile_links : ℤ → String → List ℤ → List UserProfile
profile_links rid now = map (λ p. record { usuario_id = rid; perfil_id = p; created_at = now })

abbrev pub company_links : ℤ → String → List ℤ → List UserCompany
company_links rid now = map (λ c. record { usuario_id = rid; empresa_id = c; created_at = now })

-- The tables with the links of the input in place of those that the user had.
abbrev pub relinked : ℤ → UserInput → String → Database → Database
relinked rid input now db = record db {
  user_profiles =
      filter (λ l. not (eqb_ℤ l.usuario_id rid)) db.user_profiles
      ++ profile_links rid now input.profile_ids;
  user_companies =
      filter (λ l. not (eqb_ℤ l.usuario_id rid)) db.user_companies
      ++ company_links rid now input.empresa_ids;
}

link_profile-eq_ok :
    (l : UserProfile) (db db' : Database) (u : Unit {0})
    → link_profile l db ≡ ok (u, db')
    → db' ≡ record db { user_profiles = db.user_profiles ++ (l ∷ []) }
link_profile-eq_ok l db db' u h =
    elim (Bool-cases (
      any (λ k. eqb_ℤ k.usuario_id l.usuario_id && eqb_ℤ k.perfil_id l.perfil_id)
        db.user_profiles)) [
          | inl e ↦ ground arith
          | inr e ↦ elim (Bool-cases (has_user l.usuario_id db && has_profile l.perfil_id db)) [
            | inl k ↦ ground arith
            | inr k ↦ ground arith
          ]
        ]

link_company-eq_ok :
    (l : UserCompany) (db db' : Database) (u : Unit {0})
    → link_company l db ≡ ok (u, db')
    → db' ≡ record db { user_companies = db.user_companies ++ (l ∷ []) }
link_company-eq_ok l db db' u h =
    elim (Bool-cases (
      any (λ k. eqb_ℤ k.usuario_id l.usuario_id && eqb_ℤ k.empresa_id l.empresa_id)
        db.user_companies)) [
          | inl e ↦ ground arith
          | inr e ↦ elim (Bool-cases (has_user l.usuario_id db && has_company l.empresa_id db)) [
            | inl k ↦ ground arith
            | inr k ↦ ground arith
          ]
        ]

module _ {E : Type 0} (engine : Engine E) (rid : ℤ) (now : String) where
  abbrev add_profile : ℤ → Exec E (Unit {0})
  add_profile p =
      execute engine "Falha ao vincular perfil ao usuário: "
        (link_profile (record { usuario_id = rid; perfil_id = p; created_at = now }))

  abbrev add_company : ℤ → Exec E (Unit {0})
  add_company c =
      execute engine "Falha ao vincular empresa ao usuário: "
        (link_company (record { usuario_id = rid; empresa_id = c; created_at = now }))

  profiles_added :
      (ps : List ℤ) (s s' : State E) (u : Unit {0})
      → for_each ps add_profile s ≡ (ok u, s')
      → s'.db ≡ record s.db { user_profiles = s.db.user_profiles ++ profile_links rid now ps }
  profiles_added [] s s' u h =
      let (_, same) = pure-eq_ok tt u s s' h in
      sym (ap (λ (t : State E). t.db) same)
      ∙ ap (λ l. record s.db { user_profiles = l }) (sym (append-nil s.db.user_profiles))
  profiles_added (p ∷ ps) s s' u h =
      let l : UserProfile = record { usuario_id = rid; perfil_id = p; created_at = now } in
      let (v, s₁, h₁, k₁) = bind-eq_ok (add_profile p) (λ _. for_each ps add_profile) s u s' h in
      let d₁ =
        link_profile-eq_ok l s.db s₁.db v (execute-eq_ok engine _ (link_profile l) s s₁ v h₁) in
      profiles_added ps s₁ s' u k₁
      ∙ ap
          (λ (db : Database). record db {
            user_profiles = db.user_profiles ++ profile_links rid now ps;
          })
          d₁
      ∙ ap (λ t. record s.db { user_profiles = t })
          (append_assoc s.db.user_profiles (l ∷ []) (profile_links rid now ps))

  companies_added :
      (cs : List ℤ) (s s' : State E) (u : Unit {0})
      → for_each cs add_company s ≡ (ok u, s')
      → s'.db ≡ record s.db { user_companies = s.db.user_companies ++ company_links rid now cs }
  companies_added [] s s' u h =
      let (_, same) = pure-eq_ok tt u s s' h in
      sym (ap (λ (t : State E). t.db) same)
      ∙ ap (λ l. record s.db { user_companies = l }) (sym (append-nil s.db.user_companies))
  companies_added (c ∷ cs) s s' u h =
      let l : UserCompany = record { usuario_id = rid; empresa_id = c; created_at = now } in
      let (v, s₁, h₁, k₁) = bind-eq_ok (add_company c) (λ _. for_each cs add_company) s u s' h in
      let d₁ =
        link_company-eq_ok l s.db s₁.db v (execute-eq_ok engine _ (link_company l) s s₁ v h₁) in
      companies_added cs s₁ s' u k₁
      ∙ ap
          (λ (db : Database). record db {
            user_companies = db.user_companies ++ company_links rid now cs;
          })
          d₁
      ∙ ap (λ t. record s.db { user_companies = t })
          (append_assoc s.db.user_companies (l ∷ []) (company_links rid now cs))

  abbrev drop_profiles : Database → Database
  drop_profiles db = record db {
    user_profiles = filter (λ l. not (eqb_ℤ l.usuario_id rid)) db.user_profiles;
  }

  abbrev drop_companies : Database → Database
  drop_companies db = record db {
    user_companies = filter (λ l. not (eqb_ℤ l.usuario_id rid)) db.user_companies;
  }

  pub write_links-eq_ok :
      (input : UserInput) (s s' : State E) (u : Unit {0})
      → write_links engine rid input now s ≡ (ok u, s')
      → s'.db ≡ relinked rid input now s.db
  unfolding write_links
  write_links-eq_ok input s s' u h =
      let (_, s₁, h₁, k₁) =
        bind-eq_ok (update engine "Falha ao limpar perfis do usuário: " drop_profiles) _ s u s' h in
      let d₁ = update-eq_ok engine _ drop_profiles s s₁ _ h₁ in
      let (_, s₂, h₂, k₂) =
        bind-eq_ok (update engine "Falha ao limpar empresas do usuário: " drop_companies) _ s₁ u s'
          k₁ in
      let d₂ = update-eq_ok engine _ drop_companies s₁ s₂ _ h₂ in
      let (v, s₃, h₃, k₃) = bind-eq_ok (for_each input.profile_ids add_profile) _ s₂ u s' k₂ in
      let d₃ = profiles_added input.profile_ids s₂ s₃ v h₃ in
      let d₄ = companies_added input.empresa_ids s₃ s' u k₃ in
      let e : s₂.db ≡ drop_companies (drop_profiles s.db) = d₂ ∙ ap drop_companies d₁ in
      d₄
      ∙ ap
          (λ (db : Database). record db {
            user_companies = db.user_companies ++ company_links rid now input.empresa_ids;
          })
          (d₃
            ∙ ap
                (λ (db : Database). record db {
                  user_profiles = db.user_profiles ++ profile_links rid now input.profile_ids;
                })
                e)
