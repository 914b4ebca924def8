-- ===== src/Company/Save/Placing.antt =====
-- Companies with distinct documents, and what a write adds to them (Company/Save.antt).
use tunnara.Prelude.{
  ◌≡◌, refl, ap, sym, ◌∙◌, ◌⊎◌, inl, inr, suc, true, false, Bool-cases, not, Option, none, some,
  String, if◌then◌else◌, str_eq, eq_iff, ◌&&◌, arith,
}
use mathlib.Core.Path.{subst}
use tunnara.Prelude.Int.{ℤ, pos, eqb_ℤ, eqb_ℤ-eq, eqb_ℤ-refl}
use tunnara.Prelude.Members.{Memᴰ, mem-map, mem-append_one, not_any}
use tunnara.Database.Tables.{Database, Company}
use tunnara.Database.Command.{Engine}
use tunnara.Access.Statements.{another}
use tunnara.Company.Document.{normalize_document_key}
use tunnara.Company.Payload.{CompanyInput}
use tunnara.Company.Save.{update_company, insert_company, write_company, stored_key, document_taken}

module _ {E : Type 0} (engine : Engine E) where
  -- Companies of different numbers have different documents, but for what is left out.
  abbrev pub Distinct : Database → Type 0
  Distinct db =
      (c d : Company)
      → Memᴰ c db.companies
      → Memᴰ d db.companies
      → eqb_ℤ c.id d.id ≡ false
      → stored_key engine c.documento ≡ stored_key engine d.documento
      → stored_key engine c.documento ≡ ""

  -- The letters and digits of a document, in upper case, are their own key.
  abbrev pub KeysAgree : Type 0
  KeysAgree =
      (value : String)
      → let documento = normalize_document_key engine.to_uppercase value in
        stored_key engine (some documento) ≡ documento

  -- A company that a write leaves, or one that it wrote.
  abbrev pub Placed : Option ℤ → ℤ → String → Database → Company → Type 0
  Placed id rid documento db c =
      (Memᴰ c db.companies × (another id c.id ≡ true))
      ⊎ ((c.id ≡ rid) × (c.documento ≡ some documento))

  pub Distinct-Placed :
      (id : Option ℤ) (rid : ℤ) (documento : String) (db db' : Database)
      → stored_key engine (some documento) ≡ documento
      → document_taken engine documento id db ≡ false
      → ((c : Company) → Memᴰ c db'.companies → Placed id rid documento db c)
      → Distinct db
      → Distinct db'
  Distinct-Placed id rid documento db db' own free place h c d mc md differ same =
      both (place c mc) (place d md)
    where
      clash :
          (e : Company)
          → Memᴰ e db.companies
          → another id e.id ≡ true
          → stored_key engine e.documento ≡ documento
          → ⊥
      clash e m o k =
          let f =
            not_any (λ c. str_eq (stored_key engine c.documento) documento && another id c.id)
              db.companies e free m in
          ground (arith, eq_iff (stored_key engine e.documento) documento)

      both :
          Placed id rid documento db c
          → Placed id rid documento db d
          → stored_key engine c.documento ≡ ""
      both (inl (m, o)) (inl (n, p)) = h c d m n differ same
      both (inl (m, o)) (inr (e, k)) =
          elim (clash c m o (same ∙ ap (stored_key engine) k ∙ own)) [ ]
      both (inr (e, k)) (inl (n, p)) =
          elim (clash d n p (sym same ∙ ap (stored_key engine) k ∙ own)) [ ]
      both (inr (e, k)) (inr (f, l)) = let r = eqb_ℤ-refl rid in cc

  pub update_company-Placed :
      (i : ℤ) (input : CompanyInput) (now : String) (db : Database) (c : Company)
      → Memᴰ c (update_company i input now db).companies
      → Placed (some i) i input.documento db c
  update_company-Placed i input now db c m =
      let (x, n, e) =
        mem-map (λ c. if eqb_ℤ c.id i then write_company input now c else c) db.companies c m in
      elim (Bool-cases (eqb_ℤ x.id i)) [
        | inl k ↦ inr (
          ap (λ (y : Company). y.id) e ∙ rw k (eqb_ℤ-eq x.id i k),
          ap (λ (y : Company). y.documento) e ∙ rw k refl,
        )
        | inr k ↦
            let q : c ≡ x = e ∙ rw k refl in
            inl (
              subst (λ y. Memᴰ y db.companies) (sym q) n,
              subst (λ (y : Company). not (eqb_ℤ y.id i) ≡ true) (sym q) (ap not k),
            )
      ]

  pub insert_company-Placed :
      (input : CompanyInput) (now : String) (db : Database) (c : Company)
      → Memᴰ c (insert_company input now db).companies
      → Placed none (pos (suc db.last_company)) input.documento db c
  insert_company-Placed input now db c m = elim (mem-append_one _ _ c m) [
    | inl n ↦ inl (n, refl)
    | inr e ↦ inr (ap (λ (x : Company). x.id) e, ap (λ (x : Company). x.documento) e)
  ]
