-- ===== src/License/Registration/Filling.antt =====
-- What the input of a check takes from the registration file (License/Registration.antt).
use tunnara.Prelude.{
  ◌≡◌, refl, ◌||◌, is_some, inl, inr, false, not, Option, none, some, String, arith, Bool-cases,
  sym,
}
use tunnara.Prelude.Text.{is_empty, trim}
use tunnara.License.Models.{LicenseCheckInput, LicenseConfig}
use tunnara.License.World.{ok}
use tunnara.License.Json.{Json}
use tunnara.License.Registration.Results.{and_result-eq_ok, fst_eq, ok_inj}
use tunnara.License.Registration.{
  Host, RegistrationFileDiscovery, discover_registration_file, apply_discovery, fill_from_file,
  enrich_input_from_registration_file,
}

module _ {V Key : Type 0} (h : Host V Key) (j : Json V) where
  -- What completing an input with a registration file leaves as it was given.
  abbrev pub KeepsGiven : LicenseCheckInput → LicenseCheckInput → Type 0
  KeepsGiven i o =
      (is_empty (trim i.company_document) ≡ false → o.company_document ≡ i.company_document)
      × ((x : String) → i.company_email ≡ some x → o.company_email ≡ some x)
      × ((x : String) → i.company_legal_name ≡ some x → o.company_legal_name ≡ some x)
      × ((x : String) → i.app_slug ≡ some x → o.app_slug ≡ some x)
      × ((x : String) → i.registration_file_content_b64 ≡ some x → o ≡ i)
      × (o.device_key ≡ i.device_key)

  fill_from_file-KeepsGiven :
      (d : RegistrationFileDiscovery V) (content : String) (i : LicenseCheckInput)
      → i.registration_file_content_b64 ≡ none
      → KeepsGiven i (fill_from_file h j d content i)
  unfolding fill_from_file
  fill_from_file-KeepsGiven d content i h = (
    λ given. rw given refl,
    λ x e. rw e refl,
    λ x e. rw e refl,
    λ x e. rw e refl,
    λ x e. absurd (cc),
    refl,
  )

  apply_discovery-KeepsGiven :
      (d : RegistrationFileDiscovery V) (i : LicenseCheckInput)
      → i.registration_file_content_b64 ≡ none
      → KeepsGiven i (apply_discovery h j d i)
  unfolding apply_discovery
  apply_discovery-KeepsGiven d i none_yet = by_content d.content_b64
    where
      by_content :
          (content : Option String)
          → KeepsGiven i (elim content [ none ↦ i | some c ↦ fill_from_file h j d c i ])
      by_content none = ((λ _. refl), (λ x e. e), (λ x e. e), (λ x e. e), (λ x e. refl), refl)
      by_content (some c) = fill_from_file-KeepsGiven d c i none_yet

  -- Completing an input with the registration file keeps a document that is not blank, and the
  -- e-mail address, the legal name and the application's slug where they are given; it does
  -- not touch the device key, and an input that has a file's content already is not changed at all.
  pub enrich_input_from_registration_file-KeepsGiven :
      (config : LicenseConfig) (i o : LicenseCheckInput)
      (found : Option (RegistrationFileDiscovery V))
      → enrich_input_from_registration_file h j config i ≡ ok (o, found)
      → KeepsGiven i o
  unfolding enrich_input_from_registration_file
  enrich_input_from_registration_file-KeepsGiven config i o found run =
      elim (Bool-cases
        (is_some i.registration_file_content_b64 || not config.enable_registration_file_lookup)) [
          | inl skip ↦
              let is : i ≡ o = fst_eq (ok_inj (i, none) (o, found) (ground arith)) in
              rw (sym is) ((λ _. refl), (λ x e. e), (λ x e. e), (λ x e. e), (λ x e. refl), refl)
          | inr look ↦
              let (d, _, is) =
                and_result-eq_ok (discover_registration_file h j config)
                  (λ d. ok (apply_discovery h j d i, some d)) (o, found) (rw look at run) in
              rw (sym (fst_eq (ok_inj (apply_discovery h j d i, some d) (o, found) is)))
                (apply_discovery-KeepsGiven d i (ground arith))
        ]
