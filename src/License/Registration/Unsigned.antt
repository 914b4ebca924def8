-- ===== src/License/Registration/Unsigned.antt =====
-- What the check of a registration file's signature has to do with what is taken from the file
-- (License/Registration.antt).
use tunnara.Prelude.{
  ◌≡◌, refl, ap, ◌∙◌, ◌||◌, is_some, inl, inr, not, Option, none, some, String, List, [], ◌∷◌, ◌++◌,
  Bool-cases,
}
use tunnara.License.Models.{LicenseCheckInput, LicenseConfig}
use tunnara.License.Error.{registration_file}
use tunnara.License.World.{ok}
use tunnara.License.Json.{Json}
use tunnara.License.Registration.Results.{and_result-eq_ok, fst_eq, ok_inj}
use tunnara.License.Registration.{
  Host, RegistrationFileDiscovery, or_error, to_option, verified_of, read_candidate, search_paths,
  candidate_paths, discover_registration_file, fill_from_file, apply_discovery,
  enrich_input_from_registration_file,
}

-- The configuration with no public key.
abbrev pub unkeyed : LicenseConfig → LicenseConfig
unkeyed config = record config { registration_public_key_base64 = none }

-- The input without the result of the check of the signature.
abbrev pub unmarked : LicenseCheckInput → LicenseCheckInput
unmarked i = record i { registration_file_verified = none }

module _ {V Key : Type 0} (h : Host V Key) (j : Json V) where
  abbrev unchecked : RegistrationFileDiscovery V → RegistrationFileDiscovery V
  unchecked d = record d { verified = none }

  verified_of-none : (payload : Option V) → verified_of h j payload none ≡ ok none
  unfolding verified_of
  verified_of-none none = refl
  verified_of-none (some payload) = refl

  read_candidate-unkeyed :
      (config : LicenseConfig) (searched : List String) (p : String)
      (d : RegistrationFileDiscovery V)
      → read_candidate h j config searched p ≡ ok d
      → read_candidate h j (unkeyed config) searched p ≡ ok (unchecked d)
  unfolding read_candidate
  read_candidate-unkeyed config searched p d run =
      let (bytes, reads, rest) = and_result-eq_ok (or_error registration_file (h.read p)) _ d run in
      let (verified, checks, is) =
        and_result-eq_ok
          (verified_of h j (to_option (h.from_slice bytes)) config.registration_public_key_base64) _
          d rest in
      rw (reads, verified_of-none (to_option (h.from_slice bytes)))
        (ap (λ x. ok (unchecked x)) (ok_inj _ d is))

  search_paths-unkeyed :
      (config : LicenseConfig) (searched candidates : List String) (d : RegistrationFileDiscovery V)
      → search_paths h j config searched candidates ≡ ok d
      → search_paths h j (unkeyed config) searched candidates ≡ ok (unchecked d)
  unfolding search_paths
  search_paths-unkeyed config searched [] d run = ap (λ x. ok (unchecked x)) (ok_inj _ d run)
  search_paths-unkeyed config searched (p ∷ rest) d run = elim (Bool-cases (not (h.exists p))) [
    | inl absent ↦
        rw absent (search_paths-unkeyed config (searched ++ (p ∷ [])) rest d (rw absent at run))
    | inr there ↦
        rw there (read_candidate-unkeyed config (searched ++ (p ∷ [])) p d (rw there at run))
  ]

  discover_registration_file-unkeyed :
      (config : LicenseConfig) (d : RegistrationFileDiscovery V)
      → discover_registration_file h j config ≡ ok d
      → discover_registration_file h j (unkeyed config) ≡ ok (unchecked d)
  unfolding discover_registration_file candidate_paths
  discover_registration_file-unkeyed config d run =
      search_paths-unkeyed config [] (candidate_paths h j config) d run

  apply_discovery-unmarked :
      (d : RegistrationFileDiscovery V) (i : LicenseCheckInput)
      → unmarked (apply_discovery h j (unchecked d) i) ≡ unmarked (apply_discovery h j d i)
  unfolding apply_discovery fill_from_file
  apply_discovery-unmarked d i = by_content d.content_b64
    where
      by_content :
          (content : Option String)
          → unmarked (elim content [ none ↦ i | some c ↦ fill_from_file h j (unchecked d) c i ])
            ≡ unmarked (elim content [ none ↦ i | some c ↦ fill_from_file h j d c i ])
      by_content none = refl
      by_content (some c) = refl

  -- The check of the signature decides nothing about what is taken from a registration file: where
  -- completing an input ends well with the configured public key, whether the signature is right
  -- or wrong, it ends well with no key too, and gives the same input but for the field that has
  -- the result of the check.
  pub enrich_input_from_registration_file-unkeyed :
      (config : LicenseConfig) (i o : LicenseCheckInput)
      (found : Option (RegistrationFileDiscovery V))
      → enrich_input_from_registration_file h j config i ≡ ok (o, found)
      → (o' : LicenseCheckInput) × (found' : Option (RegistrationFileDiscovery V))
        × (enrich_input_from_registration_file h j (unkeyed config) i ≡ ok (o', found'))
        × (unmarked o' ≡ unmarked o)
  unfolding enrich_input_from_registration_file
  enrich_input_from_registration_file-unkeyed config i o found run =
      elim (Bool-cases
        (is_some i.registration_file_content_b64 || not config.enable_registration_file_lookup)) [
          | inl skip ↦
              let is = ok_inj (i, none) (o, found) (rw skip at run) in
              (i, none, rw skip refl, ap unmarked (fst_eq is))
          | inr look ↦
              let (d, finds, is) =
                and_result-eq_ok (discover_registration_file h j config)
                  (λ d. ok (apply_discovery h j d i, some d)) (o, found) (rw look at run) in
              let same = fst_eq (ok_inj (apply_discovery h j d i, some d) (o, found) is) in
              (
                apply_discovery h j (unchecked d) i,
                some (unchecked d),
                rw (look, discover_registration_file-unkeyed config d finds) refl,
                apply_discovery-unmarked d i ∙ ap unmarked same,
              )
        ]
