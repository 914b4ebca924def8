-- ===== src/License/Registration.antt =====
-- The registration file that is looked for beside the program, and how it completes the input of a
-- check: apps/console/src-tauri/generic-license-tauri/src/registration.rs.
pub mod Results
pub mod Search
pub mod Filling
pub mod Unsigned
mod Tests
use tunnara.Prelude.{
  ℕ, Bool, not, ◌&&◌, ◌||◌, Option, none, some, String, List, [], ◌∷◌, ◌++◌, map, if◌then◌else◌,
  and_then, or_else, unwrap_or, is_some, filter, length, ◌==◌, concat_map,
}
use tunnara.Prelude.Text.{◌++◌ as append, is_empty, trim}
use tunnara.License.Models.{LicenseCheckInput, LicenseConfig}
use tunnara.License.Error.{LicenseError, serde, registration_file}
use tunnara.License.World.{Result, ok, err, Attempt, done, failed}
use tunnara.License.Json.{Json, object_of, as_object, as_str}

pub record RegistrationFileDiscovery (V : Type 0) : Type 0 where
  pub searched_paths : List String
  pub file_path : Option String
  pub content_b64 : Option String
  pub verified : Option Bool
  pub payload : Option V
  pub message : Option String

-- What the code reads of its machine, and the libraries' operations on it.
pub record Host (V Key : Type 0) : Type 0 where
  pub current_exe : Option String
  pub parent : String → Option String
  pub current_dir : Option String
  -- `data_dir()` and `config_dir()` of `BaseDirs::new()` and of `ProjectDirs::from(…)`
  pub base_dirs : Option (String × String)
  pub project_dirs : Option (String × String)
  pub program_data : Option String
  pub join : String → String → String
  pub exists : String → Bool
  pub read : String → Attempt (List ℕ)
  pub encode : List ℕ → String
  pub decode : String → Attempt (List ℕ)
  pub from_slice : List ℕ → Attempt V
  pub to_vec : V → Attempt (List ℕ)
  -- `remove` of a key on an object
  pub remove : String → V → V
  pub key_from_bytes : List ℕ → Attempt Key
  -- `verify(message, signature).is_ok()`
  pub verify : Key → List ℕ → List ℕ → Bool

-- `?` on results, and on calls whose error becomes one of the errors.
abbrev pub and_result : {A B : Type 0} → Result A → (A → Result B) → Result B
and_result (ok a) f = f a
and_result (err x) f = err x

abbrev pub or_error : {A : Type 0} → (String → LicenseError) → Attempt A → Result A
or_error x (done a) = ok a
or_error x (failed m) = err (x m)

abbrev pub ok_or : {A : Type 0} → Option A → LicenseError → Result A
ok_or none x = err x
ok_or (some a) x = ok a

-- `try_into` an array of this length.
abbrev pub sized : ℕ → String → List ℕ → Result (List ℕ)
sized n m bytes = if length bytes == n then ok bytes else err (registration_file m)

-- `.ok()`
abbrev pub to_option : {A : Type 0} → Attempt A → Option A
to_option (done a) = some a
to_option (failed m) = none

module _ {V Key : Type 0} (h : Host V Key) (j : Json V) where
  -- `v.get(a).and_then(|v| v.get(b)).and_then(|v| v.as_str())`
  abbrev pub get_in : V → String → Option V
  get_in v key = and_then (as_object j v) (λ get. get key)

  abbrev pub text_in : V → String → String → Option String
  text_in v a b = and_then (and_then (get_in v a) (λ x. get_in x b)) (as_str j)

  abbrev both : Option (String × String) → List String
  both none = []
  both (some (a, b)) = a ∷ b ∷ []

  abbrev one : Option String → List String
  one none = []
  one (some a) = a ∷ []

  pub roots : LicenseConfig → List String
  roots config =
      one (and_then h.current_exe h.parent)
      ++ one h.current_dir
      ++ both h.base_dirs
      ++ both h.project_dirs
      ++ map (λ p. h.join (h.join p "WWSoftwares") "IntegraDesktop") (one h.program_data)
      ++ filter (λ path. not (is_empty (trim path))) config.registration_file_extra_paths

  pub candidate_paths : LicenseConfig → List String
  unfolding roots
  candidate_paths config =
      concat_map (λ root. map (h.join root) config.registration_file_names) (roots config)

  -- The message that is signed: the document without its signature.
  pub verify_signature : V → String → Result Bool
  verify_signature payload public_key_b64 =
      and_result
        (ok_or (as_object j payload) (registration_file "payload do arquivo de registro inválido"))
        λ obj.
          and_result
            (ok_or (text_in payload "signature" "value")
              (registration_file "assinatura não encontrada no arquivo de registro"))
            λ signature_value.
              and_result (or_error serde (h.to_vec (h.remove "signature" payload))) λ message.
                and_result
                  (or_error (λ e. registration_file (append "chave pública inválida: " e))
                    (h.decode public_key_b64))
                  λ key_bytes.
                    and_result
                      (or_error (λ e. registration_file (append "assinatura inválida: " e))
                        (h.decode signature_value))
                      λ signature_bytes.
                        and_result
                          (sized 32 "a chave pública Ed25519 deve conter 32 bytes" key_bytes)
                          λ key_array.
                            and_result
                              (sized 64 "a assinatura Ed25519 deve conter 64 bytes" signature_bytes)
                              λ signature_array.
                                and_result (or_error registration_file (h.key_from_bytes key_array))
                                  λ key. ok (h.verify key message signature_array)

  -- Whether the file is signed: asked only of a document, and with a key that is not blank.
  pub verified_of : Option V → Option String → Result (Option Bool)
  unfolding verify_signature
  verified_of (some payload) (some key) =
      if not (is_empty (trim key))
      then and_result (verify_signature payload key) (λ b. ok (some b))
      else ok none
  verified_of _ _ = ok none

  pub read_candidate : LicenseConfig → List String → String → Result (RegistrationFileDiscovery V)
  unfolding verified_of
  read_candidate config searched candidate =
      and_result (or_error registration_file (h.read candidate)) λ bytes.
        and_result
          (verified_of (to_option (h.from_slice bytes)) config.registration_public_key_base64)
          λ verified. ok (record {
            searched_paths = searched;
            file_path = some candidate;
            content_b64 = some (h.encode bytes);
            verified = verified;
            payload = to_option (h.from_slice bytes);
            message = some "arquivo de registro localizado automaticamente";
          })

  -- The candidates that are left, and the paths searched so far.
  pub search_paths :
      LicenseConfig → List String → List String → Result (RegistrationFileDiscovery V)
  unfolding read_candidate
  search_paths config searched [] = ok (record {
    searched_paths = searched;
    file_path = none;
    content_b64 = none;
    verified = none;
    payload = none;
    message = some "nenhum arquivo de registro foi localizado";
  })
  search_paths config searched (candidate ∷ rest) =
      let later = search_paths config (searched ++ (candidate ∷ [])) rest in
      if not (h.exists candidate)
      then later
      else read_candidate config (searched ++ (candidate ∷ [])) candidate

  pub discover_registration_file : LicenseConfig → Result (RegistrationFileDiscovery V)
  unfolding search_paths candidate_paths
  discover_registration_file config = search_paths config [] (candidate_paths config)

  abbrev pub payload_text : RegistrationFileDiscovery V → String → String → Option String
  payload_text d a b = and_then d.payload (λ v. text_in v a b)

  -- What the file that was found fills in.
  pub fill_from_file : RegistrationFileDiscovery V → String → LicenseCheckInput → LicenseCheckInput
  fill_from_file d content input = record input {
    registration_file_content_b64 = some content;
    registration_file_path = d.file_path;
    registration_file_verified = d.verified;
    company_document =
        if is_empty (trim input.company_document)
        then unwrap_or (payload_text d "company" "document") input.company_document
        else input.company_document;
    company_email = or_else input.company_email (payload_text d "company" "email");
    company_legal_name = or_else input.company_legal_name (payload_text d "company" "legal_name");
    app_slug = or_else input.app_slug (payload_text d "application" "slug");
  }

  abbrev pub apply_discovery : RegistrationFileDiscovery V → LicenseCheckInput → LicenseCheckInput
  unfolding fill_from_file
  apply_discovery d input = elim d.content_b64 [
    | none ↦ input
    | some content ↦ fill_from_file d content input
  ]

  -- The input as it is left, with what was discovered.
  unfoldable pub enrich_input_from_registration_file :
      LicenseConfig
      → LicenseCheckInput
      → Result (LicenseCheckInput × Option (RegistrationFileDiscovery V))
  unfolding fill_from_file discover_registration_file
  enrich_input_from_registration_file config input =
      if is_some input.registration_file_content_b64 || not config.enable_registration_file_lookup
      then ok (input, none)
      else and_result (discover_registration_file config) λ d. ok (apply_discovery d input, some d)
