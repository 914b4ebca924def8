-- ===== src/License/Cache.antt =====
-- The offline cache, apps/console/src-tauri/generic-license-tauri/src/cache.rs: one JSON file
-- for each document, named by the document's hash, in the namespace's folder.
pub mod Ending
pub mod RoundTrip
use tunnara.Prelude.{Option, none, some, String, if◌then◌else◌}
use tunnara.Prelude.Text.{◌++◌}
use tunnara.License.Models.{LicenseApiResponse, LicenseDecision, CachedLicenseFile}
use tunnara.License.Error.{io, serde}
use tunnara.License.World.{Attempt, done, failed, M, pure, raise, ◌>>=◌, ◌>>◌, ask, World}

-- `map_err(|e| LicenseError::Io(e.to_string()))?`
abbrev or_io : {E A : Type 0} → Attempt A → M E A
or_io (done a) = pure a
or_io (failed m) = raise (io m)

abbrev or_serde : {E A : Type 0} → Attempt A → M E A
or_serde (done a) = pure a
or_serde (failed m) = raise (serde m)

pub sha_file_name : {E : Type 0} → World E → String → String
sha_file_name w document = w.sha256_hex document

module _ {E : Type 0} (w : World E) (namespace : String) where
  pub file_path : String → M E String
  unfolding sha_file_name
  file_path document = do
    dirs ← ask w.data_local_dir
    elim dirs [
      | none ↦ raise (io "não foi possível resolver o diretório de dados do app")
      | some dir ↦
          pure
            (w.push (w.push (w.push dir "offline") namespace) (sha_file_name w document ++ ".json"))
    ]

  pub write : String → CachedLicenseFile → M E (Unit {0})
  unfolding file_path
  write document cached = do
    path ← file_path document
    elim (w.parent path) [
      | none ↦ pure tt
      | some parent ↦ do made ← ask (w.create_dir_all parent); or_io made
    ]
    json ← or_serde (w.to_json cached)
    written ← ask (w.write path json)
    or_io written

  unfoldable pub put_payload : String → LicenseApiResponse → M E (Unit {0})
  unfolding write
  put_payload document payload = do
    now ← ask w.utc_now
    write document (record { cached_at = now; decision = none; payload = some payload })

  unfoldable pub put_decision : String → LicenseDecision → M E (Unit {0})
  unfolding write
  put_decision document decision = do
    now ← ask w.utc_now
    write document (record { cached_at = now; decision = some decision; payload = none })

  unfoldable pub get : String → M E (Option CachedLicenseFile)
  unfolding file_path
  get document = do
    path ← file_path document
    present ← ask (w.exists path)
    let read : M E (Option CachedLicenseFile) = do
      contents ← ask (w.read_to_string path)
      text ← or_io contents
      decoded ← or_serde (w.from_json text)
      pure (some decoded)
    if present then read else pure none
