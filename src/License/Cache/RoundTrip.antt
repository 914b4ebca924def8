-- ===== src/License/Cache/RoundTrip.antt =====
-- What the offline cache holds is what was put there, over a file system that keeps files.
use tunnara.Prelude.{inl, inr, Option-cases, ◌≡◌, true, Option, none, some, String, arith}
use tunnara.Prelude.Text.{◌++◌}
use tunnara.License.Models.{LicenseDecision, CachedLicenseFile}
use tunnara.License.World.{ok, returns, done, Attempt-cases, World}
use tunnara.License.Cache.{sha_file_name, write, put_decision, get}

-- What the cache relies on: the data folder is there and stays, a file reads back as it was
-- last written, and looking
-- at a file changes none.
pub record FileLaws {E : Type 0} (w : World E) : Type 0 where
  pub content : E → String → Option String
  pub folder : String
  pub folder_found : (e : E) → (w.data_local_dir e).0 ≡ some folder
  pub folder_keeps : (e : E) → content (w.data_local_dir e).1 ≡ content e
  pub exists_found : (p s : String) (e : E) → content e p ≡ some s → (w.exists p e).0 ≡ true
  pub exists_keeps : (p : String) (e : E) → content (w.exists p e).1 ≡ content e
  pub read_found : (p s : String) (e : E) → content e p ≡ some s → (w.read_to_string p e).0 ≡ done s
  pub write_kept :
      (p s : String) (e : E) → (w.write p s e).0 ≡ done tt → content (w.write p s e).1 p ≡ some s

-- The JSON codec decodes what it encoded `c` as.
abbrev pub Decodes : {E : Type 0} → World E → CachedLicenseFile → Type 0
Decodes w c = (s : String) → w.to_json c ≡ done s → w.from_json s ≡ done c

-- What `put_decision` writes at `e`.
abbrev pub stamped : {E : Type 0} → World E → LicenseDecision → E → CachedLicenseFile
stamped w d e = record { cached_at = (w.utc_now e).0; decision = some d; payload = none }

module _ {E : Type 0} (w : World E) (laws : FileLaws w) (namespace document : String) where
  abbrev path : String
  path = w.push (w.push (w.push laws.folder "offline") namespace) (w.sha256_hex document ++ ".json")

  get_content :
      (s : String) (c : CachedLicenseFile) (e : E)
      → laws.content e path ≡ some s
      → w.from_json s ≡ done c
      → (e' : E) × (get w namespace document e ≡ returns (ok (some c)) e')
  unfolding get sha_file_name
  get_content s c e h d =
      let e₁ : E = (w.data_local_dir e).1 in
      let e₂ : E = (w.exists path e₁).1 in
      let h₁ : laws.content e₁ path ≡ some s = rw (laws.folder_keeps e) h in
      let h₂ : laws.content e₂ path ≡ some s = rw (laws.exists_keeps path e₁) h₁ in
      (
        (w.read_to_string path e₂).1,
        ground (
          arith,
          laws.folder_found e,
          laws.exists_found path s e₁ h₁,
          laws.read_found path s e₂ h₂,
        ),
      )

  write_content :
      (c : CachedLicenseFile) (e e' : E)
      → Decodes w c
      → write w namespace document c e ≡ returns (ok tt) e'
      → (s : String) × (laws.content e' path ≡ some s) × (w.from_json s ≡ done c)
  unfolding write sha_file_name
  write_content c e e' decodes h = elim (Attempt-cases (w.to_json c)) [
    | inr (m, bad) ↦ absurd (ground (arith, laws.folder_found e))
    | inl (s, json) ↦ elim (Option-cases (w.parent path)) [
      | inl none_above ↦ (
        s,
        ground (arith, laws.folder_found e, laws.write_kept path s (w.data_local_dir e).1),
        decodes s json,
      )
      | inr (above, p) ↦ (
        s,
        ground (
          arith,
          laws.folder_found e,
          laws.write_kept path s (w.create_dir_all above (w.data_local_dir e).1).1,
        ),
        decodes s json,
      )
    ]
  ]

  -- A decision that was put into the cache is what the cache answers later, while the files stay
  -- as they were left, marked with the time at which it was put: over a file system that keeps
  -- files and a codec that decodes what it encoded that file as.
  pub put_decision-get :
      (d : LicenseDecision) (e e' later : E)
      → Decodes w (stamped w d e)
      → put_decision w namespace document d e ≡ returns (ok tt) e'
      → laws.content later ≡ laws.content e'
      → (e'' : E) × (get w namespace document later ≡ returns (ok (some (stamped w d e))) e'')
  unfolding put_decision
  put_decision-get d e e' later decodes h same =
      let (s, kept, decoded) = write_content (stamped w d e) (w.utc_now e).1 e' decodes h in
      get_content s (stamped w d e) later (rw same kept) decoded
