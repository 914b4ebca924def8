-- ===== src/License/Registration/Search.antt =====
-- What the search for the registration file (License/Registration.antt) finds, and when a file
-- counts as signed.
use tunnara.Prelude.{
  ℕ, ◌≡◌, refl, ◌⊎◌, inl, inr, true, not, Option, none, some, String, List, [], ◌∷◌, ◌++◌, all,
  ◌==◌, length, arith, Bool-cases, ap, sym, ◌∙◌,
}
use mathlib.Core.List.{append-nil, append_assoc}
use tunnara.Prelude.Text.{is_empty, trim}
use tunnara.License.Models.{LicenseConfig}
use tunnara.License.Error.{serde, registration_file}
use tunnara.License.World.{ok, done}
use tunnara.License.Json.{Json, as_object}
use tunnara.License.Registration.Results.{
  and_result-eq_ok, or_error-eq_ok, ok_or-eq_ok, some_inj, ok_inj,
}
use tunnara.License.Registration.{
  Host, RegistrationFileDiscovery, or_error, ok_or, sized, text_in, candidate_paths,
  verify_signature, verified_of, read_candidate, search_paths, discover_registration_file,
  to_option,
}

module _ {V Key : Type 0} (h : Host V Key) (j : Json V) where
  -- The signature in the document is one of the document without it, by the key.
  abbrev pub Signed : V → String → Type 0
  Signed v key_b64 =
      (signature_b64 : String) × (message : List ℕ) × (key_bytes : List ℕ) × (signature : List ℕ)
      × (key : Key) × (text_in h j v "signature" "value" ≡ some signature_b64)
      × (h.to_vec (h.remove "signature" v) ≡ done message)
      × (h.decode key_b64 ≡ done key_bytes)
      × (h.decode signature_b64 ≡ done signature)
      × (length key_bytes ≡ 32)
      × (length signature ≡ 64)
      × (h.key_from_bytes key_bytes ≡ done key)
      × (h.verify key message signature ≡ true)

  -- The file that a search over these candidates ends with.
  abbrev pub Found :
      LicenseConfig → List String → List String → RegistrationFileDiscovery V → Type 0
  Found config searched candidates d =
      (before : List String) × (p : String) × (after : List String) × (bytes : List ℕ) × (candidates
        ≡ before ++ (p ∷ after))
      × (all (λ q. not (h.exists q)) before ≡ true)
      × (h.exists p ≡ true)
      × (h.read p ≡ done bytes)
      × (d.searched_paths ≡ searched ++ (before ++ (p ∷ [])))
      × (d.file_path ≡ some p)
      × (d.content_b64 ≡ some (h.encode bytes))
      × (d.payload ≡ to_option (h.from_slice bytes))
      × (verified_of h j d.payload config.registration_public_key_base64 ≡ ok d.verified)

  abbrev pub NoneFound : List String → List String → RegistrationFileDiscovery V → Type 0
  NoneFound searched candidates d =
      (all (λ q. not (h.exists q)) candidates ≡ true)
      × (d.searched_paths ≡ searched ++ candidates)
      × (d.file_path ≡ none)
      × (d.content_b64 ≡ none)
      × (d.verified ≡ none)

  read_candidate-eq_ok :
      (config : LicenseConfig) (searched : List String) (p : String)
      (d : RegistrationFileDiscovery V)
      → read_candidate h j config searched p ≡ ok d
      → (bytes : List ℕ) × (h.read p ≡ done bytes)
        × (d.searched_paths ≡ searched)
        × (d.file_path ≡ some p)
        × (d.content_b64 ≡ some (h.encode bytes))
        × (d.payload ≡ to_option (h.from_slice bytes))
        × (verified_of h j d.payload config.registration_public_key_base64 ≡ ok d.verified)
  unfolding read_candidate
  read_candidate-eq_ok config searched p d run =
      let (bytes, reads, rest) = and_result-eq_ok (or_error registration_file (h.read p)) _ d run in
      let (v, verifies, built) =
        and_result-eq_ok
          (verified_of h j (to_option (h.from_slice bytes)) config.registration_public_key_base64) _
          d rest in
      let is = ok_inj _ d built in
      (
        bytes,
        or_error-eq_ok registration_file (h.read p) bytes reads,
        ap (λ r. r.searched_paths) (sym is),
        ap (λ r. r.file_path) (sym is),
        ap (λ r. r.content_b64) (sym is),
        ap (λ r. r.payload) (sym is),
        ap (λ r. verified_of h j r.payload config.registration_public_key_base64) (sym is)
            ∙ verifies
            ∙ ap (λ r. ok r.verified) is,
      )

  search_paths-eq_ok :
      (config : LicenseConfig) (searched candidates : List String) (d : RegistrationFileDiscovery V)
      → search_paths h j config searched candidates ≡ ok d
      → NoneFound searched candidates d ⊎ Found config searched candidates d
  unfolding search_paths
  search_paths-eq_ok config searched [] d run =
      let is = ok_inj _ d run in
      inl (
        refl,
        ap (λ r. r.searched_paths) (sym is) ∙ sym (append-nil searched),
        ap (λ r. r.file_path) (sym is),
        ap (λ r. r.content_b64) (sym is),
        ap (λ r. r.verified) (sym is),
      )
  search_paths-eq_ok config searched (p ∷ rest) d run = elim (Bool-cases (h.exists p)) [
    | inl there ↦
        let (bytes, reads, searched_is, file_is, content_is, payload_is, verified_is) =
          read_candidate-eq_ok config (searched ++ (p ∷ [])) p d (ground arith) in
        inr (
          [], p, rest, bytes, refl, refl, there, reads, searched_is, file_is, content_is,
          payload_is, verified_is,
        )
    | inr missing ↦ elim (search_paths-eq_ok config (searched ++ (p ∷ [])) rest d (ground arith)) [
      | inl (gone, searched_is, file_is, content_is, verified_is) ↦ inl (
        rw missing gone,
        searched_is ∙ append_assoc searched (p ∷ []) rest,
        file_is,
        content_is,
        verified_is,
      )
      | inr
            (
              before, q, after, bytes, split, gone, there, reads, searched_is, file_is, content_is,
              payload_is, verified_is,
            ) ↦
          inr (
            p ∷ before,
            q,
            after,
            bytes,
            ap (λ x. p ∷ x) split,
            rw missing gone,
            there,
            reads,
            searched_is ∙ append_assoc searched (p ∷ []) (before ++ (q ∷ [])),
            file_is,
            content_is,
            payload_is,
            verified_is,
          )
    ]
  ]

  -- A search for the registration file that ends well found the first candidate that exists,
  -- and took its bytes, the document in them and the result of its signature; or no candidate
  -- exists, and it has no file. It names the paths that it searched, up to that one.
  pub discover_registration_file-Found :
      (config : LicenseConfig) (d : RegistrationFileDiscovery V)
      → discover_registration_file h j config ≡ ok d
      → NoneFound [] (candidate_paths h j config) d ⊎ Found config [] (candidate_paths h j config) d
  unfolding discover_registration_file
  discover_registration_file-Found config d run =
      search_paths-eq_ok config [] (candidate_paths h j config) d run

  sized-eq_ok :
      (n : ℕ) (m : String) (bytes out : List ℕ)
      → sized n m bytes ≡ ok out
      → (bytes ≡ out) × (length out ≡ n)
  sized-eq_ok n m bytes out run = elim (Bool-cases (length bytes == n)) [
    | inl e ↦ (ground arith, ground arith)
    | inr e ↦ absurd (ground arith)
  ]

  verify_signature-Signed :
      (v : V) (key_b64 : String) → verify_signature h j v key_b64 ≡ ok true → Signed v key_b64
  unfolding verify_signature
  verify_signature-Signed v key_b64 run =
      let (obj, _, run₁) = and_result-eq_ok (ok_or (as_object j v) _) _ true run in
      let (s, s_is, run₂) =
        and_result-eq_ok (ok_or (text_in h j v "signature" "value") _) _ true run₁ in
      let (message, m_is, run₃) =
        and_result-eq_ok (or_error serde (h.to_vec (h.remove "signature" v))) _ true run₂ in
      let (kb, kb_is, run₄) = and_result-eq_ok (or_error _ (h.decode key_b64)) _ true run₃ in
      let (sb, sb_is, run₅) = and_result-eq_ok (or_error _ (h.decode s)) _ true run₄ in
      let (ka, ka_is, run₆) = and_result-eq_ok (sized 32 _ kb) _ true run₅ in
      let (sa, sa_is, run₇) = and_result-eq_ok (sized 64 _ sb) _ true run₆ in
      let (key, key_is, run₈) =
        and_result-eq_ok (or_error registration_file (h.key_from_bytes ka)) _ true run₇ in
      let (pub_is, pub_size) = sized-eq_ok 32 _ kb ka ka_is in
      let (sig_is, sig_size) = sized-eq_ok 64 _ sb sa sa_is in
      (
        s,
        message,
        ka,
        sa,
        key,
        ok_or-eq_ok _ _ s s_is,
        or_error-eq_ok _ _ message m_is,
        or_error-eq_ok _ _ kb kb_is ∙ ap (λ x. done x) pub_is,
        or_error-eq_ok _ _ sb sb_is ∙ ap (λ x. done x) sig_is,
        pub_size,
        sig_size,
        or_error-eq_ok _ _ key key_is,
        ok_inj _ true run₈,
      )

  verified_of-Signed :
      (payload : Option V) (key : Option String)
      → verified_of h j payload key ≡ ok (some true)
      → (v : V) × (k : String) × (payload ≡ some v) × (key ≡ some k) × Signed v k
  unfolding verified_of
  verified_of-Signed none key run = cc
  verified_of-Signed (some v) none run = cc
  verified_of-Signed (some v) (some k) run = elim (Bool-cases (is_empty (trim k))) [
    | inl blank ↦ absurd (ground arith)
    | inr full ↦
        let (b, verifies, is) =
          and_result-eq_ok (verify_signature h j v k) (λ b. ok (some b)) (some true)
            (ground arith) in
        (
          v,
          k,
          refl,
          refl,
          verify_signature-Signed v k
              (verifies ∙ ap (λ x. ok x) (some_inj b true (ok_inj (some b) (some true) is))),
        )
  ]

  -- A registration file is marked as verified only if a public key is configured and the file is
  -- a document with a text under "signature", "value", which decodes to the 64 bytes of a
  -- signature, by the 32 bytes that the key decodes to, of the document without "signature".
  pub discover_registration_file-Signed :
      (config : LicenseConfig) (d : RegistrationFileDiscovery V)
      → discover_registration_file h j config ≡ ok d
      → d.verified ≡ some true
      → (v : V) × (k : String) × (d.payload ≡ some v)
        × (config.registration_public_key_base64 ≡ some k)
        × Signed v k
  discover_registration_file-Signed config d run marked =
      elim (discover_registration_file-Found config d run) [
        | inl (gone, searched_is, file_is, content_is, verified_is) ↦ absurd (cc)
        | inr
              (
                before, p, after, bytes, split, gone, there, reads, searched_is, file_is,
                content_is, payload_is, verified_is,
              ) ↦
            verified_of-Signed d.payload config.registration_public_key_base64
              (verified_is ∙ ap (λ x. ok x) marked)
      ]
