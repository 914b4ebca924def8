-- ===== src/License/Client/Laws.antt =====
-- What the API client (License/Client.antt) lets through and what it sends.
use tunnara.Prelude.{
  ◌≡◌, refl, true, false, ◌||◌, inl, inr, Option, some, String, ◌==◌, arith, Bool-cases, ◌↔◌,
}
use tunnara.Prelude.Text.{trim_end_matches, trim_start_matches, ◌++◌, is_empty, trim}
use tunnara.Prelude.Text.Trim.{
  first_is, last_is, only, trim_start_matches-first, trim_start_matches-split,
  trim_end_matches-last, trim_end_matches-split,
}
use tunnara.License.Models.{LicenseDecision, LicenseCheckInput, LicenseConfig}
use tunnara.License.Error.{config, http, serde, endpoint_unavailable}
use tunnara.License.World.{Result, ok, err, done, Attempt-cases, Call}
use tunnara.License.Json.{Json, Formats, as_object}
use tunnara.License.Answers.{normalize_activation_decision}
use tunnara.License.Answers.Laws.{Affirmed, activation-Affirmed, normalize_activation_decision-err}
use tunnara.License.Payloads.{resolve_payload}
use tunnara.License.Client.{
  Http, Response, post, guard, url, request, send, read_activation, refused, resolve_activation,
  company_status, register_company, register_device, update_device_name,
}

-- A call that stops before it does anything.
abbrev pub Refused : {E A : Type 0} → Call E A → Type 0
Refused {E} call = (e : E) → call e ≡ (err (config "base_url da licença não informada"), e)

module _ {E V : Type 0} (h : Http E V) (j : Json V) (f : Formats) (c : LicenseConfig) where
  -- Where the base URL is blank, every operation fails with the same configuration error and
  -- leaves the environment as it was: no request is sent and no clock is read.
  pub unconfigured :
      is_empty (trim c.base_url) ≡ true
      → (input : LicenseCheckInput) (document device : String)
      → Refused (resolve_activation h j f c input)
        × Refused (company_status h j f c document)
        × Refused (register_company h j f c input)
        × Refused (register_device h j f c input)
        × Refused (update_device_name h j f c device input)
  unfolding resolve_activation company_status register_company register_device update_device_name
      guard
  unconfigured blank input document device = (
    λ e. simp blank refl,
    λ e. simp blank refl,
    λ e. simp blank refl,
    λ e. simp blank refl,
    λ e. simp blank refl,
  )

  -- The response to the one request of an activation.
  abbrev pub Answered : LicenseCheckInput → E → Response E V → E → Type 0
  Answered input e response e₁ =
      h.send (request h j f c post c.resolve_activation_endpoint (some (resolve_payload j c input)))
        e
      ≡ (done response, e₁)

  -- A response that was read gave a decision only with a status of success, other than 404 and
  -- 405, and a body that was read as that decision.
  read_activation-ok :
      (response : Response E V) (d : LicenseDecision) (e e' : E)
      → read_activation h j f c response e ≡ (ok d, e')
      → ((response.status == 404 || response.status == 405) ≡ false)
        × (h.is_success response.status ≡ true)
        × ((body : V) × (response.json e ≡ (done body, e'))
            × (normalize_activation_decision j f body ≡ ok d))
  unfolding read_activation refused
  read_activation-ok response d e e' read =
      elim (Bool-cases (response.status == 404 || response.status == 405)) [
        | inl gone ↦ absurd (ground arith)
        | inr there ↦ elim (Attempt-cases (response.json e).0) [
          | inr (m, failure) ↦ absurd (ground arith)
          | inl (body, parsed) ↦ elim (Bool-cases (h.is_success response.status)) [
            | inl success ↦ (there, success, (body, ground arith, ground arith))
            | inr unsuccessful ↦ absurd (ground arith)
          ]
        ]
      ]

  -- Where an activation stops: an unusable configuration, a request that got no response, or a
  -- response that was read.
  data Stops (input : LicenseCheckInput) (e : E) (r : Result LicenseDecision) (e' : E)
      : Type 0 where
    unconfigured_at : (m : String) → r ≡ err (config m) → Stops input e r e'
    unsent :
        (m : String) → (is_empty (trim c.base_url) ≡ false) → r ≡ err (http m) → Stops input e r e'
    answered :
        (is_empty (trim c.base_url) ≡ false)
        → (response : Response E V) (e₁ : E) → Answered input e response e₁
        → read_activation h j f c response e₁ ≡ (r, e')
        → Stops input e r e'

  resolve_activation-Stops :
      (input : LicenseCheckInput) (e : E) (r : Result LicenseDecision) (e' : E)
      → resolve_activation h j f c input e ≡ (r, e')
      → Stops input e r e'
  unfolding resolve_activation guard send
  resolve_activation-Stops input e r e' run = elim (Bool-cases (is_empty (trim c.base_url))) [
    | inl blank ↦ unconfigured_at "base_url da licença não informada" (ground arith)
    | inr usable ↦
        elim (Attempt-cases
          (h.send
            (request h j f c post c.resolve_activation_endpoint (some (resolve_payload j c input)))
            e).0) [
              | inr (m, failure) ↦ unsent m usable (ground arith)
              | inl (response, sent) ↦
                  answered usable response
                    (h.send
                      (request h j f c post c.resolve_activation_endpoint
                        (some (resolve_payload j c input)))
                      e).1
                    (ground arith) (ground arith)
            ]
  ]

  -- If `resolve_activation` returns a decision that allows, then its one request was answered
  -- with a status of success other than 404 and 405, and the body of that response is an object
  -- whose `success`, or without one whose `allowed`, reads as true.
  pub resolve_activation_allowed :
      (input : LicenseCheckInput) (d : LicenseDecision) (e e' : E)
      → resolve_activation h j f c input e ≡ (ok d, e')
      → d.allowed ≡ true
      → (response : Response E V) × (e₁ : E) × (body : V) × (get : String → Option V) × Answered
          input e response e₁
        × ((response.status == 404 || response.status == 405) ≡ false)
        × (h.is_success response.status ≡ true)
        × (response.json e₁ ≡ (done body, e'))
        × (as_object j body ≡ some get)
        × Affirmed j f get
  resolve_activation_allowed input d e e' run allowed =
      elim (resolve_activation-Stops input e (ok d) e' run) [
        | unconfigured_at m bad ↦ absurd (cc)
        | unsent m usable bad ↦ absurd (cc)
        | answered usable response e₁ sent read ↦
            let (there, success, (body, parsed, normal)) =
              read_activation-ok response d e₁ e' read in
            let (get, object, affirmed) = activation-Affirmed j f body d normal allowed in
            (response, e₁, body, get, sent, there, success, parsed, object, affirmed)
      ]

  read_activation-unavailable :
      (response : Response E V) (m : String) (e e' : E)
      → read_activation h j f c response e ≡ (err (endpoint_unavailable m), e')
      → (response.status == 404 || response.status == 405) ≡ true
  unfolding read_activation refused
  read_activation-unavailable response m e e' read =
      elim (Bool-cases (response.status == 404 || response.status == 405)) [
        | inl gone ↦ gone
        | inr there ↦ elim (Attempt-cases (response.json e).0) [
          | inr (x, failure) ↦ absurd (ground arith)
          | inl (body, parsed) ↦ elim (Bool-cases (h.is_success response.status)) [
            | inl success ↦
                let (x, is_serde) : (x : String) × (endpoint_unavailable m ≡ serde x) =
                  normalize_activation_decision-err j f body (endpoint_unavailable m)
                    (ground arith) in
                absurd (cc)
            | inr unsuccessful ↦ absurd (ground arith)
          ]
        ]
      ]

  unavailable_before :
      (input : LicenseCheckInput) (e : E)
      → (m : String) → (resolve_activation h j f c input e).0 ≡ err (endpoint_unavailable m)
      → (is_empty (trim c.base_url) ≡ false)
        × ((response : Response E V) × (e₁ : E) × Answered input e response e₁
            × ((response.status == 404 || response.status == 405) ≡ true))
  unavailable_before input e m run =
      elim (resolve_activation-Stops input e (err (endpoint_unavailable m))
        (resolve_activation h j f c input e).1 (ground arith)) [
          | unconfigured_at x bad ↦ absurd (cc)
          | unsent x usable bad ↦ absurd (cc)
          | answered usable response e₁ sent read ↦ (
            usable,
            (
              response,
              e₁,
              sent,
              read_activation-unavailable response m e₁ (resolve_activation h j f c input e).1 read,
            ),
          )
        ]

  unavailable_after :
      (input : LicenseCheckInput) (e : E)
      → is_empty (trim c.base_url) ≡ false
      → (response : Response E V) (e₁ : E) → Answered input e response e₁
      → (response.status == 404 || response.status == 405) ≡ true
      → (m : String) × ((resolve_activation h j f c input e).0 ≡ err (endpoint_unavailable m))
  unfolding resolve_activation guard send read_activation
  unavailable_after input e usable response e₁ sent gone =
      ("endpoint " ++ c.resolve_activation_endpoint ++ " não disponível", ground arith)

  -- `resolve_activation` reports that its endpoint is unavailable exactly if the base URL is
  -- not blank and its request was answered with the status 404 or 405, whatever the body.
  pub resolve_activation_unavailable :
      (input : LicenseCheckInput) (e : E)
      → ((m : String) × ((resolve_activation h j f c input e).0 ≡ err (endpoint_unavailable m))) ↔ (
          (is_empty (trim c.base_url) ≡ false)
          × ((response : Response E V) × (e₁ : E) × Answered input e response e₁
              × ((response.status == 404 || response.status == 405) ≡ true)))
  resolve_activation_unavailable input e = (
    λ (m, run). unavailable_before input e m run,
    λ (usable, (response, e₁, sent, gone)). unavailable_after input e usable response e₁ sent gone,
  )

  -- The URL of a request is the base URL and the endpoint with one slash between them: what is
  -- left out on either side of it is only slashes, the part before it does not end with one and
  -- the part after it does not begin with one.
  pub url-Joined :
      (endpoint : String)
      → (base : String) × (path : String) × (before : String) × (after : String) × (url h j f c
            endpoint
          ≡ base ++ "/" ++ path)
        × (c.base_url ≡ base ++ before)
        × (endpoint ≡ after ++ path)
        × (only b'/' before ≡ true)
        × (only b'/' after ≡ true)
        × (last_is b'/' base ≡ false)
        × (first_is b'/' path ≡ false)
  unfolding url
  url-Joined endpoint =
      let (before, slashes, base_is) = trim_end_matches-split b'/' c.base_url in
      let (after, slashes', endpoint_is) = trim_start_matches-split b'/' endpoint in
      (
        trim_end_matches b'/' c.base_url,
        trim_start_matches b'/' endpoint,
        before,
        after,
        refl,
        base_is,
        endpoint_is,
        slashes,
        slashes',
        trim_end_matches-last b'/' c.base_url,
        trim_start_matches-first b'/' endpoint,
      )
