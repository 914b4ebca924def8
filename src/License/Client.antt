-- ===== src/License/Client.antt =====
-- `LicenseApiClient` of apps/console/src-tauri/generic-license-tauri/src/client.rs, over an HTTP
-- library: the requests that it sends and what it makes of the responses.
pub mod Laws
mod Tests
use tunnara.Prelude.{
  ℕ, Bool, true, false, ◌||◌, Option, none, some, String, List, [], ◌∷◌, if◌then◌else◌, ◌==◌,
  unwrap_or, or_else, is_some, and_then, map,
}
use tunnara.Prelude.Text.{◌++◌, is_empty, trim, trim_start_matches, trim_end_matches, replace}
use tunnara.License.Models.{LicenseApiResponse, LicenseDecision, LicenseCheckInput, LicenseConfig}
use tunnara.License.Error.{config, http, serde, endpoint_unavailable, structured}
use tunnara.License.World.{Result, ok, err, Attempt, done, failed, Call}
use tunnara.License.Calls.{◌>>=◌, ◌>>◌, pure, raise, ask, result}
use tunnara.License.Api.{LicenseApi}
use tunnara.License.Json.{Json, Formats, object_of, as_str, text_at, text_of}
use tunnara.License.Answers.{normalize_activation_decision, normalize_response}
use tunnara.License.Payloads.{company_payload, device_payload, name_payload, resolve_payload}

pub data Method : Type 0 where
  get post put : Method

pub record Request (V : Type 0) : Type 0 where
  pub method : Method
  pub url : String
  pub bearer : Option String
  pub headers : List (String × String)
  pub body : Option V

pub record Response (E V : Type 0) : Type 0 where
  pub status : ℕ
  -- `response.json()`
  pub json : E → Attempt V × E

-- What the HTTP library and the clock do.
pub record Http (E V : Type 0) : Type 0 where
  pub send : Request V → E → Attempt (Response E V) × E
  -- `StatusCode::is_success` and its `Display`
  pub is_success : ℕ → Bool
  pub status_text : ℕ → String
  -- `Local::now().format("%Y-%m-%d %H:%M:%S")`
  pub local_now : E → String × E

module _ {E V : Type 0} (h : Http E V) (j : Json V) (f : Formats) (c : LicenseConfig) where
  -- `map_err(|e| LicenseError::Http(…))?` and `map_err(|e| LicenseError::Serde(…))?`
  abbrev or_http : {A : Type 0} → Attempt A → Call E A
  or_http (done a) = pure a
  or_http (failed m) = raise (http m)

  abbrev or_serde : {A : Type 0} → Attempt A → Call E A
  or_serde (done a) = pure a
  or_serde (failed m) = raise (serde m)

  pub guard : Call E (Unit {0})
  guard =
      if is_empty (trim c.base_url)
      then raise (config "base_url da licença não informada")
      else pure tt

  pub url : String → String
  url endpoint = trim_end_matches b'/' c.base_url ++ "/" ++ trim_start_matches b'/' endpoint

  -- The token of `with_auth`: none if it is blank.
  pub auth : Option String
  auth = and_then c.api_token (λ token. if is_empty (trim token) then none else some token)

  abbrev accept : List (String × String)
  accept = ("Accept", "application/json") ∷ []

  abbrev both : List (String × String)
  both = ("Accept", "application/json") ∷ ("Content-Type", "application/json") ∷ []

  pub request : Method → String → Option V → Request V
  unfolding url auth
  request method endpoint body = record {
    method = method;
    url = url endpoint;
    bearer = auth;
    headers = if is_some body then both else accept;
    body = body;
  }

  abbrev http_status : ℕ → String
  http_status status = "HTTP " ++ h.status_text status

  -- A body that is only judged by its status.
  pub expect_success : Response E V → Call E (Unit {0})
  expect_success response =
      if h.is_success response.status then pure tt else raise (http (http_status response.status))

  pub send : Request V → Call E (Response E V)
  send r = do answer ← ask (h.send r); or_http answer

  pub post_legacy : String → V → Call E (Unit {0})
  unfolding send request expect_success
  post_legacy endpoint payload = send (request post endpoint (some payload)) >>= expect_success

  pub register_company : LicenseCheckInput → Call E (Unit {0})
  unfolding guard post_legacy
  register_company input = do
    guard
    now ← ask h.local_now
    post_legacy c.register_company_endpoint (company_payload j now input)

  pub register_device : LicenseCheckInput → Call E (Unit {0})
  unfolding guard post_legacy
  register_device input = do guard; post_legacy c.register_device_endpoint (device_payload j input)

  pub update_device_name : String → LicenseCheckInput → Call E (Unit {0})
  unfolding guard send request expect_success
  update_device_name device_id input = do
    guard
    response ← send (
        request put (replace c.update_device_endpoint "{id}" device_id)
          (some (name_payload j input)))
    expect_success response

  pub read_status : Response E V → Call E LicenseApiResponse
  read_status response =
      if h.is_success response.status
      then (do
        body ← ask response.json
        value ← or_serde body
        result (normalize_response j f value))
      else raise (http (http_status response.status))

  pub company_status : String → Call E LicenseApiResponse
  unfolding guard send request read_status
  company_status document = do
    guard
    response ← send (request get (replace c.status_endpoint "{document}" document) none)
    read_status response

  -- `value.get(…)`: nothing where the value is no object.
  abbrev member : V → List String → Option String
  member value keys = and_then (object_of (j.view value)) (text_at j keys)

  -- The body of a response that is no success, as an error.
  pub refused : ℕ → V → Call E LicenseDecision
  refused status value = raise (
      structured (unwrap_or (member value ("step" ∷ [])) "resolve_activation")
        (unwrap_or (member value ("reason_code" ∷ [])) "ACTIVATION_RESOLVE_FAILED")
        (http_status status
          ++ " - "
          ++ unwrap_or (member value ("message" ∷ "error" ∷ [])) "falha ao resolver ativação"))

  pub read_activation : Response E V → Call E LicenseDecision
  unfolding refused
  read_activation response =
      if response.status == 404 || response.status == 405
      then raise
          (endpoint_unavailable ("endpoint " ++ c.resolve_activation_endpoint ++ " não disponível"))
      else (do
        body ← ask response.json
        value ← or_serde body
        if h.is_success response.status
            then result (normalize_activation_decision j f value)
            else refused response.status value)

  pub resolve_activation : LicenseCheckInput → Call E LicenseDecision
  unfolding guard send request read_activation
  resolve_activation input = do
    guard
    response ← send (request post c.resolve_activation_endpoint (some (resolve_payload j c input)))
    read_activation response

  -- The client as the service sees it.
  pub client : LicenseApi E
  unfolding resolve_activation company_status register_company register_device update_device_name
  client = record {
    resolve_activation = resolve_activation;
    company_status = company_status;
    register_company = register_company;
    register_device = register_device;
    update_device_name = update_device_name;
  }
