-- ===== src/Company/Lookup/Steps.antt =====
-- What the lookups call and how they read its answers (Company/Lookup.antt).
use tunnara.Prelude.{
  ℕ, Bool, true, false, ◌&&◌, Option, none, some, String, List, [], ◌∷◌, if◌then◌else◌, leb, str_eq,
  and_then, map_option, unwrap_or,
}
use tunnara.Prelude.Int.{ℤ, pos, negsuc, ltb_ℤ}
use tunnara.Prelude.Text.{◌++◌ as ◌+s◌, trim, show_ℕ}
use tunnara.Value.{Value, Items, Fields, bool, string, nil, cons, get, insert}
use tunnara.Database.Command.{
  Result, ok, err, Engine, Exec, pure, ◌>>=◌, ◌>>◌, attempt, ask, call, execute,
}
use tunnara.Database.{write_app_log}
use tunnara.Access.Payload.{parse_i64}
use tunnara.Access.Policy.{setting_text}
use tunnara.Company.Document.{non_empty}
use tunnara.Company.Limiter.{LookupRuntime, lookup, put, sanitize_lookup_cache}
use tunnara.Company.Answers.{as_str, parse_publica_ws_response, parse_receita_ws_response}

pub record ProviderConfig : Type 0 where
  pub key : String
  pub label : String
  pub base_url : String

pub record FetchError : Type 0 where
  pub status : Option ℕ
  pub message : String

-- What `send` gives: its error, or the status and what `text` gives.
pub data Response : Type 0 where
  unsent : String → Response
  received : ℕ → Result String → Response

pub data Fetched : Type 0 where
  body : String → Fetched
  failed : FetchError → Fetched

abbrev pub World : Type 0 → Type 0
World E = E × LookupRuntime

-- What the lookups call and do not implement.
pub record Services (E : Type 0) : Type 0 where
  pub engine : Engine (World E)
  -- `Mutex::lock`: whether no holder of the lock has panicked
  pub lock : World E → Bool × World E
  -- `reqwest::Client::get` and `send` for a URL
  pub get_url : String → World E → Response × World E
  -- `serde_json::from_str`, with the error's text
  pub from_str : String → Result Value

-- `is_success`, and the texts of `fetch_json_text`
unfoldable pub fetched_of : Response → Fetched
fetched_of (unsent e) =
    failed (record { status = none; message = "Falha ao consultar serviço público: " +s e })
fetched_of (received status text) =
    if leb 200 status && leb status 299
    then elim text [
      | ok t ↦ body t
      | err e ↦ failed (record {
        status = some status;
        message = "Falha ao ler resposta do serviço público: " +s e;
      })
    ]
    else failed (record {
      status = some status;
      message = "Serviço público retornou erro HTTP " +s show_ℕ status +s ".";
    })

abbrev pub clamp : ℤ → ℤ → ℤ → ℤ
clamp value min max = if ltb_ℤ value min then min else if ltb_ℤ max value then max else value

-- A count or a number of seconds that `clamp` has made positive.
abbrev pub amount : ℤ → ℕ
amount (pos n) = n
amount (negsuc n) = 0

abbrev pub setting_i64 : Option String → ℤ → ℤ → ℤ → ℤ
setting_i64 raw default_value min max =
    clamp (unwrap_or (and_then raw (λ item. parse_i64 (trim item))) default_value) min max

abbrev pub setting_url : Option String → String → String
setting_url raw default_value = unwrap_or (and_then (map_option trim raw) non_empty) default_value

abbrev pub with_cache_hit : Fields → Fields
with_cache_hit payload =
    insert (insert payload "cache_hit" (bool true)) "message"
      (string "Consulta retornada do cache local.")

abbrev pub with_message : Option String → Fields → Fields
with_message none payload = payload
with_message (some source) payload =
    insert payload "message" (string ("Consulta concluída via " +s source +s "."))

-- What the lookup adds to a parsed answer.
unfoldable pub completed : Fields → Fields
unfolding insert with_message
completed payload =
    let marked = insert payload "cache_hit" (bool false) in
    with_message (and_then (get marked "source") as_str) marked

abbrev pub texts_value : List String → Items
texts_value [] = nil
texts_value (s ∷ ss) = cons (string s) (texts_value ss)

-- What came of one provider.
pub data Tried : Type 0 where
  skipped : String → Tried
  unusable : String → Tried
  found : Fields → Tried

module _ {E : Type 0} (services : Services E) where
  abbrev pub Lookup : Type 0 → Type 0
  Lookup A = Exec (World E) A

  -- A block that holds the lock of the runtime, if the lock can be had.
  abbrev pub locked : {A : Type 0} → (LookupRuntime → A × LookupRuntime) → Lookup (Option A)
  locked f = ask services.lock >>= λ free.
      if free then ask (λ w. let (a, runtime) = f w.1 in (some a, (w.0, runtime))) else pure none

  abbrev pub get_setting : String → Lookup (Option String)
  get_setting key =
      execute services.engine ("Falha ao consultar configuração " +s key +s ": ") (setting_text key)

  unfoldable pub get_setting_i64 : String → ℤ → ℤ → ℤ → Lookup ℤ
  unfolding setting_i64
  get_setting_i64 key default_value min max = do
    raw ← get_setting key
    pure (setting_i64 raw default_value min max)

  unfoldable pub get_setting_url : String → String → Lookup String
  get_setting_url key default_value = do raw ← get_setting key; pure (setting_url raw default_value)

  abbrev pub log_if : Result (Unit {0}) → String → String → Value → Lookup (Unit {0})
  log_if (err e) level message details = pure tt
  log_if (ok u) level message details =
      attempt (
        write_app_log services.engine (some "#/empresas") level "company_lookup" message
          (some details))
      >> pure tt

  unfoldable pub provider_log : String → String → Value → Lookup (Unit {0})
  provider_log level message details = do
    ready ← attempt (call services.engine.data_dir)
    log_if ready level message details

  unfoldable pub fetch_json_text : String → Lookup Fetched
  unfolding fetched_of
  fetch_json_text url = do response ← ask (services.get_url url); pure (fetched_of response)

  -- The answer kept for those digits, where it has not expired.
  abbrev pub cached : String → ℕ → LookupRuntime → Option Fields × LookupRuntime
  cached digits now_ts runtime =
      let sane = sanitize_lookup_cache now_ts runtime in
      (map_option (λ hit. with_cache_hit hit.payload) (lookup digits sane.cache), sane)

  abbrev pub keep : String → ℕ → Fields → LookupRuntime → Unit {0} × LookupRuntime
  keep digits expires_at payload runtime = (
    tt,
    record runtime {
      cache = put digits (record { expires_at = expires_at; payload = payload }) runtime.cache;
    },
  )

  abbrev pub parse_answer : String → Option String → String → Result Fields
  parse_answer key uf_hint text =
      if str_eq key "publica_cnpj_ws"
      then parse_publica_ws_response services.engine.to_uppercase services.from_str text uf_hint
      else parse_receita_ws_response services.engine.to_uppercase services.from_str text
