-- ===== src/Company/Lookup.antt =====
-- `company_lookup_cnpj` and `company_lookup_ie` in
-- apps/console/src-tauri/src/commands/companies.rs. The environment holds the runtime of the
-- lookups, which each block that has its lock reads and writes at once; what other lookups do
-- meanwhile is part of what a request does to the environment.
pub mod Steps
pub mod Sourced
pub mod Rounds
pub mod Origin
mod Tests
use tunnara.Prelude.{
  ℕ, ◌+◌, ◌/◌, Bool, true, false, not, ◌&&◌, Option, none, some, String, List, [], ◌∷◌, ◌++◌,
  if◌then◌else◌, leb, ltb, str_eq, ◌==◌, and_then, map_option, unwrap_or,
}
use tunnara.Prelude.Int.{ℤ, pos, negsuc, ltb_ℤ}
use tunnara.Prelude.Text.{◌++◌ as ◌+s◌, trim, is_empty, trim_end_matches, show_ℕ, join}
use Prim.Native.String as Native
use tunnara.Value.{
  Value, Items, Fields, bool, string, array, object, nil, cons, end, field, get, insert,
}
use tunnara.Database.Command.{
  Result, ok, err, Engine, State, Exec, pure, raise, lift, ◌>>=◌, ◌>>◌, attempt, ask, call, execute,
}
use tunnara.Database.{write_app_log}
use tunnara.Access.Payload.{parse_i64}
use tunnara.Access.Policy.{connect, setting_text, int_value}
use tunnara.Access.Save.{refuse_if}
use tunnara.Company.Document.{only_digits, non_empty}
use tunnara.Company.Limiter.{
  LookupCacheEntry, LookupRuntime, lookup, put, sanitize_lookup_cache, provider_can_run,
  provider_mark_cooldown,
}
use tunnara.Company.Answers.{
  as_str, optional_json_string, parse_publica_ws_response, parse_receita_ws_response,
}
use tunnara.Company.Lookup.Steps.{
  ProviderConfig, FetchError, Response, Fetched, World, Services, fetched_of, clamp, amount,
  setting_i64, setting_url, with_cache_hit, with_message, completed, texts_value, Tried, Lookup,
  locked, get_setting, get_setting_i64, get_setting_url, log_if, provider_log, fetch_json_text,
  cached, keep, parse_answer, unsent, received, body, failed, skipped, unusable, found,
}

-- What a lookup has read before it asks the providers.
pub record Question : Type 0 where
  pub digits : String
  pub uf_hint : Option String
  pub now_ts : ℕ
  pub limit_per_minute : ℕ
  pub cooldown_seconds : ℤ
  pub cache_ttl_seconds : ℤ

abbrev pub is_429 : Option ℕ → Bool
is_429 none = false
is_429 (some status) = status == 429

module _ {E : Type 0} (services : Services E) (question : Question) where
  abbrev pub cool_down : String → Lookup services (Unit {0})
  cool_down key =
      locked services (λ runtime.
        (tt, provider_mark_cooldown key question.now_ts (amount question.cooldown_seconds) runtime))
      >> pure tt

  unfoldable pub report_429 : ProviderConfig → Lookup services (Unit {0})
  unfolding provider_log provider_mark_cooldown
  report_429 provider = do
    cool_down provider.key
    provider_log services "warning" "Provedor público em cooldown por rate limit." (
        object (
          field "provider" (string provider.key) (
            field "documento" (string question.digits) (
              field "cooldown_seconds" (int_value question.cooldown_seconds)
                (field "http_status" (int_value (pos 429)) end)))))

  abbrev pub refused : ProviderConfig → FetchError → Lookup services Tried
  unfolding report_429
  refused provider e =
      if is_429 e.status
      then report_429 provider
        >> pure (unusable (provider.label +s " indisponível por limite de requisições (429)."))
      else pure (unusable (provider.label +s ": " +s e.message))

  abbrev pub accepted : ProviderConfig → Result Fields → Lookup services Tried
  unfolding completed
  accepted provider (err e) = pure (unusable (provider.label +s ": " +s e))
  accepted provider (ok payload) =
      locked services (
        keep services question.digits (question.now_ts + amount question.cache_ttl_seconds)
          (completed payload))
      >> pure (found (completed payload))

  unfoldable pub judged : ProviderConfig → Fetched → Lookup services Tried
  unfolding refused accepted
  judged provider (body text) =
      accepted provider (parse_answer services provider.key question.uf_hint text)
  judged provider (failed e) = refused provider e

  abbrev pub url_of : ProviderConfig → String
  unfolding trim_end_matches
  url_of provider = trim_end_matches b'/' provider.base_url +s "/" +s question.digits

  abbrev pub asked : ProviderConfig → Option (Result (Unit {0})) → Lookup services Tried
  unfolding fetch_json_text judged url_of
  asked provider none = raise "Falha ao obter lock de rate limit de provedores."
  asked provider (some (err reason)) =
      pure (skipped (provider.label +s " indisponível agora: " +s reason))
  asked provider (some (ok u)) = fetch_json_text services (url_of provider) >>= judged provider

  -- One round of the loop over the providers.
  unfoldable pub try_provider : ProviderConfig → Lookup services Tried
  unfolding asked provider_can_run
  try_provider provider =
      locked services (provider_can_run provider.key question.now_ts question.limit_per_minute)
      >>= asked provider

  -- `Err` of the lookup, after its last log.
  unfoldable pub give_up : List String → List String → Lookup services Fields
  unfolding provider_log join
  give_up attempt_errors skips = do
    provider_log services "warning" "Falha de consulta CNPJ em todos os provedores disponíveis." (
        object (
          field "documento" (string question.digits) (
            field "erros" (array (texts_value attempt_errors))
              (field "indisponiveis" (array (texts_value skips)) end))))
    raise (
        "Não foi possível consultar o CNPJ agora. " +s join " | " attempt_errors +s elim skips [
          | [] ↦ ""
          | s ∷ ss ↦ " Provedores em cooldown/limite: " +s join " | " (s ∷ ss) +s "."
        ])

  -- The loop, with the errors and the skipped providers so far.
  unfoldable pub try_all : List ProviderConfig → List String → List String → Lookup services Fields
  unfolding try_provider give_up
  try_all [] attempt_errors skips = give_up attempt_errors skips
  try_all (provider ∷ providers) attempt_errors skips = try_provider provider >>= λ tried.
      elim tried [
        | skipped reason ↦ try_all providers attempt_errors (skips ++ (reason ∷ []))
        | unusable reason ↦ try_all providers (attempt_errors ++ (reason ∷ [])) skips
        | found payload ↦ pure payload
      ]

module _ {E : Type 0} (services : Services E) where
  unfoldable pub providers_of : Lookup services (List ProviderConfig)
  unfolding get_setting_url
  providers_of = do
    publica ← get_setting_url services "company_lookup_publica_url" "https://publica.cnpj.ws/cnpj/"
    receita ←
        get_setting_url services "company_lookup_receita_url"
          "https://www.receitaws.com.br/v1/cnpj/"
    pure (
        record { key = "publica_cnpj_ws"; label = "Publica CNPJ WS"; base_url = publica }
        ∷ record { key = "receita_ws"; label = "ReceitaWS"; base_url = receita }
        ∷ [])

  -- What the lookup does with what it finds in the cache.
  abbrev pub from_cache : Question → Option (Option Fields) → Lookup services Fields
  unfolding providers_of try_all
  from_cache question none = raise "Falha ao obter lock de consulta de CNPJ."
  from_cache question (some (some payload)) = pure payload
  from_cache question (some none) =
      providers_of >>= λ providers. try_all services question providers [] []

  abbrev pub look_up : Question → Lookup services Fields
  unfolding from_cache
  look_up question =
      locked services (cached services question.digits question.now_ts) >>= from_cache question

  -- `as usize` of the limit, and the seconds of `Utc::now()`.
  abbrev pub question_of : String → Option String → ℕ → ℤ → ℤ → ℤ → Question
  question_of documento uf nanoseconds limit cooldown_seconds cache_ttl_seconds = record {
    digits = only_digits documento;
    uf_hint =
        and_then (map_option (λ value. services.engine.to_uppercase (trim value)) uf) non_empty;
    now_ts = nanoseconds / 1000000000;
    limit_per_minute = amount limit;
    cooldown_seconds = cooldown_seconds;
    cache_ttl_seconds = cache_ttl_seconds;
  }

  unfoldable pub company_lookup_cnpj : String → Option String → Lookup services Fields
  unfolding only_digits get_setting_i64 look_up
  company_lookup_cnpj documento uf = do
    connect services.engine
    refuse_if (not (Native.len (only_digits documento) == 14))
        "Informe um CNPJ válido com 14 dígitos para consulta."
    nanoseconds ← ask services.engine.utc_now
    limit ← get_setting_i64 services "company_lookup_rate_limit_per_minute" (pos 3) (pos 1) (pos 30)
    cooldown_seconds ←
        get_setting_i64 services "company_lookup_cooldown_seconds" (pos 90) (pos 15) (pos 900)
    cache_ttl_seconds ←
        get_setting_i64 services "company_lookup_cache_ttl_seconds" (pos 120) (pos 10) (pos 1800)
    look_up (question_of documento uf nanoseconds limit cooldown_seconds cache_ttl_seconds)

  abbrev pub with_inscription : Fields → Fields
  unfolding optional_json_string insert
  with_inscription payload =
      if is_empty (unwrap_or (optional_json_string (get payload "inscricao_estadual")) "")
      then insert payload "inscricao_estadual" (string "ISENTO")
      else payload

  abbrev pub with_state : Option String → Fields → Fields
  unfolding insert
  with_state none payload = payload
  with_state (some value) payload =
      if is_empty (trim value)
      then payload
      else insert payload "estado" (string (services.engine.to_uppercase (trim value)))

  unfoldable pub company_lookup_ie : String → Option String → Lookup services Fields
  unfolding only_digits company_lookup_cnpj with_inscription with_state
  company_lookup_ie documento uf = do
    refuse_if (not (Native.len (only_digits documento) == 14))
        "Consulta de inscrição estadual é feita via CNPJ. Informe um CNPJ válido com 14 dígitos."
    payload ← company_lookup_cnpj documento uf
    pure (with_state uf (with_inscription payload))
