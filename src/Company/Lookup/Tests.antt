-- ===== src/Company/Lookup/Tests.antt =====
-- A run of a lookup: the first service has too many requests, the second answers.
use tunnara.Prelude.{◌≡◌, refl, suc, ℕ, true, none, some, [], if◌then◌else◌}
use tunnara.Prelude.Text.{
  starts_with, trim, trim_end_matches, filter_chars, show_ℕ, eq_ignore_ascii_case,
}
use tunnara.Value.{Fields, string, object, end, field, get, insert}
use tunnara.Logs.{sanitize_log_value}
use tunnara.Database.Command.{Result, ok, err, Engine, State, execute}
use tunnara.Database.{open_connection, write_app_log}
use tunnara.Access.Payload.{parse_i64}
use tunnara.Access.Samples.{clock, tables}
use tunnara.Company.Document.{only_digits}
use tunnara.Company.Limiter.{
  provider_can_run, provider_mark_cooldown, sanitize_lookup_cache, can_run, admit,
  purge_old_requests,
}
use tunnara.Company.Answers.{
  parse_publica_ws_response, parse_receita_ws_response, receita_ws_fields, optional_json_string,
}
use tunnara.Company.Lookup.Steps.{
  World, Services, received, completed, provider_log, fetch_json_text, fetched_of, get_setting_i64,
  get_setting_url,
}
use tunnara.Company.Lookup.{
  company_lookup_cnpj, report_429, judged, try_provider, try_all, providers_of,
}
use tunnara.Company.Lookup.Sourced.{Sound, Careful, Sourced}
use tunnara.Company.Lookup.Origin.{company_lookup_cnpj-Sourced}
use tunnara.Database.Command.Yields.{OnOk}

abbrev engine : Engine (World ℕ)
engine = record {
  utc_now = λ w. (5000000000, w);
  to_rfc3339 = clock.to_rfc3339;
  datetime_now = λ w. ("5", w);
  new_v4 = λ w. ("t", w);
  fault = λ w. (none, w);
  db_path = λ w. (ok tt, w);
  data_dir = λ w. (ok tt, w);
  append_log = λ l w. (ok tt, w);
  argon_hash = λ p w. (ok p, w);
  argon_parse = λ h. none;
  argon_verify = λ p h. true;
  to_lowercase = λ s. s;
  to_uppercase = λ s. s;
  sql_upper = λ s. s;
}

-- The count of the environment is that of the requests.
abbrev web : Services ℕ
web = record {
  engine = engine;
  lock = λ w. (true, w);
  get_url = λ url w. (
    if starts_with "https://publica" url then received 429 (ok "") else received 200 (ok "{}"),
    (suc w.0, w.1),
  );
  from_str = λ text. ok (object (field "nome" (string "Loja") end));
}

abbrev first_state : State (World ℕ)
first_state = record { db = tables; env = (0, record { providers = []; cache = [] }) }

web-Careful : Careful web
web-Careful = record {
  utc_now = λ w h. h;
  fault = λ w h. h;
  db_path = λ w h. h;
  data_dir = λ w h. h;
  append_log = λ l w h. h;
  lock = λ w h. h;
  get_url = λ url w h. h;
}

company_lookup_cnpj-Sourced_example :
    Sound web (company_lookup_cnpj web "11.222.333/0001-81" none first_state).1.env
    × OnOk
        (Sourced web (only_digits "11.222.333/0001-81"))
        (company_lookup_cnpj web "11.222.333/0001-81" none first_state).0
company_lookup_cnpj-Sourced_example =
    company_lookup_cnpj-Sourced web web-Careful "11.222.333/0001-81" none first_state
      (λ digits entry m. elim m [ ])

abbrev answered : Result Fields → Fields
answered (ok r) = r
answered (err m) = end

lookup_run :
    let r = company_lookup_cnpj web "11.222.333/0001-81" none first_state in
    get (answered r.0) "message" ≡ some (string "Consulta concluída via receita_ws.")
unfolding company_lookup_cnpj only_digits filter_chars execute open_connection get_setting_i64
    get_setting_url parse_i64 trim sanitize_lookup_cache providers_of try_all try_provider
    provider_can_run can_run admit purge_old_requests fetch_json_text fetched_of trim_end_matches
    judged report_429 provider_mark_cooldown provider_log write_app_log sanitize_log_value
    parse_publica_ws_response parse_receita_ws_response receita_ws_fields optional_json_string
    completed insert show_ℕ eq_ignore_ascii_case
lookup_run = refl
