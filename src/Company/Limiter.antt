-- ===== src/Company/Limiter.antt =====
-- The rate limit and the cache of the CNPJ lookups in
-- apps/console/src-tauri/src/commands/companies.rs. Times are in seconds since 1970. A `HashMap`
-- is the list of its entries.
pub mod Windows
pub mod Counter
pub mod Entries
use tunnara.Prelude.{
  ℕ, ◌+◌, ◌-◌, Bool, Option, none, some, String, List, [], ◌∷◌, ◌++◌, filter, find, length,
  if◌then◌else◌, leb, ltb, str_eq, map_option, unwrap_or,
}
use tunnara.Prelude.Text.{◌++◌ as ◌+s◌, show_ℕ}
use tunnara.Value.{Fields}
use tunnara.Database.Command.{Result, ok, err}

pub record ProviderRateState : Type 0 where
  pub minute_window_start : ℕ
  pub recent_requests : List ℕ
  pub cooldown_until : ℕ

pub record LookupCacheEntry : Type 0 where
  pub expires_at : ℕ
  pub payload : Fields

pub record LookupRuntime : Type 0 where
  pub providers : List (String × ProviderRateState)
  pub cache : List (String × LookupCacheEntry)

module _ {A : Type 0} where
  -- `HashMap::get` and `HashMap::insert`
  abbrev pub lookup : String → List (String × A) → Option A
  lookup key [] = none
  lookup key ((k, a) ∷ r) = if str_eq k key then some a else lookup key r

  abbrev pub put : String → A → List (String × A) → List (String × A)
  put key b [] = (key, b) ∷ []
  put key b ((k, a) ∷ r) =
      let rest = put key b r in if str_eq k key then (k, b) ∷ r else (k, a) ∷ rest

-- `or_insert_with`
abbrev pub fresh_state : ℕ → ProviderRateState
fresh_state now_ts = record {
  minute_window_start = now_ts;
  recent_requests = [];
  cooldown_until = 0;
}

abbrev pub state_of : String → ℕ → LookupRuntime → ProviderRateState
state_of key now_ts runtime = unwrap_or (lookup key runtime.providers) (fresh_state now_ts)

abbrev pub put_state : String → ProviderRateState → LookupRuntime → LookupRuntime
put_state key state runtime = record runtime { providers = put key state runtime.providers }

unfoldable pub purge_old_requests : ℕ → List ℕ → List ℕ
purge_old_requests now_ts [] = []
purge_old_requests now_ts (ts ∷ rest) =
    let purged = purge_old_requests now_ts rest in
    if leb (ts + 60) now_ts then purged else ts ∷ rest

unfoldable pub sanitize_lookup_cache : ℕ → LookupRuntime → LookupRuntime
sanitize_lookup_cache now_ts runtime = record runtime {
  cache = filter (λ e. ltb now_ts e.1.expires_at) runtime.cache;
}

-- The start of a new window, where a minute has passed since the last one started.
abbrev pub renew : ℕ → ProviderRateState → ProviderRateState
renew now_ts state =
    if leb (state.minute_window_start + 60) now_ts
    then record state { minute_window_start = now_ts; recent_requests = [] }
    else state

unfoldable pub admit : ProviderRateState → ℕ → ℕ → Result (Unit {0}) × ProviderRateState
admit state now_ts limit_per_minute =
    if ltb now_ts state.cooldown_until
    then (
      err ("Provedor em cooldown por " +s show_ℕ (state.cooldown_until - now_ts) +s " segundo(s)."),
      state,
    )
    else if leb limit_per_minute (length state.recent_requests)
    then (err ("Limite por minuto atingido (" +s show_ℕ limit_per_minute +s " req/min)."), state)
    else (ok tt, record state { recent_requests = state.recent_requests ++ (now_ts ∷ []) })

-- `provider_can_run` on the state of the provider.
unfoldable pub can_run : ProviderRateState → ℕ → ℕ → Result (Unit {0}) × ProviderRateState
unfolding purge_old_requests admit
can_run state now_ts limit_per_minute =
    let renewed = renew now_ts state in
    admit (record renewed { recent_requests = purge_old_requests now_ts renewed.recent_requests })
      now_ts limit_per_minute

unfoldable pub provider_can_run : String → ℕ → ℕ → LookupRuntime → Result (Unit {0}) × LookupRuntime
unfolding can_run
provider_can_run key now_ts limit_per_minute runtime =
    let (r, state) = can_run (state_of key now_ts runtime) now_ts limit_per_minute in
    (r, put_state key state runtime)

unfoldable pub provider_mark_cooldown : String → ℕ → ℕ → LookupRuntime → LookupRuntime
provider_mark_cooldown key now_ts cooldown runtime =
    put_state key (record (state_of key now_ts runtime) { cooldown_until = now_ts + cooldown })
      runtime
