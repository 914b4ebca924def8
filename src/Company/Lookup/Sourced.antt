-- ===== src/Company/Lookup/Sourced.antt =====
-- Where the answers of the lookups come from (Company/Lookup.antt).
use tunnara.Prelude.{ℕ, ◌≤◌, ◌≡◌, ◌⊎◌, Bool, true, false, Option, none, some, String, if◌then◌else◌}
use tunnara.Prelude.Members.{Memᴰ}
use tunnara.Prelude.Text.{◌++◌ as ◌+s◌, trim_end_matches}
use tunnara.Value.{Value, Fields}
use tunnara.Database.Tables.{Database, AppLog}
use tunnara.Database.Command.{Result, ok, err, pure, ask, call, execute}
use tunnara.Database.Command.Yields.{
  Yields, Always, Yields-pure, Yields-ask, Yields-call, Yields-bind, Yields-execute, Yields-done,
  yields_rules,
}
use tunnara.Company.Limiter.{LookupCacheEntry, LookupRuntime}
use tunnara.Prelude.Int.{ℤ}
use tunnara.Database.{open_connection, write_app_log}
use tunnara.Access.Policy.{connect}
use tunnara.Company.Lookup.Steps.{
  provider_log, log_if, get_setting_i64, get_setting_url, ProviderConfig, World, Services, received,
  with_cache_hit, completed, Tried, found, locked, parse_answer,
}
use tunnara.Company.Lookup.{providers_of}

module _ {E : Type 0} (services : Services E) where
  -- `payload` completes what one of the two parsers made of the text with which a service
  -- answered a request for those digits with success.
  pub record Answer (digits : String) (payload : Fields) : Type 0 where
    pub provider : ProviderConfig
    pub world : World E
    pub uf_hint : Option String
    pub text : String
    pub parsed : Fields
    pub status : ℕ
    pub success : (200 ≤ status) × (status ≤ 299)
    pub answering :
        (services.get_url (trim_end_matches b'/' provider.base_url +s "/" +s digits) world).0
        ≡ received status (ok text)
    pub parsing : parse_answer services provider.key uf_hint text ≡ ok parsed
    pub completing : payload ≡ completed parsed

  -- The cache holds nothing else.
  abbrev pub Sound : World E → Type 0
  Sound w =
      (digits : String) (entry : LookupCacheEntry)
      → Memᴰ (digits, entry) w.1.cache
      → Answer digits entry.payload

  -- Whatever the environment does, and other lookups during a request, keeps that.
  pub record Careful : Type 0 where
    pub utc_now : (w : World E) → Sound w → Sound (services.engine.utc_now w).1
    pub fault : (w : World E) → Sound w → Sound (services.engine.fault w).1
    pub db_path : (w : World E) → Sound w → Sound (services.engine.db_path w).1
    pub data_dir : (w : World E) → Sound w → Sound (services.engine.data_dir w).1
    pub append_log : (l : AppLog) (w : World E) → Sound w → Sound (services.engine.append_log l w).1
    pub lock : (w : World E) → Sound w → Sound (services.lock w).1
    pub get_url : (url : String) (w : World E) → Sound w → Sound (services.get_url url w).1

  -- What a lookup may return.
  abbrev pub Sourced : String → Fields → Type 0
  Sourced digits payload =
      Answer digits payload
      ⊎ ((kept : Fields) × Answer digits kept × (payload ≡ with_cache_hit kept))

  abbrev pub OnSome : {A : Type 0} → (A → Type 0) → Option A → Type 0
  OnSome Q none = Unit
  OnSome Q (some a) = Q a

  abbrev pub OnFound : String → Tried → Type 0
  OnFound digits (found payload) = Answer digits payload
  OnFound digits _ = Unit

module _ {E : Type 0} (services : Services E) (careful : Careful services) where
  pub locked-Yields :
      {A : Type 0} {Q : A → Type 0} (f : LookupRuntime → A × LookupRuntime)
      → ((w : World E) → Sound services w → Sound services (w.0, (f w.1).1) × Q (f w.1).0)
      → Yields (Sound services) (OnSome services Q) (locked services f)
  locked-Yields {A} {Q} f k =
      Yields-bind (ask services.lock) _
        (Yields-ask {Q = Always} services.lock (λ w h. (careful.lock w h, tt)))
        λ free _. inside free
    where
      inside :
          (free : Bool)
          → Yields (Sound services) (OnSome services Q) (
              if free
              then ask (λ w. let (a, runtime) = f w.1 in (some a, (w.0, runtime)))
              else pure none)
      inside true = Yields-ask _ k
      inside false = Yields-pure none tt

  execute-Yields :
      {A : Type 0} (context : String) (statement : Database → Result (A × Database))
      → Yields (Sound services) Always (execute services.engine context statement)
  execute-Yields context statement = Yields-execute services.engine context statement careful.fault

  db_path-Yields : Yields (Sound services) Always (call services.engine.db_path)
  db_path-Yields = Yields-call services.engine.db_path careful.db_path

  data_dir-Yields : Yields (Sound services) Always (call services.engine.data_dir)
  data_dir-Yields = Yields-call services.engine.data_dir careful.data_dir

  append_log-Yields :
      (l : AppLog) → Yields (Sound services) Always (call (services.engine.append_log l))
  append_log-Yields l = Yields-call (services.engine.append_log l) (careful.append_log l)

  pub utc_now-Yields : Yields (Sound services) Always (ask services.engine.utc_now)
  utc_now-Yields = Yields-ask services.engine.utc_now (λ w h. (careful.utc_now w h, tt))

  pub connect-Yields : Yields (Sound services) Always (connect services.engine)
  unfolding open_connection
  connect-Yields = search (yields_rules, db_path-Yields, execute-Yields)

  write_app_log-Yields :
      (route : Option String) (level category message : String) (details : Option Value)
      → Yields
          (Sound services)
          Always
          (write_app_log services.engine route level category message details)
  unfolding write_app_log
  write_app_log-Yields route level category message details =
      search (yields_rules, utc_now-Yields, execute-Yields, append_log-Yields)

  log_if-Yields :
      (ready : Result (Unit {0})) (level message : String) (details : Value)
      → Yields (Sound services) Always (log_if services ready level message details)
  log_if-Yields (err e) level message details = Yields-done tt
  log_if-Yields (ok u) level message details = search (yields_rules, write_app_log-Yields)

  pub provider_log-Yields :
      (level message : String) (details : Value)
      → Yields (Sound services) Always (provider_log services level message details)
  unfolding provider_log
  provider_log-Yields level message details = search (yields_rules, data_dir-Yields, log_if-Yields)

  pub get_setting_i64-Yields :
      (key : String) (d lo hi : ℤ)
      → Yields (Sound services) Always (get_setting_i64 services key d lo hi)
  unfolding get_setting_i64
  get_setting_i64-Yields key d lo hi = search (yields_rules, execute-Yields)

  get_setting_url-Yields :
      (key d : String) → Yields (Sound services) Always (get_setting_url services key d)
  unfolding get_setting_url
  get_setting_url-Yields key d = search (yields_rules, execute-Yields)

  pub providers_of-Yields : Yields (Sound services) Always (providers_of services)
  unfolding providers_of
  providers_of-Yields = search (yields_rules, get_setting_url-Yields)
