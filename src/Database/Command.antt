-- ===== src/Database/Command.antt =====
-- Commands on the database: each statement is one step, which the engine may refuse, and what
-- was written before an error stays written, since the code opens no transaction.
pub mod Rules
pub mod Yields
use tunnara.Prelude.{ℕ, Bool, Option, none, some, String, List, [], ◌∷◌}
use tunnara.Prelude.Text.{◌++◌}
use tunnara.Database.Tables.{Database, AppLog}

-- `Result<A, String>`
pub data Result (A : Type 0) : Type 0 where
  ok : A → Result A
  err : String → Result A

-- What the code calls and does not implement, on the state `E` of the environment.
pub record Engine (E : Type 0) : Type 0 where
  -- `Utc::now()` in nanoseconds, and `to_rfc3339` of such a time
  pub utc_now : E → ℕ × E
  pub to_rfc3339 : ℕ → String
  -- SQLite's `datetime('now')`
  pub datetime_now : E → String × E
  -- `Uuid::new_v4().to_string()`
  pub new_v4 : E → String × E
  -- the error with which the database refuses its next operation, if it does
  pub fault : E → Option String × E
  -- `SharedState::db_path` and `data_dir`: whether the application is initialised
  pub db_path : E → Result (Unit {0}) × E
  pub data_dir : E → Result (Unit {0}) × E
  -- the lines of `app.log`: `create_dir_all`, `open` and `write_all`, with the error's text
  pub append_log : AppLog → E → Result (Unit {0}) × E
  -- Argon2: a hash, or the error's text; the parsing of a hash; the comparison
  pub argon_hash : String → E → Result String × E
  pub argon_parse : String → Option String
  pub argon_verify : String → String → Bool
  -- `str::to_lowercase` and `str::to_uppercase`
  pub to_lowercase : String → String
  pub to_uppercase : String → String
  -- SQLite's `UPPER`
  pub sql_upper : String → String

pub record State (E : Type 0) : Type 0 where
  pub db : Database
  pub env : E

abbrev pub Exec : Type 0 → Type 0 → Type 0
Exec E A = State E → Result A × State E

module _ {E : Type 0} where
  abbrev pub pure : {A : Type 0} → A → Exec E A
  pure a s = (ok a, s)

  abbrev pub raise : {A : Type 0} → String → Exec E A
  raise m s = (err m, s)

  -- `?` on a result that is at hand.
  abbrev pub lift : {A : Type 0} → Result A → Exec E A
  lift r s = (r, s)

  abbrev pub continue : {A B : Type 0} → Result A → (A → Exec E B) → Exec E B
  continue (ok a) f s = f a s
  continue (err m) f s = (err m, s)

  infixl 5 ◌>>=◌ ◌>>◌
  abbrev pub ◌>>=◌ : {A B : Type 0} → Exec E A → (A → Exec E B) → Exec E B
  ◌>>=◌ m f s = let (r, s') = m s in continue r f s'

  abbrev pub ◌>>◌ : {A B : Type 0} → Exec E A → Exec E B → Exec E B
  m >> n = m >>= λ _. n

  -- `let _ = …` and `match … { … }`: the result is a value.
  abbrev pub attempt : {A : Type 0} → Exec E A → Exec E (Result A)
  attempt m s = let (r, s') = m s in (ok r, s')

  -- `for a in …`: up to the first error.
  abbrev pub for_each : {A : Type 0} → List A → (A → Exec E (Unit {0})) → Exec E (Unit {0})
  for_each [] f = pure tt
  for_each (a ∷ as') f = f a >> for_each as' f

  -- A call into the environment.
  abbrev pub ask : {A : Type 0} → (E → A × E) → Exec E A
  ask c s = let (a, e) = c s.env in (ok a, record s { env = e })

  abbrev pub call : {A : Type 0} → (E → Result A × E) → Exec E A
  call c s = let (r, e) = c s.env in (r, record s { env = e })

module _ {E : Type 0} (engine : Engine E) where
  -- A statement that the database runs: what a constraint refuses changes nothing.
  abbrev pub settle : {A : Type 0} → String → Result (A × Database) → Exec E A
  settle context (ok (a, db)) s = (ok a, record s { db = db })
  settle context (err m) s = (err (context ++ m), s)

  abbrev pub run :
      {A : Type 0} → String → (Database → Result (A × Database)) → Option String → Exec E A
  run context body none s = settle context (body s.db) s
  run context body (some m) s = (err (context ++ m), s)

  -- One operation of the database, with the text that `map_err` puts before its error.
  unfoldable pub execute : {A : Type 0} → String → (Database → Result (A × Database)) → Exec E A
  execute context body = ask engine.fault >>= run context body

  abbrev pub query : {A : Type 0} → String → (Database → A) → Exec E A
  query context f = execute context (λ db. ok (f db, db))

  abbrev pub update : String → (Database → Database) → Exec E (Unit {0})
  update context f = execute context (λ db. ok (tt, f db))

  -- `prepare`, `query_map` and `collect`, each with its own error.
  abbrev pub select : {A : Type 0} → String → String → String → (Database → A) → Exec E A
  select preparing querying mapping f =
      query preparing (λ _. tt) >> (query querying (λ _. tt) >> query mapping f)

  -- `Utc::now().to_rfc3339()`
  abbrev pub now_rfc3339 : Exec E String
  now_rfc3339 = ask engine.utc_now >>= λ t. pure (engine.to_rfc3339 t)
