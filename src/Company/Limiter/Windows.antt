-- ===== src/Company/Limiter/Windows.antt =====
-- Counters of requests that keep no times, one for each key, and what callers of the limiter
-- see (Company/Limiter.antt).
use tunnara.Prelude.{
  ℕ, ◌+◌, ◌-◌, ◌≤◌, Option, none, some, String, List, [], ◌∷◌, if◌then◌else◌, leb, ltb, str_eq,
}
use tunnara.Prelude.Text.{◌++◌ as ◌+s◌, show_ℕ}
use tunnara.Database.Command.{Result, ok, err}
use tunnara.Company.Limiter.{LookupRuntime, provider_can_run, provider_mark_cooldown}

pub record Window : Type 0 where
  pub start : ℕ
  pub count : ℕ
  pub cooldown_until : ℕ

pub data Request : Type 0 where
  attempt : String → ℕ → ℕ → Request
  cool : String → ℕ → ℕ → Request

-- What the callers of the limiter see.
abbrev pub answers : List Request → LookupRuntime → List (Result (Unit {0}))
answers [] runtime = []
answers (attempt key now limit ∷ requests) runtime =
    (provider_can_run key now limit runtime).0
    ∷ answers requests (provider_can_run key now limit runtime).1
answers (cool key now seconds ∷ requests) runtime =
    answers requests (provider_mark_cooldown key now seconds runtime)

-- A window lasts a minute and begins with the first request after the last one.
abbrev pub current : ℕ → Option Window → Window
current now none = record { start = now; count = 0; cooldown_until = 0 }
current now (some w) = if leb (w.start + 60) now then record w { start = now; count = 0 } else w

abbrev pub judge : ℕ → ℕ → Window → Result (Unit {0}) × Window
judge now limit w =
    if ltb now w.cooldown_until
    then (err ("Provedor em cooldown por " +s show_ℕ (w.cooldown_until - now) +s " segundo(s)."), w)
    else if leb limit w.count
    then (err ("Limite por minuto atingido (" +s show_ℕ limit +s " req/min)."), w)
    else (ok tt, record w { count = w.count + 1 })

abbrev pub paused : ℕ → ℕ → Option Window → Window
paused now seconds none = record { start = now; count = 0; cooldown_until = now + seconds }
paused now seconds (some w) = record w { cooldown_until = now + seconds }

abbrev pub update : (String → Option Window) → String → Window → String → Option Window
update windows key w k = if str_eq key k then some w else windows k

-- The answers of the counters, one for each key.
abbrev pub verdicts : List Request → (String → Option Window) → List (Result (Unit {0}))
verdicts [] windows = []
verdicts (attempt key now limit ∷ requests) windows =
    (judge now limit (current now (windows key))).0
    ∷ verdicts requests (update windows key (judge now limit (current now (windows key))).1)
verdicts (cool key now seconds ∷ requests) windows =
    verdicts requests (update windows key (paused now seconds (windows key)))

-- The clock does not go back.
abbrev pub InOrder : ℕ → List Request → Type 0
InOrder last [] = Unit
InOrder last (attempt key now limit ∷ requests) = (last ≤ now) × InOrder now requests
InOrder last (cool key now seconds ∷ requests) = (last ≤ now) × InOrder now requests
