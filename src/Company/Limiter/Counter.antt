-- ===== src/Company/Limiter/Counter.antt =====
-- The limiter of the CNPJ lookups against a counter for each provider that keeps no times of
-- requests.
use tunnara.Prelude.{
  ℕ, ◌+◌, ◌≤◌, ◌<◌, ◌≡◌, refl, Option, none, some, String, List, [], ◌∷◌, ◌++◌, length, inl, inr,
  true, false, Bool-cases, leb, str_eq, arith, unwrap_or,
}
use tunnara.Company.Limiter.Entries.{lookup-put}
use tunnara.Company.Limiter.{
  ProviderRateState, LookupRuntime, lookup, put, fresh_state, purge_old_requests, admit, can_run,
  provider_can_run, provider_mark_cooldown,
}
use tunnara.Company.Limiter.Windows.{
  Window, Request, attempt, cool, answers, current, judge, paused, update, verdicts, InOrder,
}

-- The requests that are kept are those of the window.
abbrev Since : ℕ → List ℕ → Type 0
Since start [] = Unit
Since start (ts ∷ rest) = (start ≤ ts) × Since start rest

record Tracks (last : ℕ) (state : ProviderRateState) (w : Window) : Type 0 where
  start_eq : state.minute_window_start ≡ w.start
  cooldown_eq : state.cooldown_until ≡ w.cooldown_until
  count_eq : length state.recent_requests ≡ w.count
  since : Since state.minute_window_start state.recent_requests
  past : state.minute_window_start ≤ last

abbrev Follows : ℕ → Option ProviderRateState → Option Window → Type 0
Follows last none none = Unit
Follows last (some state) (some w) = Tracks last state w
Follows last _ _ = ⊥

purge-Since :
    (now start : ℕ) (recent : List ℕ)
    → Since start recent
    → now < start + 60
    → purge_old_requests now recent ≡ recent
unfolding purge_old_requests
purge-Since now start [] h lt = refl
purge-Since now start (ts ∷ rest) h lt = ground arith

Since-append :
    (start now : ℕ) (recent : List ℕ)
    → Since start recent
    → start ≤ now
    → Since start (recent ++ (now ∷ []))
Since-append start now [] h le = (le, tt)
Since-append start now (ts ∷ rest) (h, hs) le = (h, Since-append start now rest hs le)

length-append : (now : ℕ) (recent : List ℕ) → length (recent ++ (now ∷ [])) ≡ length recent + 1
length-append now [] = refl
length-append now (ts ∷ rest) = let ih = length-append now rest in omega arith

admit-Tracks :
    (last now limit : ℕ) (state : ProviderRateState) (w : Window)
    → Tracks last state w
    → last ≤ now
    → ((admit state now limit).0 ≡ (judge now limit w).0)
      × Tracks now (admit state now limit).1 (judge now limit w).1
unfolding admit
admit-Tracks last now limit state w t le =
    let appended = Since-append state.minute_window_start now state.recent_requests t.since in
    let longer = length-append now state.recent_requests in
    (
      ground arith,
      record {
        start_eq = ground arith;
        cooldown_eq = ground arith;
        count_eq = ground arith;
        since = ground arith;
        past = ground arith;
      },
    )

can_run-Tracks :
    (last now limit : ℕ) (state : ProviderRateState) (w : Window)
    → Tracks last state w
    → last ≤ now
    → ((can_run state now limit).0 ≡ (judge now limit (current now (some w))).0)
      × Tracks now (can_run state now limit).1 (judge now limit (current now (some w))).1
unfolding can_run purge_old_requests
can_run-Tracks last now limit state w t le =
    elim (Bool-cases (leb (state.minute_window_start + 60) now)) [
      | inl over ↦
          let over' : leb (w.start + 60) now ≡ true = ground arith in
          rw (over, over')
            (admit-Tracks now now limit
              (record state { minute_window_start = now; recent_requests = [] })
              (record w { start = now; count = 0 })
              (record {
                start_eq = refl;
                cooldown_eq = t.cooldown_eq;
                count_eq = refl;
                since = tt;
                past = omega arith;
              })
              (omega arith))
      | inr within ↦
          let within' : leb (w.start + 60) now ≡ false = ground arith in
          let kept =
            purge-Since now state.minute_window_start state.recent_requests t.since
              (ground arith) in
          rw (within, within', kept) (admit-Tracks last now limit state w t le)
    ]

Tracks-later :
    {last now : ℕ} {state : ProviderRateState} {w : Window}
    → last ≤ now
    → Tracks last state w
    → Tracks now state w
Tracks-later le t = record {
  start_eq = t.start_eq;
  cooldown_eq = t.cooldown_eq;
  count_eq = t.count_eq;
  since = t.since;
  past = omega (arith, t.past, le);
}

Follows-later :
    {last now : ℕ} (state : Option ProviderRateState) (w : Option Window)
    → last ≤ now
    → Follows last state w
    → Follows now state w
Follows-later none none le h = tt
Follows-later (some state) (some w) le t = Tracks-later le t
Follows-later none (some w) le h = elim h [ ]
Follows-later (some state) none le h = elim h [ ]

Follows-update :
    {last now : ℕ} (key : String) (state : ProviderRateState) (w : Window)
    (providers : List (String × ProviderRateState)) (windows : String → Option Window)
    → last ≤ now
    → Tracks now state w
    → ((k : String) → Follows last (lookup k providers) (windows k))
    → (k : String) → Follows now (lookup k (put key state providers)) (update windows key w k)
Follows-update key state w providers windows le t h k = elim (Bool-cases (str_eq key k)) [
  | inl same ↦ rw (lookup-put k key state providers, same) t
  | inr other ↦ rw (lookup-put k key state providers, other) (Follows-later _ _ le (h k))
]

attempt-Tracks :
    (last now limit : ℕ) (state : Option ProviderRateState) (w : Option Window)
    → last ≤ now
    → Follows last state w
    → let known = unwrap_or state (fresh_state now) in
      ((can_run known now limit).0 ≡ (judge now limit (current now w)).0)
      × Tracks now (can_run known now limit).1 (judge now limit (current now w)).1
attempt-Tracks last now limit none none le h =
    let fresh : leb (now + 60) now ≡ false = ground arith in
    rw fresh at (
      can_run-Tracks now now limit (fresh_state now) (current now none)
        (record {
          start_eq = refl;
          cooldown_eq = refl;
          count_eq = refl;
          since = tt;
          past = omega arith;
        })
        (omega arith))
attempt-Tracks last now limit (some state) (some w) le t =
    can_run-Tracks last now limit state w t le
attempt-Tracks last now limit none (some w) le h = elim h [ ]
attempt-Tracks last now limit (some state) none le h = elim h [ ]

cool-Tracks :
    (last now seconds : ℕ) (state : Option ProviderRateState) (w : Option Window)
    → last ≤ now
    → Follows last state w
    → Tracks now
        (record (unwrap_or state (fresh_state now)) { cooldown_until = now + seconds })
        (paused now seconds w)
cool-Tracks last now seconds none none le h = record {
  start_eq = refl;
  cooldown_eq = refl;
  count_eq = refl;
  since = tt;
  past = omega arith;
}
cool-Tracks last now seconds (some state) (some w) le t = record {
  start_eq = t.start_eq;
  cooldown_eq = refl;
  count_eq = t.count_eq;
  since = t.since;
  past = omega (arith, t.past, le);
}
cool-Tracks last now seconds none (some w) le h = elim h [ ]
cool-Tracks last now seconds (some state) none le h = elim h [ ]

answers-Follows :
    (requests : List Request) (last : ℕ) (runtime : LookupRuntime)
    (windows : String → Option Window)
    → InOrder last requests
    → ((key : String) → Follows last (lookup key runtime.providers) (windows key))
    → answers requests runtime ≡ verdicts requests windows
unfolding provider_can_run provider_mark_cooldown
answers-Follows [] last runtime windows order h = refl
answers-Follows (attempt key now limit ∷ requests) last runtime windows (le, order) h =
    let (same, t) =
      attempt-Tracks last now limit (lookup key runtime.providers) (windows key) le (h key) in
    let rest =
      answers-Follows requests now (provider_can_run key now limit runtime).1
        (update windows key (judge now limit (current now (windows key))).1) order
        (Follows-update key _ _ runtime.providers windows le t h) in
    cc
answers-Follows (cool key now seconds ∷ requests) last runtime windows (le, order) h =
    answers-Follows requests now (provider_mark_cooldown key now seconds runtime)
      (update windows key (paused now seconds (windows key))) order
      (Follows-update key _ _ runtime.providers windows le
        (cool-Tracks last now seconds (lookup key runtime.providers) (windows key) le (h key)) h)

-- While the clock does not go back, the answers to any sequence of attempts and cooldowns that
-- starts without providers are those of independent counters, one for each key, that hold the
-- start of a window of a minute, the number of requests admitted in it and the end of the
-- cooldown, but no times of requests.
pub answers-verdicts :
    (requests : List Request) (start : ℕ) (runtime : LookupRuntime)
    → InOrder start requests
    → runtime.providers ≡ []
    → answers requests runtime ≡ verdicts requests (λ key. none)
answers-verdicts requests start runtime order empty =
    answers-Follows requests start runtime (λ key. none) order (λ key. rw empty tt)
