-- ===== src/Company/Lookup/Rounds.antt =====
-- The rounds of a lookup return only what a service answered (Company/Lookup.antt).
use tunnara.Prelude.{
  ◌≤◌, leb, ◌&&◌, Bool-cases, arith, ◌≡◌, refl, sym, ap, inl, inr, ℕ, ◌+◌, Bool, true, false,
  Option, none, some, String, List, [], ◌∷◌, if◌then◌else◌, ◌++◌,
}
use mathlib.Core.Path.{subst}
use tunnara.Prelude.Text.{◌++◌ as ◌+s◌}
use tunnara.Value.{Fields}
use tunnara.Database.Command.{Result, ok, err, pure, ask, ◌>>◌}
use tunnara.Company.Limiter.{LookupCacheEntry, provider_can_run, provider_mark_cooldown}
use tunnara.Company.Limiter.Entries.{mem-put}
use tunnara.Company.Lookup.Steps.{
  ProviderConfig, Fetched, FetchError, body, failed, World, Services, fetched_of, Response, unsent,
  received, completed, Tried, skipped, unusable, found, keep, parse_answer, fetch_json_text, amount,
}
use tunnara.Company.Lookup.{
  Question, is_429, cool_down, report_429, refused, accepted, judged, url_of, asked, try_provider,
  give_up, try_all,
}
use tunnara.Database.Command.Yields.{
  Yields, Always, Yields-pure, Yields-raise, Yields-ask, Yields-bind, Yields-then, Yields-done,
}
use tunnara.Company.Lookup.Sourced.{
  Answer, Sound, Careful, Sourced, OnFound, locked-Yields, provider_log-Yields,
}

module _ {E : Type 0} (services : Services E) (careful : Careful services)
    (question : Question) where
  cool_down-Yields :
      (key : String) → Yields (Sound services) Always (cool_down services question key)
  unfolding provider_mark_cooldown
  cool_down-Yields key =
      Yields-bind _ _
        (locked-Yields services careful {Q = Always}
          (λ runtime. (
            tt,
            provider_mark_cooldown key question.now_ts (amount question.cooldown_seconds) runtime,
          ))
          (λ w h. (h, tt)))
        (λ _ _. Yields-done tt)

  report_429-Yields :
      (provider : ProviderConfig)
      → Yields (Sound services) Always (report_429 services question provider)
  unfolding report_429
  report_429-Yields provider =
      Yields-then _ _ (cool_down-Yields provider.key)
        (λ _. provider_log-Yields services careful _ _ _)

  refused-Yields :
      (provider : ProviderConfig) (e : FetchError)
      → Yields
          (Sound services)
          (OnFound services question.digits)
          (refused services question provider e)
  unfolding refused
  refused-Yields provider e = choose (is_429 e.status)
    where
      choose :
          (b : Bool)
          → Yields (Sound services) (OnFound services question.digits) (
              if b
              then report_429 services question provider
                >> pure
                    (unusable (provider.label +s " indisponível por limite de requisições (429)."))
              else pure (unusable (provider.label +s ": " +s e.message)))
      choose true = Yields-then _ _ (report_429-Yields provider) (λ _. Yields-pure _ tt)
      choose false = Yields-pure _ tt

  keep-Sound :
      (expires_at : ℕ) (payload : Fields) (w : World E)
      → Answer services question.digits payload
      → Sound services w
      → Sound services (w.0, (keep services question.digits expires_at payload w.1).1)
  keep-Sound expires_at payload w answer h digits entry m =
      elim (mem-put question.digits (record { expires_at = expires_at; payload = payload })
        w.1.cache digits entry m) [
          | inl (d, e) ↦
              subst (λ k. Answer services k entry.payload) (sym d)
                (subst (λ (x : LookupCacheEntry). Answer services question.digits x.payload) (sym e)
                  answer)
          | inr n ↦ h digits entry n
        ]

  accepted-Yields :
      (provider : ProviderConfig) (r : Result Fields)
      → ((p : Fields) → r ≡ ok p → Answer services question.digits (completed p))
      → Yields
          (Sound services)
          (OnFound services question.digits)
          (accepted services question provider r)
  unfolding accepted
  accepted-Yields provider (err e) k = Yields-pure _ tt
  accepted-Yields provider (ok p) k =
      Yields-bind _ _
        (locked-Yields services careful {Q = Always}
          (keep services question.digits (question.now_ts + amount question.cache_ttl_seconds)
            (completed p))
          (λ w h. (keep-Sound _ (completed p) w (k p refl) h, tt)))
        (λ _ _. Yields-pure _ (k p refl))

  -- Only an answer with success gives a text.
  fetched_of-body :
      (r : Response) (text : String)
      → fetched_of r ≡ body text
      → (status : ℕ) × (200 ≤ status) × (status ≤ 299) × (r ≡ received status (ok text))
  unfolding fetched_of
  fetched_of-body (unsent e) text h = cc
  fetched_of-body (received status (ok t)) text h =
      elim (Bool-cases (leb 200 status && leb status 299)) [
        | inl good ↦
            let same : t ≡ text = ground arith in
            (status, ground arith, ground arith, ap (λ u. received status (ok u)) same)
        | inr bad ↦ ground arith
      ]
  fetched_of-body (received status (err e)) text h =
      elim (Bool-cases (leb 200 status && leb status 299)) [
        | inl good ↦ ground arith
        | inr bad ↦ ground arith
      ]

  -- What a request of that URL gave.
  abbrev Got : String → Fetched → Type 0
  Got url fetched = (world : World E) × (fetched_of (services.get_url url world).0 ≡ fetched)

  fetch-Yields : (url : String) → Yields (Sound services) (Got url) (fetch_json_text services url)
  unfolding fetch_json_text
  fetch-Yields url =
      Yields-bind {Q = λ r. Got url (fetched_of r)} (ask (services.get_url url)) _
        (Yields-ask (services.get_url url) (λ w h. (careful.get_url url w h, (w, refl))))
        (λ r got. Yields-pure _ got)

  judged-Yields :
      (provider : ProviderConfig) (fetched : Fetched)
      → Got (url_of services question provider) fetched
      → Yields
          (Sound services)
          (OnFound services question.digits)
          (judged services question provider fetched)
  unfolding judged url_of
  judged-Yields provider (body text) (world, got) =
      let answer = (services.get_url (url_of services question provider) world).0 in
      let (code_of, low, high, answering) = fetched_of-body answer text got in
      accepted-Yields provider (parse_answer services provider.key question.uf_hint text)
        λ p parsing. record {
          provider = provider;
          world = world;
          uf_hint = question.uf_hint;
          text = text;
          parsed = p;
          status = code_of;
          success = (low, high);
          answering = answering;
          parsing = parsing;
          completing = refl;
        }
  judged-Yields provider (failed e) got = refused-Yields provider e

  asked-Yields :
      (provider : ProviderConfig) (allowed : Option (Result (Unit {0})))
      → Yields
          (Sound services)
          (OnFound services question.digits)
          (asked services question provider allowed)
  unfolding asked
  asked-Yields provider none = Yields-raise _
  asked-Yields provider (some (err reason)) = Yields-pure _ tt
  asked-Yields provider (some (ok u)) =
      Yields-bind _ _ (fetch-Yields (url_of services question provider)) (judged-Yields provider)

  try_provider-Yields :
      (provider : ProviderConfig)
      → Yields
          (Sound services)
          (OnFound services question.digits)
          (try_provider services question provider)
  unfolding try_provider provider_can_run
  try_provider-Yields provider =
      Yields-bind _ _
        (locked-Yields services careful {Q = Always}
          (provider_can_run provider.key question.now_ts question.limit_per_minute)
          (λ w h. (h, tt)))
        (λ allowed _. asked-Yields provider allowed)

  give_up-Yields :
      {Q : Fields → Type 0} (attempt_errors skips : List String)
      → Yields (Sound services) Q (give_up services question attempt_errors skips)
  unfolding give_up
  give_up-Yields attempt_errors skips =
      Yields-then _ _ (provider_log-Yields services careful _ _ _) (λ _. Yields-raise _)

  pub try_all-Yields :
      (providers : List ProviderConfig) (attempt_errors skips : List String)
      → Yields
          (Sound services)
          (Sourced services question.digits)
          (try_all services question providers attempt_errors skips)
  unfolding try_all
  try_all-Yields [] attempt_errors skips = give_up-Yields attempt_errors skips
  try_all-Yields (provider ∷ providers) attempt_errors skips =
      Yields-bind _ _ (try_provider-Yields provider) (next (try_all-Yields providers))
    where
      next :
          ((errors skips : List String)
            → Yields
                (Sound services)
                (Sourced services question.digits)
                (try_all services question providers errors skips))
          → (tried : Tried) → OnFound services question.digits tried
          → Yields (Sound services) (Sourced services question.digits) (elim tried [
            | skipped reason ↦
                try_all services question providers attempt_errors (skips ++ (reason ∷ []))
            | unusable reason ↦
                try_all services question providers (attempt_errors ++ (reason ∷ [])) skips
            | found payload ↦ pure payload
          ])
      next rest (skipped reason) q = rest attempt_errors (skips ++ (reason ∷ []))
      next rest (unusable reason) q = rest (attempt_errors ++ (reason ∷ [])) skips
      next rest (found payload) q = Yields-pure payload (inl q)
