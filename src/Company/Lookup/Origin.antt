-- ===== src/Company/Lookup/Origin.antt =====
-- A lookup returns only what a service answered (Company/Lookup.antt).
use tunnara.Prelude.{
  ◌≡◌, refl, inr, Bool, not, Option, none, some, String, List, [], ltb, ◌==◌, filter, map_option,
}
use tunnara.Prelude.Members.{Memᴰ, mem-filter}
use Prim.Native.String as Native
use tunnara.Value.{Fields}
use tunnara.Database.Command.{State, ask}
use tunnara.Prelude.Int.{pos}
use tunnara.Access.Policy.{connect}
use tunnara.Access.Save.{refuse_if}
use tunnara.Company.Document.{only_digits}
use tunnara.Company.Limiter.{LookupCacheEntry, lookup, sanitize_lookup_cache}
use tunnara.Company.Limiter.Entries.{lookup-mem}
use tunnara.Company.Lookup.Steps.{World, Services, with_cache_hit, cached}
use tunnara.Company.Lookup.{Question, from_cache, look_up, question_of, company_lookup_cnpj}
use tunnara.Database.Command.Yields.{
  Yields, OnOk, Yields-pure, Yields-raise, Yields-bind, Yields-then, Yields-refuse,
}
use tunnara.Company.Lookup.Sourced.{
  Answer, Sound, Careful, Sourced, OnSome, locked-Yields, connect-Yields, get_setting_i64-Yields,
  providers_of-Yields, utc_now-Yields,
}
use tunnara.Company.Lookup.Rounds.{try_all-Yields}

module _ {E : Type 0} (services : Services E) (careful : Careful services)
    (question : Question) where
  -- What is in the cache, once the expired answers are out of it.
  cached-Sound :
      (w : World E)
      → Sound services w
      → Sound services (w.0, (cached services question.digits question.now_ts w.1).1)
        × OnSome services
            (Sourced services question.digits)
            (cached services question.digits question.now_ts w.1).0
  unfolding cached sanitize_lookup_cache
  cached-Sound w h = (kept, hit (lookup question.digits sane) refl)
    where
      fresh : String × LookupCacheEntry → Bool
      fresh e = ltb question.now_ts e.1.expires_at

      sane : List (String × LookupCacheEntry)
      sane = filter fresh w.1.cache

      kept :
          (digits : String) (entry : LookupCacheEntry)
          → Memᴰ (digits, entry) sane
          → Answer services digits entry.payload
      kept digits entry m = h digits entry (mem-filter fresh w.1.cache (digits, entry) m).0

      hit :
          (o : Option LookupCacheEntry)
          → lookup question.digits sane ≡ o
          → OnSome services
              (Sourced services question.digits)
              (map_option (λ e. with_cache_hit e.payload) o)
      hit none e = tt
      hit (some entry) e = inr (
        entry.payload,
        kept question.digits entry (lookup-mem question.digits sane entry e),
        refl,
      )

  from_cache-Yields :
      (seen : Option (Option Fields))
      → OnSome services (OnSome services (Sourced services question.digits)) seen
      → Yields
          (Sound services)
          (Sourced services question.digits)
          (from_cache services question seen)
  unfolding from_cache
  from_cache-Yields none q = Yields-raise _
  from_cache-Yields (some (some payload)) q = Yields-pure payload q
  from_cache-Yields (some none) q =
      Yields-then _ _ (providers_of-Yields services careful)
        (λ providers. try_all-Yields services careful question providers [] [])

  look_up-Yields :
      Yields (Sound services) (Sourced services question.digits) (look_up services question)
  unfolding look_up
  look_up-Yields =
      Yields-bind _ _
        (locked-Yields services careful {Q = OnSome services (Sourced services question.digits)}
          (cached services question.digits question.now_ts) cached-Sound)
        from_cache-Yields

module _ {E : Type 0} (services : Services E) (careful : Careful services) where
  lookup_cnpj-Yields :
      (documento : String) (uf : Option String)
      → Yields
          (Sound services)
          (Sourced services (only_digits documento))
          (company_lookup_cnpj services documento uf)
  unfolding company_lookup_cnpj
  lookup_cnpj-Yields documento uf =
      let setting = get_setting_i64-Yields services careful in
      Yields-then (connect services.engine) _ (connect-Yields services careful) λ _.
        Yields-then (refuse_if (not (Native.len (only_digits documento) == 14)) _) _
          (Yields-refuse _ _)
          λ _. Yields-then (ask services.engine.utc_now) _ (utc_now-Yields services careful) λ t.
            Yields-then _ _
              (setting "company_lookup_rate_limit_per_minute" (pos 3) (pos 1) (pos 30))
              λ limit.
                Yields-then _ _
                  (setting "company_lookup_cooldown_seconds" (pos 90) (pos 15) (pos 900))
                  λ cooldown.
                    Yields-then _ _
                      (setting "company_lookup_cache_ttl_seconds" (pos 120) (pos 10) (pos 1800))
                      λ ttl.
                        look_up-Yields services careful
                          (question_of services documento uf t limit cooldown ttl)

  -- Where the cache holds only answers of the services, and the environment and other lookups
  -- keep that, a lookup keeps it too, however it ends; and what it returns, where it returns, is
  -- what one of the parsers made of the text with which a service answered a request for the
  -- document's digits with success, or such an answer from the cache, marked as such.
  pub company_lookup_cnpj-Sourced :
      (documento : String) (uf : Option String) (s : State (World E))
      → Sound services s.env
      → Sound services (company_lookup_cnpj services documento uf s).1.env
        × OnOk
            (Sourced services (only_digits documento))
            (company_lookup_cnpj services documento uf s).0
  company_lookup_cnpj-Sourced documento uf s h = (lookup_cnpj-Yields documento uf).at s h
