-- ===== src/Access/Guard.antt =====
-- Whom the administration of users, profiles and the policy refuses
-- (Access/Save.antt, Access/Profiles.antt and Access/Policy.antt).
use tunnara.Prelude.{◌≡◌, refl, String}
use tunnara.Prelude.Int.{ℤ}
use tunnara.Value.{Fields}
use tunnara.Database.Command.{Engine, State, Exec, ◌>>=◌, ◌>>◌}
use tunnara.Database.Command.Rules.{bind_at}
use tunnara.Database.Keeping.{accounts}
use tunnara.Access.Policy.{connect, ensure_master, user_policy_save}
use tunnara.Access.Policy.Master.{
  Authorised, time_of, connect-Stable, ensure_master-Stable, connected, ensure_master-eq_ok,
}
use tunnara.Access.Profiles.{profile_save, profile_delete}
use tunnara.Access.Save.{user_save, user_delete}

module _ {E : Type 0} (engine : Engine E) where
  -- The token is not that of an unexpired session of an active master.
  abbrev pub Unauthorised : String → State E → Type 0
  Unauthorised token s = (i : ℤ) → ¬ Authorised s.db token (time_of engine s) i

  refused :
      {A : Type 0} (token : String) (f : ℤ → Exec E A) (s : State E)
      → Unauthorised token s
      → accounts ((connect engine >> (ensure_master engine token >>= f)) s).1.db ≡ accounts s.db
  refused token f s u =
      bind_at (connect engine) (λ _. ensure_master engine token >>= f) s
        (λ db. accounts db ≡ accounts s.db)
        ((connect-Stable engine {P = λ db. accounts db ≡ accounts s.db}).at s refl)
        λ _ s₁ h₁ p₁.
          bind_at (ensure_master engine token) f s₁ (λ db. accounts db ≡ accounts s.db)
            ((ensure_master-Stable engine {P = λ db. accounts db ≡ accounts s.db} (λ t n db p. p)
                token).at
              s₁ p₁)
            λ i s₂ h₂ p₂.
              let (authorised, _) = ensure_master-eq_ok engine token s₁ s₂ i h₂ in
              absurd (u i (connected engine token s s₁ i h₁ authorised))

  -- With a token that is not that of an unexpired session of an active master, no command of the
  -- administration changes users, profiles, permissions, links or settings, whatever it is given
  -- and however it ends.
  pub administration-Unauthorised :
      (token : String) (s : State E) (payload : Fields) (id : ℤ)
      → Unauthorised token s
      → (accounts (user_save engine token payload s).1.db ≡ accounts s.db)
        × (accounts (user_delete engine token id s).1.db ≡ accounts s.db)
        × (accounts (profile_save engine token payload s).1.db ≡ accounts s.db)
        × (accounts (profile_delete engine token id s).1.db ≡ accounts s.db)
        × (accounts (user_policy_save engine token payload s).1.db ≡ accounts s.db)
  unfolding user_save user_delete profile_save profile_delete user_policy_save
  administration-Unauthorised token s payload id u = (
    refused token _ s u,
    refused token _ s u,
    refused token _ s u,
    refused token _ s u,
    refused token _ s u,
  )
