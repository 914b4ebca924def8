-- ===== src/License/Answers/Laws.antt =====
-- What holds of the records that are read out of JSON answers (License/Answers.antt).
use tunnara.Prelude.{
  ℕ, ◌+◌, ◌-◌, ◌<◌, ◌≤◌, ◌^◌, ◌≡◌, refl, true, ◌⊎◌, inl, inr, Option, none, some, String, arith,
  Option-cases, and_then, map_option,
}
use tunnara.License.Models.{LicenseRecord, LicenseDecision}
use tunnara.License.Error.{LicenseError, serde}
use tunnara.License.World.{ok, err}
use tunnara.License.Json.{Json, Formats, as_object, as_u64}
use tunnara.License.Normalize.{as_u32, no_license, devices_left, parse_bool, u32_at}
use tunnara.License.Answers.{
  max_devices_from, devices_in_use_from, license_from, normalize_license, decision_from,
  normalize_activation_decision,
}

-- The device counts of a licence agree.
abbrev pub Counted : LicenseRecord → Type 0
Counted l =
    ((m : ℕ) → l.max_devices ≡ some m → m < 2 ^ 32)
    × ((u : ℕ) → l.devices_in_use ≡ some u → u < 2 ^ 32)
    × ((k : ℕ)
        → l.devices_available ≡ some k
        → (m : ℕ) × (u : ℕ) × (l.max_devices ≡ some m) × (l.devices_in_use ≡ some u) × (u + k ≡ m))
    × ((m u : ℕ)
        → l.max_devices ≡ some m
        → l.devices_in_use ≡ some u
        → u ≤ m
        → (k : ℕ) × (l.devices_available ≡ some k))

devices_left-eq_some :
    (a b : Option ℕ) (k : ℕ)
    → devices_left a b ≡ some k
    → (m : ℕ) × (u : ℕ) × (a ≡ some m) × (b ≡ some u) × (u + k ≡ m)
devices_left-eq_some (some m) (some u) k h = (m, u, refl, refl, ground arith)
devices_left-eq_some none b k h = cc
devices_left-eq_some (some m) none k h = cc

devices_left-IsSome :
    (a b : Option ℕ) (m u : ℕ)
    → a ≡ some m
    → b ≡ some u
    → u ≤ m
    → (k : ℕ) × (devices_left a b ≡ some k)
devices_left-IsSome a b m u ha hb h = (m - u, ground arith)

map_option-lt : (o : Option ℕ) (n : ℕ) → map_option as_u32 o ≡ some n → n < 2 ^ 32
map_option-lt none n h = cc
map_option-lt (some x) n h = ground arith

module _ {V : Type 0} (j : Json V) (f : Formats) where
  u32_at-lt :
      (key : String) (get : String → Option V) (n : ℕ) → u32_at j f key get ≡ some n → n < 2 ^ 32
  u32_at-lt key get n h = map_option-lt (and_then (get key) (as_u64 j)) n h

  license_from-Counted : (get : String → Option V) → Counted (license_from j f get)
  unfolding license_from
  license_from-Counted get = (
    λ m h. ground (
      arith,
      u32_at-lt "max_devices" get m,
      u32_at-lt "QTD_MAQ" get m,
      u32_at-lt "n_maquinas" get m,
    ),
    λ u h. ground (arith, u32_at-lt "devices_in_use" get u),
    λ k h. devices_left-eq_some (max_devices_from j f get) (devices_in_use_from j f get) k h,
    λ m u a b h.
        devices_left-IsSome (max_devices_from j f get) (devices_in_use_from j f get) m u a b h,
  )

  -- Of every JSON value, the licence that is read out of it has counts of 32 bits; the number of
  -- devices left is the difference of the other two where it is given; and it is given where
  -- the other two are and no more devices are in use than there may be.
  pub normalize_license-Counted : (v : V) → Counted (normalize_license j f v)
  unfolding normalize_license
  normalize_license-Counted v = counted (as_object j v)
    where
      counted :
          (o : Option (String → Option V))
          → Counted (elim o [ none ↦ no_license | some get ↦ license_from j f get ])
      counted none = (λ m h. cc, λ u h. cc, λ k h. absurd (cc), λ m u a b h. absurd (cc))
      counted (some get) = license_from-Counted get

  -- Why an answer's decision allows: `success` says so, or it is not there and `allowed` says so.
  abbrev pub Affirmed : (String → Option V) → Type 0
  Affirmed get =
      ((s : V) × (get "success" ≡ some s) × (parse_bool j f s ≡ true))
      ⊎ ((get "success" ≡ none) × ((a : V) × (get "allowed" ≡ some a) × (parse_bool j f a ≡ true)))

  -- A decision that is read out of an activation answer allows only if the answer is an object
  -- whose `success`, or without one whose `allowed`, reads as true.
  pub activation-Affirmed :
      (v : V) (d : LicenseDecision)
      → normalize_activation_decision j f v ≡ ok d
      → d.allowed ≡ true
      → (get : String → Option V) × (as_object j v ≡ some get) × Affirmed get
  unfolding normalize_activation_decision decision_from
  activation-Affirmed v d h allowed = elim (Option-cases (as_object j v)) [
    | inl e ↦ absurd (ground arith)
    | inr (get, e) ↦ (
      get,
      e,
      elim (Option-cases (get "success")) [
        | inr (s, hs) ↦ inl (s, hs, ground arith)
        | inl hs ↦ inr (
          hs,
          elim (Option-cases (get "allowed")) [
            | inr (a, ha) ↦ (a, ha, ground arith)
            | inl ha ↦ absurd (ground arith)
          ],
        )
      ],
    )
  ]

  -- An answer that cannot be read gives a serialisation error.
  pub normalize_activation_decision-err :
      (v : V) (x : LicenseError)
      → normalize_activation_decision j f v ≡ err x
      → (m : String) × (x ≡ serde m)
  unfolding normalize_activation_decision
  normalize_activation_decision-err v x h = elim (Option-cases (as_object j v)) [
    | inl none_there ↦ ("resposta inválida da API de ativação", ground arith)
    | inr (get, object) ↦ absurd (ground arith)
  ]
