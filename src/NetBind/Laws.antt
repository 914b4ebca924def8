-- ===== src/NetBind/Laws.antt =====
-- What the prepared listener is bound to, and how often the port is tried (NetBind.antt).
use tunnara.Prelude.{
  ℕ, zero, suc, ◌+◌, ◌*◌, ◌≡◌, ◌⊎◌, inl, inr, refl, true, ◌&&◌, Option, none, some, String, arith,
  Bool-cases, Option-cases, ap, sym,
}
use tunnara.Prelude.Text.{eq_ignore_ascii_case}
use tunnara.NetBind.{
  IoError, IoResult, ok, err, PreparedListener, Net, in_use, endpoint, normalize_bind_host,
  is_wildcard_host, detect_primary_lan_ipv4, parse_addr, retry, bind_with_retry, bind_lan,
  after_detect, after_primary, bind_fixed_service_listener,
}

pub IoResult-cases :
    {A : Type 0} (r : IoResult A) → ((a : A) × (r ≡ ok a)) ⊎ ((x : IoError) × (r ≡ err x))
IoResult-cases (ok a) = inl (a, refl)
IoResult-cases (err x) = inr (x, refl)

module _ {E Addr L : Type 0} (n : Net E Addr L) where
  -- The listener was bound to that host and port.
  abbrev pub Bound : String → ℕ → L → Type 0
  Bound host port listener =
      (addr : Addr) × (e : E) × (e' : E) × (n.parse (endpoint host port) ≡ some addr)
      × (n.bind addr e ≡ (ok listener, e'))

  retry-ok :
      (left attempt : ℕ) (addr : Addr) (last : Option IoError) (e : E) (l : L)
      → (retry n left attempt addr last e).0 ≡ ok l
      → (e₁ : E) × (e₂ : E) × (n.bind addr e₁ ≡ (ok l, e₂))
  unfolding retry
  retry-ok zero attempt addr last e l h = cc
  retry-ok (suc left) attempt addr last e l h = elim (IoResult-cases (n.bind addr e).0) [
    | inl (m, is) ↦ (e, (n.bind addr e).1, ground arith)
    | inr (x, is) ↦ elim (Bool-cases (in_use x.kind)) [
      | inl again ↦
          retry-ok left (suc attempt) addr (some x) (n.sleep (180 + attempt * 70) (n.bind addr e).1)
            l (ground arith)
      | inr stop ↦ absurd (ground arith)
    ]
  ]

  parse_addr-ok :
      (host : String) (port : ℕ) (addr : Addr)
      → parse_addr n host port ≡ ok addr
      → n.parse (endpoint host port) ≡ some addr
  unfolding parse_addr
  parse_addr-ok host port addr h = elim (Option-cases (n.parse (endpoint host port))) [
    | inl e ↦ absurd (ground arith)
    | inr (a, e) ↦ ground arith
  ]

  bind_lan-Bound :
      (lan host : String) (port : ℕ) (primary : IoError) (e : E) (p : PreparedListener L)
      → (bind_lan n lan host port primary e).0 ≡ ok p
      → (p.port ≡ port) × (p.bind_host ≡ lan) × Bound lan port p.listener
  unfolding bind_lan bind_with_retry
  bind_lan-Bound lan host port primary e p h = elim (IoResult-cases (parse_addr n lan port)) [
    | inr (x, bad) ↦ absurd (ground arith)
    | inl (addr, parsed) ↦ elim (IoResult-cases (bind_with_retry n addr e).0) [
      | inr (x, bad) ↦ absurd (ground arith)
      | inl (l, is) ↦
          let (e₁, e₂, bound) = retry-ok 10 0 addr none e l is in
          (
            ground arith,
            ground arith,
            (addr, e₁, e₂, parse_addr-ok lan port addr parsed, ground arith),
          )
    ]
  ]

  after_detect-Bound :
      (lan : Option String) (host : String) (port : ℕ) (primary : IoError) (e : E)
      (p : PreparedListener L)
      → (after_detect n lan host port primary e).0 ≡ ok p
      → (p.port ≡ port) × (lan ≡ some p.bind_host) × Bound p.bind_host port p.listener
  unfolding after_detect
  after_detect-Bound none host port primary e p h = absurd (cc)
  after_detect-Bound (some lan) host port primary e p h =
      elim (Bool-cases (eq_ignore_ascii_case lan "127.0.0.1")) [
        | inl loop ↦ absurd (ground arith)
        | inr far ↦
            let (port_is, host_is, bound) =
              bind_lan-Bound lan host port primary e p (ground arith) in
            (port_is, ap (λ x. some x) (sym host_is), rw host_is bound)
      ]

  -- Where a listener was published, relative to the host that was asked for.
  abbrev pub Published : String → ℕ → PreparedListener L → Type 0
  Published host port p =
      (p.port ≡ port)
      × Bound p.bind_host port p.listener
      × ((p.bind_host ≡ host)
          ⊎ ((is_wildcard_host host ≡ true)
              × ((e : E) × ((detect_primary_lan_ipv4 n e).0 ≡ some p.bind_host))))

  after_primary-Published :
      (host : String) (port : ℕ) (addr : Addr) (e : E) (p : PreparedListener L)
      → n.parse (endpoint host port) ≡ some addr
      → (after_primary n host port (bind_with_retry n addr e)).0 ≡ ok p
      → Published host port p
  unfolding after_primary after_detect bind_lan bind_with_retry
  after_primary-Published host port addr e p parsed h =
      elim (IoResult-cases (bind_with_retry n addr e).0) [
        | inl (l, is) ↦
            let (e₁, e₂, bound) = retry-ok 10 0 addr none e l is in
            (ground arith, (addr, e₁, e₂, ground arith, ground arith), inl (ground arith))
        | inr (x, is) ↦ elim (Bool-cases (in_use x.kind && is_wildcard_host host)) [
          | inl fall ↦
              let e₁ = (bind_with_retry n addr e).1 in
              let (port_is, lan_is, bound) =
                after_detect-Bound (detect_primary_lan_ipv4 n e₁).0 host port x
                  (detect_primary_lan_ipv4 n e₁).1 p (ground arith) in
              (port_is, bound, inr (ground arith, (e₁, lan_is)))
          | inr stop ↦ absurd (ground arith)
        ]
      ]

  -- A listener that is returned was bound to the port that was asked for, on its `bind_host`:
  -- the host that was asked for, normalised; or, if that is a wildcard, the address of the
  -- network's interface that was detected.
  pub bind_fixed_service_listener-Published :
      (host : String) (port : ℕ) (e : E) (p : PreparedListener L)
      → (bind_fixed_service_listener n host port e).0 ≡ ok p
      → Published (normalize_bind_host host) port p
  unfolding bind_fixed_service_listener
  bind_fixed_service_listener-Published host port e p h =
      elim (IoResult-cases (parse_addr n (normalize_bind_host host) port)) [
        | inr (x, bad) ↦ absurd (ground arith)
        | inl (addr, parsed) ↦
            after_primary-Published (normalize_bind_host host) port addr e p
              (parse_addr-ok (normalize_bind_host host) port addr parsed) (ground arith)
      ]
