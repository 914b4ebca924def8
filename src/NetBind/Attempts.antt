-- ===== src/NetBind/Attempts.antt =====
-- How often NetBind.antt tries to bind.
use tunnara.Prelude.{
  ℕ, zero, suc, ◌+◌, ◌*◌, ◌≤◌, ◌≡◌, ◌&&◌, Option, none, some, String, arith, Bool-cases, inl, inr,
}
use tunnara.Prelude.Text.{eq_ignore_ascii_case}
use tunnara.NetBind.{
  IoError, Net, in_use, parse_addr, retry, bind_with_retry, bind_lan, after_detect, after_primary,
  bind_fixed_service_listener, is_wildcard_host, normalize_bind_host, detect_primary_lan_ipv4,
}
use tunnara.NetBind.Laws.{IoResult-cases}

module _ {E Addr L : Type 0} (n : Net E Addr L) (tries : E → ℕ)
    (bind_counts : (addr : Addr) (e : E) → tries (n.bind addr e).1 ≡ suc (tries e))
    (sleep_counts : (ms : ℕ) (e : E) → tries (n.sleep ms e) ≡ tries e)
    (detect_counts : (e : E) → tries (n.local_ip e).1 ≡ tries e) where
  retry_tries :
      (left attempt : ℕ) (addr : Addr) (last : Option IoError) (e : E)
      → tries (retry n left attempt addr last e).1 ≤ left + tries e
  unfolding retry
  retry_tries zero attempt addr last e = ground arith
  retry_tries (suc left) attempt addr last e = elim (IoResult-cases (n.bind addr e).0) [
    | inl (l, is) ↦ ground (arith, bind_counts addr e)
    | inr (x, is) ↦ elim (Bool-cases (in_use x.kind)) [
      | inl again ↦
          let e₁ = (n.bind addr e).1 in
          let e₂ = n.sleep (180 + attempt * 70) e₁ in
          ground (
            arith,
            bind_counts addr e,
            sleep_counts (180 + attempt * 70) e₁,
            retry_tries left (suc attempt) addr (some x) e₂,
          )
      | inr stop ↦ ground (arith, bind_counts addr e)
    ]
  ]

  bind_with_retry_tries : (addr : Addr) (e : E) → tries (bind_with_retry n addr e).1 ≤ 10 + tries e
  unfolding bind_with_retry
  bind_with_retry_tries addr e = retry_tries 10 0 addr none e

  bind_lan_tries :
      (lan host : String) (port : ℕ) (primary : IoError) (e : E)
      → tries (bind_lan n lan host port primary e).1 ≤ 10 + tries e
  unfolding bind_lan
  bind_lan_tries lan host port primary e = elim (IoResult-cases (parse_addr n lan port)) [
    | inr (x, bad) ↦ ground arith
    | inl (addr, parsed) ↦ elim (IoResult-cases (bind_with_retry n addr e).0) [
      | inr (x, is) ↦ ground (arith, bind_with_retry_tries addr e)
      | inl (l, is) ↦ ground (arith, bind_with_retry_tries addr e)
    ]
  ]

  after_detect_tries :
      (lan : Option String) (host : String) (port : ℕ) (primary : IoError) (e : E)
      → tries (after_detect n lan host port primary e).1 ≤ 10 + tries e
  unfolding after_detect
  after_detect_tries none host port primary e = ground arith
  after_detect_tries (some lan) host port primary e =
      elim (Bool-cases (eq_ignore_ascii_case lan "127.0.0.1")) [
        | inl loop ↦ ground arith
        | inr far ↦ ground (arith, bind_lan_tries lan host port primary e)
      ]

  -- Where an attempt to bind counts one, and neither a pause nor the detection of the interface
  -- counts any, a service is tried to be bound at most twenty times.
  pub bind_fixed_service_listener_tries :
      (host : String) (port : ℕ) (e : E)
      → tries (bind_fixed_service_listener n host port e).1 ≤ 20 + tries e
  unfolding bind_fixed_service_listener after_primary detect_primary_lan_ipv4
  bind_fixed_service_listener_tries host port e =
      elim (IoResult-cases (parse_addr n (normalize_bind_host host) port)) [
        | inr (x, bad) ↦ ground arith
        | inl (addr, parsed) ↦ elim (IoResult-cases (bind_with_retry n addr e).0) [
          | inl (l, is) ↦ ground (arith, bind_with_retry_tries addr e)
          | inr (x, is) ↦
              elim (Bool-cases (in_use x.kind && is_wildcard_host (normalize_bind_host host))) [
                | inr stop ↦ ground (arith, bind_with_retry_tries addr e)
                | inl fall ↦
                    let e₁ = (bind_with_retry n addr e).1 in
                    ground (
                      arith,
                      bind_with_retry_tries addr e,
                      detect_counts e₁,
                      after_detect_tries (detect_primary_lan_ipv4 n e₁).0 (normalize_bind_host host)
                          port x (detect_primary_lan_ipv4 n e₁).1,
                    )
              ]
        ]
      ]
