-- ===== src/NetBind.antt =====
-- Binding a service to its fixed port: apps/console/src-tauri/src/net_bind.rs.
pub mod Laws
pub mod Attempts
mod Tests
use tunnara.Prelude.{
  ℕ, zero, suc, ◌+◌, ◌*◌, Bool, true, false, ◌||◌, ◌&&◌, Option, none, some, String, if◌then◌else◌,
  leb, ◌==◌, code, str_eq, unwrap_or,
}
use tunnara.Prelude.Text.{eq_ignore_ascii_case, ◌++◌, is_empty, trim, show_ℕ}

-- `io::ErrorKind`, as far as it is looked at.
pub data ErrorKind : Type 0 where
  addr_in_use invalid_input other : ErrorKind

pub record IoError : Type 0 where
  pub kind : ErrorKind
  pub text : String

pub data IoResult (A : Type 0) : Type 0 where
  ok : A → IoResult A
  err : IoError → IoResult A

pub record PreparedListener (L : Type 0) : Type 0 where
  pub listener : L
  pub bind_host : String
  pub public_host : String
  pub port : ℕ
  pub note : Option String

pub data IpAddr : Type 0 where
  -- its text, and whether it is a loopback and the unspecified address
  v4 : String → Bool → Bool → IpAddr
  v6 : IpAddr

-- The sockets of the operating system, on the state `E` of the environment.
pub record Net (E Addr L : Type 0) : Type 0 where
  -- `parse::<SocketAddr>()`, with the error's text
  pub parse : String → Option Addr
  pub parse_error : String → String
  pub bind : Addr → E → IoResult L × E
  -- `thread::sleep`, in milliseconds
  pub sleep : ℕ → E → E
  -- the local address of a UDP socket that is connected to 8.8.8.8:80, if there is one
  pub local_ip : E → Option IpAddr × E

pub normalize_bind_host : String → String
unfolding eq_ignore_ascii_case
normalize_bind_host host =
    let value = trim host in
    if is_empty value || eq_ignore_ascii_case value "localhost" then "127.0.0.1" else value

pub is_wildcard_host : String → Bool
is_wildcard_host host =
    let value = trim host in str_eq value "0.0.0.0" || str_eq value "::" || str_eq value "[::]"

pub public_host_for_bind : String → String
public_host_for_bind host =
    let value = trim host in
    if str_eq value "0.0.0.0" || str_eq value "::" || str_eq value "[::]" || str_eq value ""
    then "127.0.0.1"
    else if str_eq value "localhost"
    then "127.0.0.1"
    else value

abbrev pub in_use : ErrorKind → Bool
in_use addr_in_use = true
in_use _ = false

abbrev pub endpoint : String → ℕ → String
endpoint host port = host ++ ":" ++ show_ℕ port

module _ {E Addr L : Type 0} (n : Net E Addr L) where
  abbrev usable : Option IpAddr → Option String
  usable none = none
  usable (some (v4 text loopback unspecified)) = if loopback || unspecified then none else some text
  usable (some v6) = none

  pub detect_primary_lan_ipv4 : E → Option String × E
  detect_primary_lan_ipv4 e = let (ip, e') = n.local_ip e in (usable ip, e')

  pub parse_addr : String → ℕ → IoResult Addr
  parse_addr host port = elim (n.parse (endpoint host port)) [
    | some addr ↦ ok addr
    | none ↦ err (record {
      kind = invalid_input;
      text =
          "Endereço inválido " ++ endpoint host port ++ ": " ++ n.parse_error (endpoint host port);
    })
  ]

  -- What one attempt answered, and how it goes on if the address is in use.
  abbrev pub after_bind : IoResult L × E → (IoError → E → IoResult L × E) → IoResult L × E
  after_bind (ok listener, e) again = (ok listener, e)
  after_bind (err x, e) again = if in_use x.kind then again x e else (err x, e)

  -- The attempts that are left, the number of the next one, and the last error.
  pub retry : ℕ → ℕ → Addr → Option IoError → E → IoResult L × E
  retry zero attempt addr last e =
      (err (unwrap_or last (record { kind = addr_in_use; text = "porta ocupada" })), e)
  retry (suc left) attempt addr last e =
      after_bind (n.bind addr e)
        λ x e₁. retry left (suc attempt) addr (some x) (n.sleep (180 + attempt * 70) e₁)

  pub bind_with_retry : Addr → E → IoResult L × E
  unfolding retry
  bind_with_retry addr e = retry 10 0 addr none e

  abbrev pub published : L → String → String → ℕ → Option String → PreparedListener L
  published listener bind_host public_host port note = record {
    listener = listener;
    bind_host = bind_host;
    public_host = public_host;
    port = port;
    note = note;
  }

  -- The second try, on the address of the network's interface.
  pub bind_lan : String → String → ℕ → IoError → E → IoResult (PreparedListener L) × E
  unfolding parse_addr bind_with_retry
  bind_lan lan_host normalized_host port primary e =
      elim (parse_addr lan_host port) as (λ _. IoResult (PreparedListener L) × E) [
        | err x ↦ (err x, e)
        | ok lan_addr ↦ finish (bind_with_retry lan_addr e)
      ]
    where
      finish : IoResult L × E → IoResult (PreparedListener L) × E
      finish (ok listener, e₁) = (
        ok (
            published listener lan_host lan_host port (
              some (
                "Bind em "
                ++ endpoint normalized_host port
                ++ " estava indisponível; publicado na mesma porta pela interface de rede "
                ++ endpoint lan_host port
                ++ "."))),
        e₁,
      )
      finish (err lan, e₁) = (
        err (record {
          kind = lan.kind;
          text =
              primary.text
              ++ "; tentativa alternativa na interface LAN "
              ++ endpoint lan_host port
              ++ " também falhou: "
              ++ lan.text;
        }),
        e₁,
      )

  -- What the detection of the interface answered.
  pub after_detect : Option String → String → ℕ → IoError → E → IoResult (PreparedListener L) × E
  unfolding bind_lan eq_ignore_ascii_case
  after_detect none normalized_host port primary e = (err primary, e)
  after_detect (some lan_host) normalized_host port primary e =
      if eq_ignore_ascii_case lan_host "127.0.0.1"
      then (err primary, e)
      else bind_lan lan_host normalized_host port primary e

  -- What binding the given host answered.
  pub after_primary : String → ℕ → IoResult L × E → IoResult (PreparedListener L) × E
  unfolding public_host_for_bind is_wildcard_host detect_primary_lan_ipv4 after_detect
  after_primary host port (ok listener, e) =
      (ok (published listener host (public_host_for_bind host) port none), e)
  after_primary host port (err primary, e) =
      if in_use primary.kind && is_wildcard_host host
      then (let (lan, e₁) = detect_primary_lan_ipv4 e in after_detect lan host port primary e₁)
      else (err primary, e)

  pub bind_fixed_service_listener : String → ℕ → E → IoResult (PreparedListener L) × E
  unfolding normalize_bind_host parse_addr bind_with_retry after_primary
  bind_fixed_service_listener host port e =
      elim (parse_addr (normalize_bind_host host) port)
        as (λ _. IoResult (PreparedListener L) × E) [
          | err x ↦ (err x, e)
          | ok addr ↦ after_primary (normalize_bind_host host) port (bind_with_retry addr e)
        ]
