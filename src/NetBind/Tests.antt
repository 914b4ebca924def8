-- ===== src/NetBind/Tests.antt =====
-- Runs of the binding (NetBind.antt), and its theorem at a concrete input.
use tunnara.Prelude.{ℕ, suc, ◌+◌, ◌≤◌, ◌≡◌, refl, false, none, some, String, if◌then◌else◌, str_eq}
use tunnara.Prelude.Text.{show_ℕ, trim}
use tunnara.NetBind.{
  PreparedListener, Net, ok, err, addr_in_use, v4, bind_fixed_service_listener, normalize_bind_host,
}
use tunnara.NetBind.Attempts.{bind_fixed_service_listener_tries}
use tunnara.NetBind.Laws.{Published, bind_fixed_service_listener-Published}

-- The state counts the attempts; the wildcard's port is taken.
abbrev net : Net ℕ String String
net = record {
  parse = λ s. some s;
  parse_error = λ s. "";
  bind = λ addr tries. (
    if str_eq addr "0.0.0.0:80"
        then err (record { kind = addr_in_use; text = "taken" })
        else ok addr,
    suc tries,
  );
  sleep = λ ms tries. tries;
  local_ip = λ tries. (some (v4 "10.0.0.2" false false), tries);
}

abbrev published_lan : PreparedListener String
published_lan = record {
  listener = "10.0.0.2:80";
  bind_host = "10.0.0.2";
  public_host = "10.0.0.2";
  port = 80;
  note =
      some
        "Bind em 0.0.0.0:80 estava indisponível; publicado na mesma porta pela interface de rede 10.0.0.2:80.";
}

-- Ten attempts on the wildcard, then one on the interface.
lan_run : bind_fixed_service_listener net " 0.0.0.0 " 80 0 ≡ (ok published_lan, 11)
unfolding bind_fixed_service_listener trim show_ℕ
lan_run = refl

local_run : bind_fixed_service_listener net "LocalHost" 80 0 ≡ (
  ok (record {
    listener = "127.0.0.1:80";
    bind_host = "127.0.0.1";
    public_host = "127.0.0.1";
    port = 80;
    note = none;
  }),
  1,
)
unfolding bind_fixed_service_listener trim show_ℕ
local_run = refl

bind_fixed_service_listener-Published_example :
    Published net (normalize_bind_host " 0.0.0.0 ") 80 published_lan
unfolding bind_fixed_service_listener trim show_ℕ
bind_fixed_service_listener-Published_example =
    bind_fixed_service_listener-Published net " 0.0.0.0 " 80 0 published_lan refl

bind_fixed_service_listener_tries_example :
    (bind_fixed_service_listener net " 0.0.0.0 " 80 0).1 ≤ 20 + 0
bind_fixed_service_listener_tries_example =
    bind_fixed_service_listener_tries net (λ e. e) (λ addr e. refl) (λ ms e. refl) (λ e. refl)
      " 0.0.0.0 " 80 0
