-- ===== src/WebSocket/Hub/Tests.antt =====
-- A run of a broadcast (WebSocket/Hub.antt), and its theorem at a concrete input.
use tunnara.Prelude.{ℕ, suc, ◌≡◌, refl, Bool, true, false, none, String, [], ◌∷◌, filter, length}
use tunnara.WebSocket.Hub.{WebSocketClient, Clients, Channels, broadcast_text}
use tunnara.WebSocket.Hub.Laws.{broadcast_text-lives}

-- A channel is whether its receiver is there; the state counts what was sent.
abbrev channels : Channels ℕ Bool
channels = record {
  send = λ s text e. (s, suc e);
  now_rfc3339 = λ e. ("2026-01-01T00:00:00+00:00", e);
}

abbrev client : String → Bool → WebSocketClient Bool
client id there = record {
  info = record { id = id; connected_at = ""; user_agent = none };
  sender = there;
}

abbrev three : Clients Bool
three = ("a", client "a" true) ∷ ("b", client "b" false) ∷ ("c", client "c" true) ∷ []

broadcast_run :
    broadcast_text channels "x" three 0
    ≡ (2, ("a", client "a" true) ∷ ("c", client "c" true) ∷ [], 3)
unfolding broadcast_text
broadcast_run = refl

broadcast_text-lives_example :
    ((broadcast_text channels "x" three 0).1 ≡ filter (λ c. c.1.sender) three)
    × ((broadcast_text channels "x" three 0).0 ≡ length (broadcast_text channels "x" three 0).1)
broadcast_text-lives_example =
    broadcast_text-lives channels (λ s. s) (λ s text e. refl) "x" three 0 (refl, (refl, (refl, tt)))
