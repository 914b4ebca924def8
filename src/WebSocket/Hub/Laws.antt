-- ===== src/WebSocket/Hub/Laws.antt =====
-- What registering, unregistering and broadcasting (WebSocket/Hub.antt) make of the clients.
use tunnara.Prelude.{
  ◌≡◌, ◌∙◌, refl, ap, sym, Bool, true, false, String, List, [], ◌∷◌, filter, any, length, str_eq,
  eq_iff, arith, Bool-cases, inl, inr,
}
use tunnara.WebSocket.Hub.{
  WebSocketClient, Clients, Channels, unregister_client, unregister_all, send_all, broadcast_text,
}

module _ {S : Type 0} where
  abbrev pub has : String → Clients S → Bool
  has id clients = any (λ c. str_eq c.0 id) clients

  -- No two entries have the same key, as in every `HashMap`.
  abbrev pub Distinct : Clients S → Type 0
  Distinct [] = Unit
  Distinct ((id, client) ∷ rest) = (has id rest ≡ false) × Distinct rest

  unregister_client-absent :
      (id : String) (cs : Clients S) → has id cs ≡ false → unregister_client id cs ≡ cs
  unfolding unregister_client
  unregister_client-absent id [] h = refl
  unregister_client-absent id ((k, c) ∷ cs) h = ground (arith, unregister_client-absent id cs)

  unregister_client-own :
      (k : String) (c : WebSocketClient S) (cs : Clients S)
      → has k cs ≡ false
      → unregister_client k ((k, c) ∷ cs) ≡ cs
  unfolding unregister_client
  unregister_client-own k c cs h = ground (arith, eq_iff k k, unregister_client-absent k cs h)

  unregister_all-cons :
      (ids : List String) (k : String) (c : WebSocketClient S) (cs : Clients S)
      → any (λ i. str_eq k i) ids ≡ false
      → unregister_all ids ((k, c) ∷ cs) ≡ (k, c) ∷ unregister_all ids cs
  unfolding unregister_all unregister_client
  unregister_all-cons [] k c cs h = refl
  unregister_all-cons (i ∷ ids) k c cs h = elim (Bool-cases (str_eq k i)) [
    | inl same ↦ absurd (ground arith)
    | inr other ↦ rw other (unregister_all-cons ids k c (unregister_client i cs) (ground arith))
  ]

module _ {E S : Type 0} (w : Channels E S) where
  -- Whether a channel takes a text: as long as its receiver is there, whatever was sent before.
  module _ (alive : S → Bool)
      (send_alive : (s : S) (text : String) (e : E) → (w.send s text e).0 ≡ alive s) where
    abbrev lives : String × WebSocketClient S → Bool
    lives c = alive c.1.sender

    send_all-sent :
        (text : String) (cs : Clients S) (e : E)
        → (send_all w text cs e).0 ≡ length (filter lives cs)
    unfolding send_all
    send_all-sent text [] e = refl
    send_all-sent text ((k, c) ∷ cs) e =
        ground (arith, send_alive c.sender text e, send_all-sent text cs (w.send c.sender text e).1)

    send_all-gone :
        (text k : String) (cs : Clients S) (e : E)
        → has k cs ≡ false
        → any (λ i. str_eq k i) (send_all w text cs e).1 ≡ false
    unfolding send_all
    send_all-gone text k [] e h = refl
    send_all-gone text k ((j, c) ∷ cs) e h =
        ground (arith, eq_iff j k, eq_iff k j, send_all-gone text k cs (w.send c.sender text e).1)

    unregister_gone :
        (text : String) (cs : Clients S) (e : E)
        → Distinct cs
        → unregister_all (send_all w text cs e).1 cs ≡ filter lives cs
    unfolding send_all unregister_all unregister_client
    unregister_gone text [] e d = refl
    unregister_gone text ((k, c) ∷ cs) e (fresh, d) = elim (Bool-cases (alive c.sender)) [
      | inl there ↦
          let took : (w.send c.sender text e).0 ≡ true = send_alive c.sender text e ∙ there in
          let e₁ = (w.send c.sender text e).1 in
          rw (took, there)
            (unregister_all-cons (send_all w text cs e₁).1 k c cs (send_all-gone text k cs e₁ fresh)
              ∙ ap (λ x. (k, c) ∷ x) (unregister_gone text cs e₁ d))
      | inr gone ↦
          let refused : (w.send c.sender text e).0 ≡ false = send_alive c.sender text e ∙ gone in
          let e₁ = (w.send c.sender text e).1 in
          rw (refused, gone)
            (ap (unregister_all (send_all w text cs e₁).1) (unregister_client-own k c cs fresh)
              ∙ unregister_gone text cs e₁ d)
    ]

    -- If the keys are distinct and a channel takes a text exactly if its receiver is there, then
    -- after a broadcast the clients whose receiver is there are left, as they were and in their
    -- order, and their number is the one that it returns.
    pub broadcast_text-lives :
        (text : String) (cs : Clients S) (e : E)
        → Distinct cs
        → ((broadcast_text w text cs e).1 ≡ filter (λ c. alive c.1.sender) cs)
          × ((broadcast_text w text cs e).0 ≡ length (broadcast_text w text cs e).1)
    unfolding broadcast_text
    broadcast_text-lives text cs e d = (
      unregister_gone text cs e d,
      send_all-sent text cs e ∙ ap length (sym (unregister_gone text cs e d)),
    )
