-- ===== src/WebSocket/Hub.antt =====
-- The registry of websocket clients: apps/console/src-tauri/src/native_websocket/hub.rs. The
-- static map is a list of entries, passed along; its order is that of an iteration over the map.
pub mod Laws
mod Tests
use tunnara.Prelude.{
  ℕ, suc, Bool, not, Option, String, List, [], ◌∷◌, map, filter, if◌then◌else◌, str_eq,
}

pub record WebSocketClientInfo : Type 0 where
  pub id : String
  pub connected_at : String
  pub user_agent : Option String

-- With the sending end of the channel to its connection.
pub record WebSocketClient (S : Type 0) : Type 0 where
  pub info : WebSocketClientInfo
  pub sender : S

abbrev pub Clients : Type 0 → Type 0
Clients S = List (String × WebSocketClient S)

-- The channels of the runtime and the clock, on the state `E` of the environment.
pub record Channels (E S : Type 0) : Type 0 where
  -- `sender.send(Message::Text(…)).is_ok()`
  pub send : S → String → E → Bool × E
  -- `Utc::now().to_rfc3339()`
  pub now_rfc3339 : E → String × E

module _ {S : Type 0} where
  pub unregister_client : String → Clients S → Clients S
  unregister_client id clients = filter (λ c. not (str_eq c.0 id)) clients

  pub list_clients : Clients S → List WebSocketClientInfo
  list_clients clients = map (λ c. c.1.info) clients

  -- `HashMap::insert`: an entry with the key is replaced.
  abbrev insert : String → WebSocketClient S → Clients S → Clients S
  insert id client clients = (id, client) ∷ filter (λ c. not (str_eq c.0 id)) clients

  -- The disconnected ones leave one by one.
  pub unregister_all : List String → Clients S → Clients S
  unfolding unregister_client
  unregister_all [] clients = clients
  unregister_all (id ∷ ids) clients = unregister_all ids (unregister_client id clients)

module _ {E S : Type 0} (w : Channels E S) where
  pub register_client :
      String → Option String → S → Clients S → E → WebSocketClientInfo × Clients S × E
  register_client id user_agent sender clients e =
      let (now, e') = w.now_rfc3339 e in
      let info : WebSocketClientInfo = record {
        id = id;
        connected_at = now;
        user_agent = user_agent;
      } in
      (info, insert id (record { info = info; sender = sender }) clients, e')

  -- The loop over the clients: how many took the text, and which ones are gone.
  pub send_all : String → Clients S → E → ℕ × List String × E
  send_all text [] e = (0, [], e)
  send_all text ((id, client) ∷ rest) e =
      let (took, e₁) = w.send client.sender text e in
      let (sent, disconnected, e₂) = send_all text rest e₁ in
      if took then (suc sent, disconnected, e₂) else (sent, id ∷ disconnected, e₂)

  unfoldable pub broadcast_text : String → Clients S → E → ℕ × Clients S × E
  unfolding send_all unregister_all
  broadcast_text text clients e =
      let (sent, disconnected, e') = send_all text clients e in
      (sent, unregister_all disconnected clients, e')
