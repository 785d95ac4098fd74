-- ===== src/Examples/Networks.antt =====
-- Connections to tapd over a network that is down for a while.
use taproot_assets_rest_gate.Prelude.{
  ℕ, ◌≡◌, ascii, true, ◌||◌, none, some, [], ◌∷◌, get, IsMap, if◌then◌else◌, ltb, secs, refl, arith,
  ◌==◌, nat_key, starts_with,
}
use taproot_assets_rest_gate.Error.{is_ok}
use taproot_assets_rest_gate.Crypto.{parsed, rejected}
use taproot_assets_rest_gate.Connections
use taproot_assets_rest_gate.Connections.{
  BackendConnection, WebSocketConnectionManager, Network, Attempts, websocket_url, replace_from,
  mark_connection_active, cleanup_stale_connections, is_connection_healthy, reconnect,
  connection_count,
}
use taproot_assets_rest_gate.Connections.Reconnect.{opens, reconnect_attempts}

-- The scheme of the backend's URL becomes that of WebSockets.
secure_url : websocket_url (ascii "https://tapd:8089") ≡ ascii "wss://tapd:8089"
unfolding websocket_url replace_from starts_with
secure_url = refl

plain_url : websocket_url (ascii "http://tapd") ≡ ascii "ws://tapd"
unfolding websocket_url replace_from starts_with
plain_url = refl

abbrev network : Network
network = record {
  host_str = λ url. parsed (some (ascii "tapd"));
  build = λ request. parsed tt;
  tls = λ verify. parsed tt;
  connect = λ now request. if ltb now (secs 2) then rejected (ascii "refused") else parsed tt;
}

abbrev connection : BackendConnection
connection = record { id = 1; endpoint = ascii "/events"; created_at = 0; last_activity = 0 }

abbrev manager : WebSocketConnectionManager
manager = record (Connections.new (ascii "https://tapd:8089") (ascii "00") true) {
  connections = (1, connection) ∷ [];
}

-- The attempts come at one, two and four seconds.
abbrev attempts : Attempts
attempts more = if more == 2 then (10, secs 1) else if more == 1 then (11, secs 2) else (12, secs 4)

manager-IsMap : IsMap manager.connections
unfolding get
manager-IsMap = (refl, tt)

reconnect_attempts_example :
    let r = reconnect network attempts 1 manager in
    let opened = opens network attempts (ascii "/events") manager in
    (is_ok r.result ≡ (opened 2 || (opened 1 || opened 0)))
    × (r.sleeps ≡ (if opened 2 then [] else if opened 1 then secs 1 ∷ [] else secs 1 ∷ secs 2 ∷ []))
unfolding get
reconnect_attempts_example = reconnect_attempts network attempts 1 connection manager refl

new_identifiers : (k : ℕ) → get (attempts k).0 manager.connections ≡ none
unfolding get
new_identifiers k = ground arith
