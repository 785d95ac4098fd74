-- ===== src/Connections.antt =====
-- src/websocket/connection_manager.rs: the connections to tapd that are tracked. A UUID is a number,
-- and what the network does is a parameter.
pub mod Table
pub mod Reconnect
use taproot_assets_rest_gate.Prelude.{
  ℕ, zero, suc, ◌+◌, ◌-◌, ◌*◌, min, Text, ascii, Bool, true, false, not, Option, none, some, List,
  [], ◌∷◌, ◌++◌, Map, get, insert, remove, modify, keys, length, any, if◌then◌else◌, leb, ltb, secs,
  as_secs, nat_key, starts_with,
}
use taproot_assets_rest_gate.Error.{
  Result, ok, err, AppError, web_socket_error, web_socket_proxy_error, is_ok, ◌>>=◌,
}
use taproot_assets_rest_gate.Crypto.{Parsed, parsed, rejected}

abbrev pub initial_reconnect_delay : ℕ
initial_reconnect_delay = secs 1

abbrev pub max_reconnect_delay : ℕ
max_reconnect_delay = secs 60

abbrev pub reconnect_health_timeout_secs : ℕ
reconnect_health_timeout_secs = 60

pub record BackendConnection : Type 0 where
  pub id : ℕ
  pub endpoint : Text
  pub created_at : ℕ
  pub last_activity : ℕ

pub record WebSocketConnectionManager : Type 0 where
  pub backend_url : Text
  pub macaroon_hex : Text
  pub tls_verify : Bool
  pub connections : Map ℕ BackendConnection

abbrev pub new : Text → Text → Bool → WebSocketConnectionManager
new backend_url macaroon_hex tls_verify = record {
  backend_url = backend_url;
  macaroon_hex = macaroon_hex;
  tls_verify = tls_verify;
  connections = [];
}

-- `str::replace`: `skip` characters of an occurrence are still to be passed over.
unfoldable pub replace_from : Text → Text → ℕ → Text → Text
replace_from part by skip [] = []
replace_from part by (suc skip) (c ∷ s) = replace_from part by skip s
replace_from part by zero (c ∷ s) =
    let inside = replace_from part by (length part - 1) s in
    let next = replace_from part by 0 s in
    if starts_with part (c ∷ s) then by ++ inside else c ∷ next

unfoldable pub replace : Text → Text → Text → Text
unfolding replace_from
replace part by s = replace_from part by 0 s

unfoldable pub websocket_url : Text → Text
unfolding replace
websocket_url url =
    replace (ascii "http://") (ascii "ws://") (replace (ascii "https://") (ascii "wss://") url)

-- What is sent to open a connection, with the check of certificates.
pub record Handshake : Type 0 where
  pub uri : Text
  pub host : Text
  pub macaroon : Text
  pub tls_verify : Bool

-- `Url::parse` with `host_str`, the builder of requests, native-tls, and the attempt to connect at
-- a time.
pub record Network : Type 0 where
  pub host_str : Text → Parsed (Option Text)
  pub build : Handshake → Parsed (Unit {0})
  pub tls : Bool → Parsed (Unit {0})
  pub connect : ℕ → Handshake → Parsed (Unit {0})

abbrev pub or_proxy_error : {A : Type 0} → Parsed A → Text → Result A
or_proxy_error (parsed a) m = ok a
or_proxy_error (rejected e) m = err (web_socket_proxy_error (m ++ e))

abbrev pub or_tls_error : {A : Type 0} → Parsed A → Result A
or_tls_error (parsed a) = ok a
or_tls_error (rejected e) = err (web_socket_error (ascii "TLS error: " ++ e))

abbrev pub or_localhost : Option Text → Text
or_localhost none = ascii "localhost"
or_localhost (some host) = host

unfoldable pub handshake : WebSocketConnectionManager → Text → Text → Handshake
handshake m endpoint host = record {
  uri = websocket_url m.backend_url ++ endpoint;
  host = host;
  macaroon = m.macaroon_hex;
  tls_verify = m.tls_verify;
}

-- `connect_to_backend` up to the connection.
unfoldable pub dial : Network → ℕ → Text → WebSocketConnectionManager → Result (Unit {0})
dial n now endpoint m = do
  host ← or_proxy_error (n.host_str m.backend_url) (ascii "Invalid backend URL: ")
  built ←
      or_proxy_error (n.build (handshake m endpoint (or_localhost host)))
        (ascii "Failed to build request: ")
  connector ← or_tls_error (n.tls m.tls_verify)
  or_proxy_error (n.connect now (handshake m endpoint (or_localhost host)))
      (ascii "Failed to connect: ")

abbrev pub tracked : ℕ → ℕ → Text → BackendConnection
tracked id now endpoint = record {
  id = id;
  endpoint = endpoint;
  created_at = now;
  last_activity = now;
}

unfoldable pub track : ℕ → ℕ → Text → WebSocketConnectionManager → WebSocketConnectionManager
track id now endpoint m = record m {
  connections = insert id (tracked id now endpoint) m.connections;
}

-- `id` is the new UUID. The two halves of the stream go to the caller.
unfoldable pub connect_to_backend :
    Network → ℕ → ℕ → Text → WebSocketConnectionManager → WebSocketConnectionManager × Result ℕ
connect_to_backend n id now endpoint m = elim (dial n now endpoint m) [
  | ok u ↦ (track id now endpoint m, ok id)
  | err e ↦ (m, err e)
]

unfoldable pub remove_connection :
    ℕ → WebSocketConnectionManager → WebSocketConnectionManager × Option BackendConnection
remove_connection id m = (record m { connections = remove id m.connections }, get id m.connections)

abbrev pub get_connection_ids : WebSocketConnectionManager → List ℕ
get_connection_ids m = keys m.connections

abbrev pub get_connection_info : ℕ → WebSocketConnectionManager → Option BackendConnection
get_connection_info id m = get id m.connections

unfoldable pub update_activity : ℕ → ℕ → WebSocketConnectionManager → WebSocketConnectionManager
update_activity now id m = record m {
  connections = modify id (λ c. record c { last_activity = now }) m.connections;
}

abbrev pub not_found : AppError
not_found = web_socket_error (ascii "Connection not found")

unfoldable pub mark_connection_active :
    ℕ → ℕ → WebSocketConnectionManager → WebSocketConnectionManager × Result (Unit {0})
mark_connection_active now id m = elim (get id m.connections) [
  | some c ↦ (update_activity now id m, ok tt)
  | none ↦ (m, err not_found)
]

abbrev pub is_idle : ℕ → ℕ → BackendConnection → Bool
is_idle now max_idle_secs c = ltb max_idle_secs (as_secs (now - c.last_activity))

-- The identifiers that the first loop collects.
unfoldable pub idle_ids : ℕ → ℕ → Map ℕ BackendConnection → List ℕ
idle_ids now max_idle_secs [] = []
idle_ids now max_idle_secs ((id, c) ∷ m) =
    let rest = idle_ids now max_idle_secs m in
    if is_idle now max_idle_secs c then id ∷ rest else rest

-- The second loop.
unfoldable pub remove_all : List ℕ → Map ℕ BackendConnection → Map ℕ BackendConnection
remove_all [] m = m
remove_all (id ∷ ids) m = remove_all ids (remove id m)

unfoldable pub cleanup_stale_connections :
    ℕ → ℕ → WebSocketConnectionManager → WebSocketConnectionManager × List ℕ
cleanup_stale_connections now max_idle_secs m =
    let ids = idle_ids now max_idle_secs m.connections in
    (record m { connections = remove_all ids m.connections }, ids)

abbrev pub connection_count : WebSocketConnectionManager → ℕ
connection_count m = length m.connections

abbrev pub healthy : ℕ → ℕ → Option BackendConnection → Bool
healthy now max_idle_secs none = false
healthy now max_idle_secs (some c) = leb (as_secs (now - c.last_activity)) max_idle_secs

unfoldable pub is_connection_healthy : ℕ → ℕ → ℕ → WebSocketConnectionManager → Bool
is_connection_healthy now id max_idle_secs m = healthy now max_idle_secs (get id m.connections)

unfoldable pub shutdown_all : WebSocketConnectionManager → WebSocketConnectionManager × List ℕ
shutdown_all m = (record m { connections = [] }, keys m.connections)

-- What a reconnection did: the pauses that it made, and its end.
pub record Reconnection : Type 0 where
  pub sleeps : List ℕ
  pub manager : WebSocketConnectionManager
  pub result : Result (Unit {0})

-- The caller gets the stream, and not the new identifier.
abbrev pub opened : Result ℕ → Result (Unit {0})
opened (ok id) = ok tt
opened (err e) = err e

-- The UUID and the time of each attempt, by the number of attempts that may follow it.
abbrev pub Attempts : Type 0
Attempts = ℕ → ℕ × ℕ

-- The loop, with `more` attempts after this one: MAX_RECONNECT_ATTEMPTS - retry_count - 1.
unfoldable pub retry : Network → Attempts → Text → ℕ → ℕ → WebSocketConnectionManager → Reconnection
retry n attempts endpoint zero delay m =
    let (m', r) = connect_to_backend n (attempts 0).0 (attempts 0).1 endpoint m in
    record { sleeps = []; manager = m'; result = opened r }
retry n attempts endpoint (suc more) delay m =
    let (m', r) = connect_to_backend n (attempts (suc more)).0 (attempts (suc more)).1 endpoint m in
    let next = retry n attempts endpoint more (min (delay * 2) max_reconnect_delay) m' in
    elim r [
      | ok id ↦ record { sleeps = []; manager = m'; result = ok tt }
      | err e ↦ record next { sleeps = delay ∷ next.sleeps }
    ]

unfoldable pub reconnect : Network → Attempts → ℕ → WebSocketConnectionManager → Reconnection
reconnect n attempts id m = elim (get id m.connections) [
  | none ↦ record { sleeps = []; manager = m; result = err not_found }
  | some c ↦ retry n attempts c.endpoint 2 initial_reconnect_delay (remove_connection id m).0
]

-- The connections are taken one after the other, `times` being when each is looked at.
unfoldable pub reconnect_all :
    Network
    → (ℕ → Attempts)
    → (ℕ → ℕ)
    → List ℕ
    → WebSocketConnectionManager
    → WebSocketConnectionManager × List (ℕ × Result (Unit {0}))
reconnect_all n attempts times [] m = (m, [])
reconnect_all n attempts times (id ∷ ids) m =
    if is_connection_healthy (times id) id reconnect_health_timeout_secs m
    then reconnect_all n attempts times ids m
    else (let r = reconnect n (attempts id) id m in
        let (m', results) = reconnect_all n attempts times ids r.manager in
        (m', (id, r.result) ∷ results))

unfoldable pub reconnect_all_failed :
    Network
    → (ℕ → Attempts)
    → (ℕ → ℕ)
    → WebSocketConnectionManager
    → WebSocketConnectionManager × List (ℕ × Result (Unit {0}))
reconnect_all_failed n attempts times m = reconnect_all n attempts times (get_connection_ids m) m
