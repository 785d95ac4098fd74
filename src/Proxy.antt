-- ===== src/Proxy.antt =====
-- src/websocket/proxy_handler.rs: the proxy between WebSocket clients and tapd, its sessions and
-- their end. A UUID of a session is the text that it displays, that of a connection a number.
pub mod Frames
pub mod State
pub mod Forward
pub mod Spec
pub mod Carried
pub mod Order
pub mod Answers
pub mod Ends
pub mod Pending
pub mod Pairs
pub mod Sessions
pub mod Sweep
use taproot_assets_rest_gate.Prelude.{
  ℕ, ◌-◌, ◌*◌, ◌/◌, ◌^◌, Text, ascii, Bool, true, false, Option, none, some, List, [], ◌∷◌, ◌++◌,
  Map, get, insert, remove, modify, length, if◌then◌else◌, ltb, as_secs, text_key,
}
use taproot_assets_rest_gate.Error.{Result, ok, err, display}
use taproot_assets_rest_gate.Crypto.{Parsed, parsed, rejected}
use taproot_assets_rest_gate.Correlation
use taproot_assets_rest_gate.Correlation.{CorrelationTracker}
use taproot_assets_rest_gate.Connections.{
  WebSocketConnectionManager, Network, connect_to_backend, remove_connection,
}

-- The two clocks: nanoseconds since 1970, or 0 before it, and those of `Instant`.
pub record Moment : Type 0 where
  pub epoch : ℕ
  pub instant : ℕ

abbrev pub epoch_secs : Moment → ℕ
epoch_secs at = as_secs at.epoch

abbrev pub epoch_millis : Moment → ℕ
epoch_millis at = at.epoch / 10 ^ 6

-- `last_activity_epoch` is the content of the shared cell. The tracker stands here as it is
-- created: the tasks of the session alone use it afterwards, and hold it themselves.
pub record ProxySession : Type 0 where
  pub id : Text
  pub client_id : Text
  pub backend_endpoint : Text
  pub backend_conn_id : ℕ
  pub created_at : ℕ
  pub last_activity_epoch : ℕ
  pub correlation_required : Bool
  pub correlation_tracker : Option CorrelationTracker

pub record WebSocketProxyHandler : Type 0 where
  pub connection_manager : WebSocketConnectionManager
  pub active_proxies : Map Text ProxySession

abbrev pub new : WebSocketConnectionManager → WebSocketProxyHandler
new connection_manager = record { connection_manager = connection_manager; active_proxies = [] }

abbrev pub new_tracker : Bool → Text → Option CorrelationTracker
new_tracker required session_id = if required then some (Correlation.new session_id) else none

-- What a client asks for, with the UUIDs that are drawn for it, and the time.
pub record Opening : Type 0 where
  pub session_id : Text
  pub backend_conn_id : ℕ
  pub at : Moment
  pub peer_addr : Option Text
  pub backend_endpoint : Text
  pub correlation_required : Bool

abbrev pub or_unknown : Option Text → Text
or_unknown none = ascii "unknown"
or_unknown (some addr) = addr

abbrev pub proxy_session : Opening → ProxySession
proxy_session o = record {
  id = o.session_id;
  client_id = or_unknown o.peer_addr;
  backend_endpoint = o.backend_endpoint;
  backend_conn_id = o.backend_conn_id;
  created_at = o.at.instant;
  last_activity_epoch = epoch_secs o.at;
  correlation_required = o.correlation_required;
  correlation_tracker = new_tracker o.correlation_required o.session_id;
}

-- The answer: the upgrade, with the task that forwards messages, the upgrade's own error, or 500.
pub data Answer : Type 0 where
  accepted : Answer
  not_upgraded internal_server_error : Text → Answer

unfoldable pub store_session : Opening → WebSocketProxyHandler → WebSocketProxyHandler
store_session o h = record h {
  active_proxies = insert o.session_id (proxy_session o) h.active_proxies;
}

-- The session is stored where the connection is open.
unfoldable pub answer :
    Opening
    → WebSocketProxyHandler
    → WebSocketConnectionManager × Result ℕ
    → WebSocketProxyHandler × Answer
unfolding store_session
answer o h (m, ok id) = (store_session o (record h { connection_manager = m }), accepted)
answer o h (m, err e) = (
  record h { connection_manager = m },
  internal_server_error (ascii "WebSocket proxy error: " ++ display e),
)

-- `upgraded` is what `actix_ws::handle` returns.
unfoldable pub handle_websocket :
    Network → Parsed (Unit {0}) → Opening → WebSocketProxyHandler → WebSocketProxyHandler × Answer
unfolding answer
handle_websocket n (rejected e) o h = (h, not_upgraded e)
handle_websocket n (parsed upgraded) o h =
    answer o h
      (connect_to_backend n o.backend_conn_id o.at.instant o.backend_endpoint h.connection_manager)

-- `activity_tracker.store`: the cell is read through the table only.
unfoldable pub store_activity : ℕ → Text → WebSocketProxyHandler → WebSocketProxyHandler
store_activity epoch session_id h = record h {
  active_proxies =
      modify session_id (λ p. record p { last_activity_epoch = epoch }) h.active_proxies;
}

unfoldable pub cleanup_session : Text → ℕ → WebSocketProxyHandler → WebSocketProxyHandler
cleanup_session session_id backend_conn_id h = record {
  connection_manager = (remove_connection backend_conn_id h.connection_manager).0;
  active_proxies = remove session_id h.active_proxies;
}

abbrev pub active_session_count : WebSocketProxyHandler → ℕ
active_session_count h = length h.active_proxies

pub record SessionInfo : Type 0 where
  pub id : Text
  pub client_id : Text
  pub backend_endpoint : Text
  pub created_at : ℕ
  pub last_activity : ℕ
  pub correlation_required : Bool

-- The last activity is moved from the clock of seconds to that of `Instant`.
abbrev pub session_info : Moment → Text → ProxySession → SessionInfo
session_info at id p = record {
  id = id;
  client_id = p.client_id;
  backend_endpoint = p.backend_endpoint;
  created_at = p.created_at;
  last_activity = at.instant - (at.epoch - p.last_activity_epoch * 10 ^ 9);
  correlation_required = p.correlation_required;
}

unfoldable pub session_infos : Moment → Map Text ProxySession → List SessionInfo
session_infos at [] = []
session_infos at ((id, p) ∷ m) = session_info at id p ∷ session_infos at m

abbrev pub get_active_sessions : Moment → WebSocketProxyHandler → List SessionInfo
get_active_sessions at h = session_infos at h.active_proxies

-- `max_idle` in nanoseconds, compared with whole seconds of idleness.
abbrev pub is_stale : ℕ → ℕ → ProxySession → Bool
is_stale current_epoch max_idle p = ltb max_idle ((current_epoch - p.last_activity_epoch) * 10 ^ 9)

unfoldable pub stale_sessions : ℕ → ℕ → Map Text ProxySession → List Text
stale_sessions now max_idle [] = []
stale_sessions now max_idle ((id, p) ∷ m) =
    let rest = stale_sessions now max_idle m in if is_stale now max_idle p then id ∷ rest else rest

abbrev pub remove_found :
    Option ProxySession → WebSocketConnectionManager → WebSocketConnectionManager
remove_found none m = m
remove_found (some p) m = (remove_connection p.backend_conn_id m).0

-- One turn of the second loop.
unfoldable pub remove_session : Text → WebSocketProxyHandler → WebSocketProxyHandler
remove_session id h = record {
  connection_manager = remove_found (get id h.active_proxies) h.connection_manager;
  active_proxies = remove id h.active_proxies;
}

unfoldable pub remove_sessions : List Text → WebSocketProxyHandler → WebSocketProxyHandler
remove_sessions [] h = h
remove_sessions (id ∷ ids) h = remove_sessions ids (remove_session id h)

-- No session is opened or ended by another task between the two loops.
unfoldable pub cleanup_stale_sessions : Moment → ℕ → WebSocketProxyHandler → WebSocketProxyHandler
cleanup_stale_sessions at max_idle h =
    remove_sessions (stale_sessions (epoch_secs at) max_idle h.active_proxies) h
