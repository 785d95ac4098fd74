-- ===== src/Proxy/State.antt =====
-- The state of `forward_messages`: its tasks, with the streams and sinks of both sides.
use taproot_assets_rest_gate.Prelude.{
  ℕ, Text, ascii, Bool, false, Option, none, some, List, [], get, if◌then◌else◌, text_key,
}
use taproot_assets_rest_gate.Error.{Result, ok, err, web_socket_proxy_error}
use taproot_assets_rest_gate.Correlation.{CorrelationTracker}
use taproot_assets_rest_gate.Proxy.{Moment, ProxySession, WebSocketProxyHandler}
use taproot_assets_rest_gate.Proxy.Frames.{ClientMessage, BackendMessage, Event, Outcome}

-- Where client to backend stands: at the client's stream, before the tracker's lock, before the
-- send of a message, of a frame whose result is ignored or of the close, and before the manager.
pub data ClientTask : Type 0 where
  reading closing refreshing ended : ClientTask
  correlating : Text → ClientTask
  sending relaying : BackendMessage → ClientTask

-- The same for backend to client.
pub data BackendTask : Type 0 where
  reading refreshing ended : BackendTask
  matching : Text → BackendTask
  sending : ClientMessage → BackendTask

-- `forward_messages` waits, has returned, and its session is cleaned up.
pub data MainTask : Type 0 where
  selecting returned cleaned : MainTask

-- A stream is what is still to come of it before its end or a silence of CLIENT_TIMEOUT. What was
-- handed to a sink is kept, oldest first.
pub record Forwarding : Type 0 where
  pub handler : WebSocketProxyHandler
  pub session_id : Text
  pub backend_conn_id : ℕ
  pub tracker : Option CorrelationTracker
  pub client_stream : List (Event ClientMessage)
  pub backend_stream : List (Event BackendMessage)
  pub client_task : ClientTask
  pub backend_task : BackendTask
  pub main_task : MainTask
  pub to_backend : List BackendMessage
  pub to_client : List ClientMessage
  pub backend_closed : Bool

abbrev pub begin :
    WebSocketProxyHandler
    → Text
    → ℕ
    → Option CorrelationTracker
    → List (Event ClientMessage)
    → List (Event BackendMessage)
    → Forwarding
begin h session_id backend_conn_id tracker client_stream backend_stream = record {
  handler = h;
  session_id = session_id;
  backend_conn_id = backend_conn_id;
  tracker = tracker;
  client_stream = client_stream;
  backend_stream = backend_stream;
  client_task = ClientTask.reading;
  backend_task = BackendTask.reading;
  main_task = selecting;
  to_backend = [];
  to_client = [];
  backend_closed = false;
}

abbrev pub tracker_if : Bool → ProxySession → Option CorrelationTracker
tracker_if required p = if required then p.correlation_tracker else none

-- The tasks start if the session is still in the table.
unfoldable pub start :
    WebSocketProxyHandler
    → Text
    → ℕ
    → Bool
    → List (Event ClientMessage)
    → List (Event BackendMessage)
    → Result Forwarding
start h session_id conn_id required from_client from_backend =
    elim (get session_id h.active_proxies) [
      | none ↦ err (web_socket_proxy_error (ascii "Session not found"))
      | some p ↦ ok (begin h session_id conn_id (tracker_if required p) from_client from_backend)
    ]

-- What one step meets: the time, and how a send ends.
pub record Turn : Type 0 where
  pub at : Moment
  pub outcome : Outcome
