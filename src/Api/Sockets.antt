-- ===== src/Api/Sockets.antt =====
-- The WebSockets that the proxy carries: those of src/api/events.rs, that of payments in
-- src/api/channels.rs, and that of src/api/mailbox.rs where the proxy is there.
pub mod Opened
use taproot_assets_rest_gate.Prelude.{
  Text, ascii, Bool, true, false, ◌++◌, if◌then◌else◌, is_empty, contains,
}
use taproot_assets_rest_gate.Crypto.{Parsed}
use taproot_assets_rest_gate.Connections.{Network}
use taproot_assets_rest_gate.Proxy.{
  Opening, WebSocketProxyHandler, Answer, accepted, not_upgraded, internal_server_error,
  handle_websocket,
}

abbrev pub event_endpoint : Text → Text → Text
event_endpoint event_type query =
    let events = ascii "/v1/taproot-assets/events/" ++ event_type in
    if is_empty query
    then events ++ ascii "?method=POST"
    else events ++ (ascii "?method=POST&" ++ query)

abbrev pub payment_endpoint : Text
payment_endpoint = ascii "/v1/taproot-assets/channels/send-payment?stream=true"

abbrev pub mailbox_endpoint : Text
mailbox_endpoint = ascii "/v1/taproot-assets/mailbox/receive?stream=true"

-- The answer of the proxy, or that of a handler which does not ask it.
pub data SocketAnswer : Type 0 where
  proxied : Answer → SocketAnswer
  bad_request : Text → SocketAnswer

-- An opening with what the handler passes to `handle_websocket`.
abbrev pub towards : Text → Bool → Opening → Opening
towards backend_endpoint required o = record o {
  backend_endpoint = backend_endpoint;
  correlation_required = required;
}

unfoldable pub proxied_answer :
    WebSocketProxyHandler × Answer → WebSocketProxyHandler × SocketAnswer
proxied_answer (h, a) = (h, proxied a)

unfoldable pub generic_event_websocket_handler :
    Text
    → Text
    → Network
    → Parsed (Unit {0})
    → Opening
    → WebSocketProxyHandler
    → WebSocketProxyHandler × SocketAnswer
unfolding proxied_answer
generic_event_websocket_handler event_type query n upgraded o h =
    proxied_answer
      (handle_websocket n upgraded (towards (event_endpoint event_type query) false o) h)

unfoldable pub send_payment_websocket_handler :
    Text
    → Network
    → Parsed (Unit {0})
    → Opening
    → WebSocketProxyHandler
    → WebSocketProxyHandler × SocketAnswer
unfolding proxied_answer
send_payment_websocket_handler query n upgraded o h =
    if contains (ascii "method=POST") query
    then proxied_answer (handle_websocket n upgraded (towards payment_endpoint true o) h)
    else (h, bad_request (ascii "WebSocket send-payment requires method=POST query parameter"))

-- `map_err(ErrorInternalServerError)`.
abbrev pub as_internal : Answer → Answer
as_internal accepted = accepted
as_internal (not_upgraded e) = internal_server_error e
as_internal (internal_server_error e) = internal_server_error e

unfoldable pub internal_answer :
    WebSocketProxyHandler × Answer → WebSocketProxyHandler × SocketAnswer
internal_answer (h, a) = (h, proxied (as_internal a))

unfoldable pub receive_websocket_with_proxy :
    Network
    → Parsed (Unit {0})
    → Opening
    → WebSocketProxyHandler
    → WebSocketProxyHandler × SocketAnswer
unfolding internal_answer
receive_websocket_with_proxy n upgraded o h =
    internal_answer (handle_websocket n upgraded (towards mailbox_endpoint true o) h)

-- The routes of WebSockets, with the query of a request.
pub data SocketRoute : Type 0 where
  asset_mint asset_receive asset_send send_payment : (query : Text) → SocketRoute
  mailbox_receive : SocketRoute

unfoldable pub open_socket :
    SocketRoute
    → Network
    → Parsed (Unit {0})
    → Opening
    → WebSocketProxyHandler
    → WebSocketProxyHandler × SocketAnswer
open_socket (asset_mint query) = generic_event_websocket_handler (ascii "asset-mint") query
open_socket (asset_receive query) = generic_event_websocket_handler (ascii "asset-receive") query
open_socket (asset_send query) = generic_event_websocket_handler (ascii "asset-send") query
open_socket (send_payment query) = send_payment_websocket_handler query
open_socket mailbox_receive = receive_websocket_with_proxy
