-- ===== src/Api/Send.antt =====
-- src/api/send.rs: the calls of tapd about sending assets.
pub mod Handlers
pub mod Routes
pub mod Relayed
use taproot_assets_rest_gate.Prelude.{Text, ascii, ◌++◌}
use taproot_assets_rest_gate.Json.{Value, object, end}
use taproot_assets_rest_gate.Api.Upstream.{Call, with_query}
use taproot_assets_rest_gate.Api.Endpoint.{
  Gateway, endpoint, get_request, post_request, delete_request, ask,
}
use taproot_assets_rest_gate.Api.Bodies.Send.{SendRequest, send_request_value}

unfoldable pub send_assets : Gateway → SendRequest → Call Value
send_assets g req = ask g (post_request g (endpoint g (ascii "send")) (send_request_value req))
