-- ===== src/Api/Send/Handlers.antt =====
-- src/api/send.rs: the handlers, which check what stands in the path.
use taproot_assets_rest_gate.Api.Endpoint.{Handler, answered}
use taproot_assets_rest_gate.Api.Bodies.Send.{SendRequest}
use taproot_assets_rest_gate.Api.Send.{send_assets}

unfoldable pub send_handler : SendRequest → Handler
send_handler req g = answered (send_assets g req) g
