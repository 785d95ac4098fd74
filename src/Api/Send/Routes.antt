-- ===== src/Api/Send/Routes.antt =====
-- The routes of src/api/send.rs with their inputs.
use taproot_assets_rest_gate.Prelude.{ascii, []}
use taproot_assets_rest_gate.Api.Upstream.{method_post}
use taproot_assets_rest_gate.Api.Endpoint.{Handler}
use taproot_assets_rest_gate.Api.Confined.{Place}
use taproot_assets_rest_gate.Api.Bodies.Send.{SendRequest}
use taproot_assets_rest_gate.Api.Send.Handlers.{send_handler}

pub data SendRoute : Type 0 where
  to_send : (req : SendRequest) → SendRoute

unfoldable pub send_service : SendRoute → Handler
send_service (to_send req) = send_handler req

abbrev pub send_place : SendRoute → Place
send_place (to_send req) = record { method = method_post; path = ascii "/send"; query = [] }

-- The parameters that the route takes.
abbrev pub SendAcceptable : SendRoute → Type 0
SendAcceptable _ = Unit
