-- ===== src/Api/Send/Relayed.antt =====
-- The requests of the routes of src/api/send.rs stay below the prefix of tapd.
use taproot_assets_rest_gate.Prelude.{all, refl}
use taproot_assets_rest_gate.Api.Upstream.{Client, with_query}
use taproot_assets_rest_gate.Api.Endpoint.{Gateway, ask-sent}
use taproot_assets_rest_gate.Api.Confined.{Confines, answered-Confines}
use taproot_assets_rest_gate.Api.Send.{send_assets}
use taproot_assets_rest_gate.Api.Send.Handlers.{send_handler}
use taproot_assets_rest_gate.Api.Send.Routes.{
  SendRoute, send_service, send_place, SendAcceptable, to_send,
}

pub send_service-Confines :
    (r : SendRoute) (g : Gateway) (client : Client)
    → Confines g (send_place r) (SendAcceptable r) (send_service r g client)
unfolding send_service send_handler send_assets with_query all
send_service-Confines (to_send req) g client =
    answered-Confines g (send_place (to_send req)) (send_assets g req) _ client
      (ask-sent g _ client) (refl, refl, refl, refl)
