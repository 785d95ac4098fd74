-- ===== src/Api/Channels/Relayed.antt =====
-- The requests of the routes of src/api/channels.rs stay below the prefix of tapd.
use taproot_assets_rest_gate.Prelude.{all, refl}
use taproot_assets_rest_gate.Api.Upstream.{Client, with_query}
use taproot_assets_rest_gate.Api.Endpoint.{Gateway, ask-sent}
use taproot_assets_rest_gate.Api.Confined.{Confines, answered-Confines}
use taproot_assets_rest_gate.Api.Channels.{
  encode_custom_data, fund_channel, create_invoice, decode_invoice, send_payment,
}
use taproot_assets_rest_gate.Api.Channels.Handlers.{
  encode_custom_data_handler, fund_handler, create_invoice_handler, decode_invoice_handler,
  send_payment_handler,
}
use taproot_assets_rest_gate.Api.Channels.Routes.{
  ChannelsRoute, channels_service, channels_place, ChannelsAcceptable, to_encode_custom_data,
  to_fund, to_create_invoice, to_decode_invoice, to_send_payment,
}

pub channels_service-Confines :
    (r : ChannelsRoute) (g : Gateway) (client : Client)
    → Confines g (channels_place r) (ChannelsAcceptable r) (channels_service r g client)
unfolding channels_service encode_custom_data_handler fund_handler create_invoice_handler
    decode_invoice_handler send_payment_handler create_invoice decode_invoice encode_custom_data
    fund_channel send_payment with_query all
channels_service-Confines (to_encode_custom_data request) g client =
    answered-Confines g (channels_place (to_encode_custom_data request))
      (encode_custom_data g request) _ client (ask-sent g _ client) (refl, refl, refl, refl)
channels_service-Confines (to_fund request) g client =
    answered-Confines g (channels_place (to_fund request)) (fund_channel g request) _ client
      (ask-sent g _ client) (refl, refl, refl, refl)
channels_service-Confines (to_create_invoice request) g client =
    answered-Confines g (channels_place (to_create_invoice request)) (create_invoice g request) _
      client (ask-sent g _ client) (refl, refl, refl, refl)
channels_service-Confines (to_decode_invoice request) g client =
    answered-Confines g (channels_place (to_decode_invoice request)) (decode_invoice g request) _
      client (ask-sent g _ client) (refl, refl, refl, refl)
channels_service-Confines (to_send_payment request) g client =
    answered-Confines g (channels_place (to_send_payment request)) (send_payment g request) _ client
      (ask-sent g _ client) (refl, refl, refl, refl)
