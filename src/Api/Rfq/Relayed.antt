-- ===== src/Api/Rfq/Relayed.antt =====
-- The requests of the routes of src/api/rfq.rs stay below the prefix of tapd.
use taproot_assets_rest_gate.Prelude.{all, refl}
use taproot_assets_rest_gate.Api.Params.{validate_hex_param}
use taproot_assets_rest_gate.Api.Upstream.{Client, with_query}
use taproot_assets_rest_gate.Api.Endpoint.{Gateway, ask-sent}
use taproot_assets_rest_gate.Api.Confined.{
  Confines, guarded-Confines, answered-Confines, validate_hex_param-IsCheck, hex_path,
  IsHexParam-ok,
}
use taproot_assets_rest_gate.Api.Rfq.{
  buy_offer, buy_order, get_notifications, get_peer_quotes, sell_offer, sell_order,
}
use taproot_assets_rest_gate.Api.Rfq.Handlers.{
  buy_offer_handler, buy_order_handler, notifications_handler, peer_quotes_handler,
  sell_offer_handler, sell_order_handler,
}
use taproot_assets_rest_gate.Api.Rfq.Routes.{
  RfqRoute, rfq_service, rfq_place, RfqAcceptable, to_buy_offer, to_buy_order, to_notifications,
  to_peer_quotes, to_sell_offer, to_sell_order,
}

pub rfq_service-Confines :
    (r : RfqRoute) (g : Gateway) (client : Client)
    → Confines g (rfq_place r) (RfqAcceptable r) (rfq_service r g client)
unfolding rfq_service buy_offer_handler buy_order_handler notifications_handler peer_quotes_handler
    sell_offer_handler sell_order_handler buy_offer buy_order get_notifications get_peer_quotes
    sell_offer sell_order with_query all
rfq_service-Confines (to_buy_offer asset_id request) g client =
    guarded-Confines g (rfq_place (to_buy_offer asset_id request))
      (RfqAcceptable (to_buy_offer asset_id request)) (validate_hex_param asset_id) _ client
      (validate_hex_param-IsCheck asset_id) (λ a. IsHexParam-ok asset_id a)
      (λ p. (refl, refl, refl, hex_path asset_id p))
rfq_service-Confines (to_buy_order asset_id request) g client =
    guarded-Confines g (rfq_place (to_buy_order asset_id request))
      (RfqAcceptable (to_buy_order asset_id request)) (validate_hex_param asset_id) _ client
      (validate_hex_param-IsCheck asset_id) (λ a. IsHexParam-ok asset_id a)
      (λ p. (refl, refl, refl, hex_path asset_id p))
rfq_service-Confines to_notifications g client =
    answered-Confines g (rfq_place to_notifications) (get_notifications g) _ client
      (ask-sent g _ client) (refl, refl, refl, refl)
rfq_service-Confines to_peer_quotes g client =
    answered-Confines g (rfq_place to_peer_quotes) (get_peer_quotes g) _ client
      (ask-sent g _ client) (refl, refl, refl, refl)
rfq_service-Confines (to_sell_offer asset_id request) g client =
    guarded-Confines g (rfq_place (to_sell_offer asset_id request))
      (RfqAcceptable (to_sell_offer asset_id request)) (validate_hex_param asset_id) _ client
      (validate_hex_param-IsCheck asset_id) (λ a. IsHexParam-ok asset_id a)
      (λ p. (refl, refl, refl, hex_path asset_id p))
rfq_service-Confines (to_sell_order asset_id request) g client =
    guarded-Confines g (rfq_place (to_sell_order asset_id request))
      (RfqAcceptable (to_sell_order asset_id request)) (validate_hex_param asset_id) _ client
      (validate_hex_param-IsCheck asset_id) (λ a. IsHexParam-ok asset_id a)
      (λ p. (refl, refl, refl, hex_path asset_id p))
