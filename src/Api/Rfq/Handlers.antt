-- ===== src/Api/Rfq/Handlers.antt =====
-- src/api/rfq.rs: the handlers, which check what stands in the path.
use taproot_assets_rest_gate.Prelude.{Text}
use taproot_assets_rest_gate.Api.Params.{validate_hex_param}
use taproot_assets_rest_gate.Api.Endpoint.{Handler, answered, guarded}
use taproot_assets_rest_gate.Api.Bodies.Rfq.{
  BuyOfferRequest, BuyOrderRequest, SellOfferRequest, SellOrderRequest,
}
use taproot_assets_rest_gate.Api.Rfq.{
  buy_offer, buy_order, get_notifications, get_peer_quotes, sell_offer, sell_order,
}

unfoldable pub buy_offer_handler : Text → BuyOfferRequest → Handler
buy_offer_handler asset_id request g =
    guarded (validate_hex_param asset_id) (buy_offer g request asset_id) g

unfoldable pub buy_order_handler : Text → BuyOrderRequest → Handler
buy_order_handler asset_id request g =
    guarded (validate_hex_param asset_id) (buy_order g request asset_id) g

unfoldable pub notifications_handler : Handler
notifications_handler g = answered (get_notifications g) g

unfoldable pub peer_quotes_handler : Handler
peer_quotes_handler g = answered (get_peer_quotes g) g

unfoldable pub sell_offer_handler : Text → SellOfferRequest → Handler
sell_offer_handler asset_id request g =
    guarded (validate_hex_param asset_id) (sell_offer g request asset_id) g

unfoldable pub sell_order_handler : Text → SellOrderRequest → Handler
sell_order_handler asset_id request g =
    guarded (validate_hex_param asset_id) (sell_order g request asset_id) g
