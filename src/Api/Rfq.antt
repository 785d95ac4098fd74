-- ===== src/Api/Rfq.antt =====
-- src/api/rfq.rs: the calls of tapd about quotes and orders.
pub mod Handlers
pub mod Routes
pub mod Relayed
pub mod Socket
use taproot_assets_rest_gate.Prelude.{Text, ascii, ◌++◌}
use taproot_assets_rest_gate.Json.{Value, object, end}
use taproot_assets_rest_gate.Api.Upstream.{Call, with_query}
use taproot_assets_rest_gate.Api.Endpoint.{
  Gateway, endpoint, get_request, post_request, delete_request, ask,
}
use taproot_assets_rest_gate.Api.Bodies.Rfq.{
  BuyOfferRequest, BuyOrderRequest, SellOfferRequest, SellOrderRequest, buy_offer_request_value,
  buy_order_request_value, sell_offer_request_value, sell_order_request_value,
}

unfoldable pub buy_offer : Gateway → BuyOfferRequest → Text → Call Value
buy_offer g request asset_id = ask g (
    post_request g (endpoint g (ascii "rfq/buyoffer/asset-id/" ++ asset_id))
      (buy_offer_request_value request))

unfoldable pub buy_order : Gateway → BuyOrderRequest → Text → Call Value
buy_order g request asset_id = ask g (
    post_request g (endpoint g (ascii "rfq/buyorder/asset-id/" ++ asset_id))
      (buy_order_request_value request))

unfoldable pub get_notifications : Gateway → Call Value
get_notifications g = ask g (post_request g (endpoint g (ascii "rfq/ntfs")) (object end))

unfoldable pub get_peer_quotes : Gateway → Call Value
get_peer_quotes g = ask g (get_request g (endpoint g (ascii "rfq/quotes/peeraccepted")))

unfoldable pub sell_offer : Gateway → SellOfferRequest → Text → Call Value
sell_offer g request asset_id = ask g (
    post_request g (endpoint g (ascii "rfq/selloffer/asset-id/" ++ asset_id))
      (sell_offer_request_value request))

unfoldable pub sell_order : Gateway → SellOrderRequest → Text → Call Value
sell_order g request asset_id = ask g (
    post_request g (endpoint g (ascii "rfq/sellorder/asset-id/" ++ asset_id))
      (sell_order_request_value request))
