-- ===== src/Api/Rfq/Routes.antt =====
-- The routes of src/api/rfq.rs with their inputs.
use taproot_assets_rest_gate.Prelude.{Text, ascii, [], ◌++◌}
use taproot_assets_rest_gate.Api.Params.Accepted.{IsHexParam}
use taproot_assets_rest_gate.Api.Upstream.{method_get, method_post}
use taproot_assets_rest_gate.Api.Endpoint.{Handler}
use taproot_assets_rest_gate.Api.Confined.{Place}
use taproot_assets_rest_gate.Api.Bodies.Rfq.{
  BuyOfferRequest, BuyOrderRequest, SellOfferRequest, SellOrderRequest,
}
use taproot_assets_rest_gate.Api.Rfq.Handlers.{
  buy_offer_handler, buy_order_handler, notifications_handler, peer_quotes_handler,
  sell_offer_handler, sell_order_handler,
}

pub data RfqRoute : Type 0 where
  to_buy_offer : (asset_id : Text) → (request : BuyOfferRequest) → RfqRoute
  to_buy_order : (asset_id : Text) → (request : BuyOrderRequest) → RfqRoute
  to_notifications : RfqRoute
  to_peer_quotes : RfqRoute
  to_sell_offer : (asset_id : Text) → (request : SellOfferRequest) → RfqRoute
  to_sell_order : (asset_id : Text) → (request : SellOrderRequest) → RfqRoute

unfoldable pub rfq_service : RfqRoute → Handler
rfq_service (to_buy_offer asset_id request) = buy_offer_handler asset_id request
rfq_service (to_buy_order asset_id request) = buy_order_handler asset_id request
rfq_service to_notifications = notifications_handler
rfq_service to_peer_quotes = peer_quotes_handler
rfq_service (to_sell_offer asset_id request) = sell_offer_handler asset_id request
rfq_service (to_sell_order asset_id request) = sell_order_handler asset_id request

abbrev pub rfq_place : RfqRoute → Place
rfq_place (to_buy_offer asset_id request) = record {
  method = method_post;
  path = ascii "/rfq/buyoffer/asset-id/" ++ asset_id;
  query = [];
}
rfq_place (to_buy_order asset_id request) = record {
  method = method_post;
  path = ascii "/rfq/buyorder/asset-id/" ++ asset_id;
  query = [];
}
rfq_place to_notifications = record { method = method_post; path = ascii "/rfq/ntfs"; query = [] }
rfq_place to_peer_quotes = record {
  method = method_get;
  path = ascii "/rfq/quotes/peeraccepted";
  query = [];
}
rfq_place (to_sell_offer asset_id request) = record {
  method = method_post;
  path = ascii "/rfq/selloffer/asset-id/" ++ asset_id;
  query = [];
}
rfq_place (to_sell_order asset_id request) = record {
  method = method_post;
  path = ascii "/rfq/sellorder/asset-id/" ++ asset_id;
  query = [];
}

-- The parameters that the route takes.
abbrev pub RfqAcceptable : RfqRoute → Type 0
RfqAcceptable (to_buy_offer asset_id request) = IsHexParam asset_id
RfqAcceptable (to_buy_order asset_id request) = IsHexParam asset_id
RfqAcceptable (to_sell_offer asset_id request) = IsHexParam asset_id
RfqAcceptable (to_sell_order asset_id request) = IsHexParam asset_id
RfqAcceptable _ = Unit
