-- ===== src/Api/Bodies/Rfq.antt =====
-- src/api/rfq.rs: the bodies of requests about quotes and orders, and how they are serialised.
use taproot_assets_rest_gate.Prelude.{ℕ, Text, ascii, Bool}
use taproot_assets_rest_gate.Json.{Value, boolean, string, object, field, end}
use taproot_assets_rest_gate.Api.Endpoint.{number_of}

pub record BuyOfferRequest : Type 0 where
  pub asset_specifier : Value
  pub max_units : Text

abbrev pub buy_offer_request_value : BuyOfferRequest → Value
buy_offer_request_value r = object (
    field (ascii "asset_specifier") r.asset_specifier
      (field (ascii "max_units") (string r.max_units) end))

pub record BuyOrderRequest : Type 0 where
  pub asset_specifier : Value
  pub asset_max_amt : Text
  pub expiry : Text
  pub peer_pub_key : Text
  pub timeout_seconds : ℕ
  pub skip_asset_channel_check : Bool

abbrev pub buy_order_request_value : BuyOrderRequest → Value
buy_order_request_value r = object (
    field (ascii "asset_specifier") r.asset_specifier (
      field (ascii "asset_max_amt") (string r.asset_max_amt) (
        field (ascii "expiry") (string r.expiry) (
          field (ascii "peer_pub_key") (string r.peer_pub_key) (
            field (ascii "timeout_seconds") (number_of r.timeout_seconds) (
              field (ascii "skip_asset_channel_check") (boolean r.skip_asset_channel_check)
                end))))))

pub record SellOfferRequest : Type 0 where
  pub asset_specifier : Value
  pub max_units : Text

abbrev pub sell_offer_request_value : SellOfferRequest → Value
sell_offer_request_value r = object (
    field (ascii "asset_specifier") r.asset_specifier
      (field (ascii "max_units") (string r.max_units) end))

pub record SellOrderRequest : Type 0 where
  pub asset_specifier : Value
  pub payment_max_amt : Text
  pub expiry : Text
  pub peer_pub_key : Text
  pub timeout_seconds : ℕ
  pub skip_asset_channel_check : Bool

abbrev pub sell_order_request_value : SellOrderRequest → Value
sell_order_request_value r = object (
    field (ascii "asset_specifier") r.asset_specifier (
      field (ascii "payment_max_amt") (string r.payment_max_amt) (
        field (ascii "expiry") (string r.expiry) (
          field (ascii "peer_pub_key") (string r.peer_pub_key) (
            field (ascii "timeout_seconds") (number_of r.timeout_seconds) (
              field (ascii "skip_asset_channel_check") (boolean r.skip_asset_channel_check)
                end))))))
