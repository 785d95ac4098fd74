-- ===== src/Api/Channels/Routes.antt =====
-- The routes of src/api/channels.rs with their inputs.
use taproot_assets_rest_gate.Prelude.{ascii, []}
use taproot_assets_rest_gate.Api.Upstream.{method_post}
use taproot_assets_rest_gate.Api.Endpoint.{Handler}
use taproot_assets_rest_gate.Api.Confined.{Place}
use taproot_assets_rest_gate.Api.Bodies.Channels.{
  EncodeCustomDataRequest, FundChannelRequest, InvoiceRequest, DecodeInvoiceRequest,
  SendPaymentRequest,
}
use taproot_assets_rest_gate.Api.Channels.Handlers.{
  encode_custom_data_handler, fund_handler, create_invoice_handler, decode_invoice_handler,
  send_payment_handler,
}

pub data ChannelsRoute : Type 0 where
  to_encode_custom_data : (request : EncodeCustomDataRequest) → ChannelsRoute
  to_fund : (request : FundChannelRequest) → ChannelsRoute
  to_create_invoice : (request : InvoiceRequest) → ChannelsRoute
  to_decode_invoice : (request : DecodeInvoiceRequest) → ChannelsRoute
  to_send_payment : (request : SendPaymentRequest) → ChannelsRoute

unfoldable pub channels_service : ChannelsRoute → Handler
channels_service (to_encode_custom_data request) = encode_custom_data_handler request
channels_service (to_fund request) = fund_handler request
channels_service (to_create_invoice request) = create_invoice_handler request
channels_service (to_decode_invoice request) = decode_invoice_handler request
channels_service (to_send_payment request) = send_payment_handler request

abbrev pub channels_place : ChannelsRoute → Place
channels_place (to_encode_custom_data request) = record {
  method = method_post;
  path = ascii "/channels/encode-custom-data";
  query = [];
}
channels_place (to_fund request) = record {
  method = method_post;
  path = ascii "/channels/fund";
  query = [];
}
channels_place (to_create_invoice request) = record {
  method = method_post;
  path = ascii "/channels/invoice";
  query = [];
}
channels_place (to_decode_invoice request) = record {
  method = method_post;
  path = ascii "/channels/invoice/decode";
  query = [];
}
channels_place (to_send_payment request) = record {
  method = method_post;
  path = ascii "/channels/send-payment";
  query = [];
}

-- The parameters that the route takes.
abbrev pub ChannelsAcceptable : ChannelsRoute → Type 0
ChannelsAcceptable _ = Unit
