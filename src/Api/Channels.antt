-- ===== src/Api/Channels.antt =====
-- src/api/channels.rs: the calls of tapd about asset channels.
pub mod Handlers
pub mod Routes
pub mod Relayed
use taproot_assets_rest_gate.Prelude.{Text, ascii, ◌++◌}
use taproot_assets_rest_gate.Json.{Value, object, end}
use taproot_assets_rest_gate.Api.Upstream.{Call, with_query}
use taproot_assets_rest_gate.Api.Endpoint.{
  Gateway, endpoint, get_request, post_request, delete_request, ask,
}
use taproot_assets_rest_gate.Api.Bodies.Channels.{
  EncodeCustomDataRequest, FundChannelRequest, InvoiceRequest, DecodeInvoiceRequest,
  SendPaymentRequest, encode_custom_data_request_value, fund_channel_request_value,
  invoice_request_value, decode_invoice_request_value, send_payment_request_value,
}

unfoldable pub encode_custom_data : Gateway → EncodeCustomDataRequest → Call Value
encode_custom_data g request = ask g (
    post_request g (endpoint g (ascii "channels/encode-custom-data"))
      (encode_custom_data_request_value request))

unfoldable pub fund_channel : Gateway → FundChannelRequest → Call Value
fund_channel g request =
    ask g (post_request g (endpoint g (ascii "channels/fund")) (fund_channel_request_value request))

unfoldable pub create_invoice : Gateway → InvoiceRequest → Call Value
create_invoice g request =
    ask g (post_request g (endpoint g (ascii "channels/invoice")) (invoice_request_value request))

unfoldable pub decode_invoice : Gateway → DecodeInvoiceRequest → Call Value
decode_invoice g request = ask g (
    post_request g (endpoint g (ascii "channels/invoice/decode"))
      (decode_invoice_request_value request))

unfoldable pub send_payment : Gateway → SendPaymentRequest → Call Value
send_payment g request = ask g (
    post_request g (endpoint g (ascii "channels/send-payment"))
      (send_payment_request_value request))
