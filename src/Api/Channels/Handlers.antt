-- ===== src/Api/Channels/Handlers.antt =====
-- src/api/channels.rs: the handlers, which check what stands in the path.
use taproot_assets_rest_gate.Api.Endpoint.{Handler, answered}
use taproot_assets_rest_gate.Api.Bodies.Channels.{
  EncodeCustomDataRequest, FundChannelRequest, InvoiceRequest, DecodeInvoiceRequest,
  SendPaymentRequest,
}
use taproot_assets_rest_gate.Api.Channels.{
  encode_custom_data, fund_channel, create_invoice, decode_invoice, send_payment,
}

unfoldable pub encode_custom_data_handler : EncodeCustomDataRequest → Handler
encode_custom_data_handler request g = answered (encode_custom_data g request) g

unfoldable pub fund_handler : FundChannelRequest → Handler
fund_handler request g = answered (fund_channel g request) g

unfoldable pub create_invoice_handler : InvoiceRequest → Handler
create_invoice_handler request g = answered (create_invoice g request) g

unfoldable pub decode_invoice_handler : DecodeInvoiceRequest → Handler
decode_invoice_handler request g = answered (decode_invoice g request) g

unfoldable pub send_payment_handler : SendPaymentRequest → Handler
send_payment_handler request g = answered (send_payment g request) g
