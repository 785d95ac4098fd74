-- ===== src/Api/Bodies/Channels.antt =====
-- src/api/channels.rs: the bodies of requests about asset channels, and how they are serialised.
use taproot_assets_rest_gate.Prelude.{ℕ, Text, ascii, Bool, Option}
use taproot_assets_rest_gate.Json.{Value, boolean, string, object, field, end}
use taproot_assets_rest_gate.Api.Endpoint.{nullable, itself, number_of}

pub record EncodeCustomDataRequest : Type 0 where
  pub router_send_payment : Value

abbrev pub encode_custom_data_request_value : EncodeCustomDataRequest → Value
encode_custom_data_request_value r =
    object (field (ascii "router_send_payment") r.router_send_payment end)

pub record FundChannelRequest : Type 0 where
  pub asset_amount : Text
  pub asset_id : Text
  pub peer_pubkey : Text
  pub fee_rate_sat_per_vbyte : ℕ
  pub push_sat : Option Text
  pub group_key : Option Text

abbrev pub fund_channel_request_value : FundChannelRequest → Value
fund_channel_request_value r = object (
    field (ascii "asset_amount") (string r.asset_amount) (
      field (ascii "asset_id") (string r.asset_id) (
        field (ascii "peer_pubkey") (string r.peer_pubkey) (
          field (ascii "fee_rate_sat_per_vbyte") (number_of r.fee_rate_sat_per_vbyte) (
            field (ascii "push_sat") (nullable string r.push_sat)
              (field (ascii "group_key") (nullable string r.group_key) end))))))

pub record InvoiceRequest : Type 0 where
  pub asset_id : Text
  pub asset_amount : Text
  pub peer_pubkey : Text
  pub invoice_request : Option Value
  pub hodl_invoice : Option Value
  pub group_key : Option Text

abbrev pub invoice_request_value : InvoiceRequest → Value
invoice_request_value r = object (
    field (ascii "asset_id") (string r.asset_id) (
      field (ascii "asset_amount") (string r.asset_amount) (
        field (ascii "peer_pubkey") (string r.peer_pubkey) (
          field (ascii "invoice_request") (nullable itself r.invoice_request) (
            field (ascii "hodl_invoice") (nullable itself r.hodl_invoice)
              (field (ascii "group_key") (nullable string r.group_key) end))))))

pub record DecodeInvoiceRequest : Type 0 where
  pub asset_id : Text
  pub pay_req_string : Text
  pub group_key : Option Text

abbrev pub decode_invoice_request_value : DecodeInvoiceRequest → Value
decode_invoice_request_value r = object (
    field (ascii "asset_id") (string r.asset_id) (
      field (ascii "pay_req_string") (string r.pay_req_string)
        (field (ascii "group_key") (nullable string r.group_key) end)))

pub record SendPaymentRequest : Type 0 where
  pub asset_id : Text
  pub asset_amount : Text
  pub peer_pubkey : Text
  pub payment_request : Option Value
  pub rfq_id : Option Text
  pub allow_overpay : Bool
  pub group_key : Option Text

abbrev pub send_payment_request_value : SendPaymentRequest → Value
send_payment_request_value r = object (
    field (ascii "asset_id") (string r.asset_id) (
      field (ascii "asset_amount") (string r.asset_amount) (
        field (ascii "peer_pubkey") (string r.peer_pubkey) (
          field (ascii "payment_request") (nullable itself r.payment_request) (
            field (ascii "rfq_id") (nullable string r.rfq_id) (
              field (ascii "allow_overpay") (boolean r.allow_overpay)
                (field (ascii "group_key") (nullable string r.group_key) end)))))))
