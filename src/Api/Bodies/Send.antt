-- ===== src/Api/Bodies/Send.antt =====
-- src/api/send.rs: the bodies of requests about sending assets, and how they are serialised.
use taproot_assets_rest_gate.Prelude.{ℕ, Text, ascii, Bool, Option, List}
use taproot_assets_rest_gate.Json.{Value, boolean, string, object, field, end}
use taproot_assets_rest_gate.Api.Endpoint.{optional, array_of, number_of}

pub record SendRequest : Type 0 where
  pub tap_addrs : List Text
  pub fee_rate : Option ℕ
  pub label : Option Text
  pub skip_proof_courier_ping_check : Option Bool

abbrev pub send_request_value : SendRequest → Value
send_request_value r = object (
    field (ascii "tap_addrs") (array_of string r.tap_addrs) (
      optional number_of (ascii "fee_rate") r.fee_rate (
        optional string (ascii "label") r.label (
          optional boolean (ascii "skip_proof_courier_ping_check") r.skip_proof_courier_ping_check
            end))))
