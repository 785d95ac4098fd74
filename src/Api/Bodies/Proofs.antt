-- ===== src/Api/Bodies/Proofs.antt =====
-- src/api/proofs.rs: the bodies of requests about proofs, and how they are serialised.
use taproot_assets_rest_gate.Prelude.{ℕ, Text, ascii, Bool, Option}
use taproot_assets_rest_gate.Json.{Value, boolean, string, object, field, end}
use taproot_assets_rest_gate.Api.Endpoint.{nullable, number_of}

pub record DecodeProofRequest : Type 0 where
  pub raw_proof : Text
  pub proof_at_depth : Option ℕ
  pub with_prev_witnesses : Bool
  pub with_meta_reveal : Bool

abbrev pub decode_proof_request_value : DecodeProofRequest → Value
decode_proof_request_value r = object (
    field (ascii "raw_proof") (string r.raw_proof) (
      field (ascii "proof_at_depth") (nullable number_of r.proof_at_depth) (
        field (ascii "with_prev_witnesses") (boolean r.with_prev_witnesses)
          (field (ascii "with_meta_reveal") (boolean r.with_meta_reveal) end))))

pub record ExportProofRequest : Type 0 where
  pub asset_id : Text
  pub script_key : Text
  pub outpoint : Value

abbrev pub export_proof_request_value : ExportProofRequest → Value
export_proof_request_value r = object (
    field (ascii "asset_id") (string r.asset_id)
      (field (ascii "script_key") (string r.script_key) (field (ascii "outpoint") r.outpoint end)))

pub record UnpackFileRequest : Type 0 where
  pub raw_proof_file : Text

abbrev pub unpack_file_request_value : UnpackFileRequest → Value
unpack_file_request_value r = object (field (ascii "raw_proof_file") (string r.raw_proof_file) end)

pub record VerifyProofRequest : Type 0 where
  pub raw_proof_file : Text
  pub genesis_point : Text

abbrev pub verify_proof_request_value : VerifyProofRequest → Value
verify_proof_request_value r = object (
    field (ascii "raw_proof_file") (string r.raw_proof_file)
      (field (ascii "genesis_point") (string r.genesis_point) end))
