-- ===== src/Api/Proofs.antt =====
-- src/api/proofs.rs: the calls of tapd about proofs.
pub mod Handlers
pub mod Routes
pub mod Relayed
use taproot_assets_rest_gate.Prelude.{Text, ascii, ◌++◌}
use taproot_assets_rest_gate.Json.{Value, object, end}
use taproot_assets_rest_gate.Api.Upstream.{Call, with_query}
use taproot_assets_rest_gate.Api.Endpoint.{
  Gateway, endpoint, get_request, post_request, delete_request, ask,
}
use taproot_assets_rest_gate.Api.Bodies.Proofs.{
  DecodeProofRequest, ExportProofRequest, UnpackFileRequest, VerifyProofRequest,
  decode_proof_request_value, export_proof_request_value, unpack_file_request_value,
  verify_proof_request_value,
}

unfoldable pub decode_proof : Gateway → DecodeProofRequest → Call Value
decode_proof g request =
    ask g (post_request g (endpoint g (ascii "proofs/decode")) (decode_proof_request_value request))

unfoldable pub export_proof : Gateway → ExportProofRequest → Call Value
export_proof g request =
    ask g (post_request g (endpoint g (ascii "proofs/export")) (export_proof_request_value request))

unfoldable pub unpack_proof_file : Gateway → UnpackFileRequest → Call Value
unpack_proof_file g request =
    ask g
      (post_request g (endpoint g (ascii "proofs/unpack-file")) (unpack_file_request_value request))

unfoldable pub verify_proof : Gateway → VerifyProofRequest → Call Value
verify_proof g request =
    ask g (post_request g (endpoint g (ascii "proofs/verify")) (verify_proof_request_value request))
