-- ===== src/Api/Proofs/Handlers.antt =====
-- src/api/proofs.rs: the handlers, which check what stands in the path.
use taproot_assets_rest_gate.Api.Endpoint.{Handler, answered}
use taproot_assets_rest_gate.Api.Bodies.Proofs.{
  DecodeProofRequest, ExportProofRequest, UnpackFileRequest, VerifyProofRequest,
}
use taproot_assets_rest_gate.Api.Proofs.{
  decode_proof, export_proof, unpack_proof_file, verify_proof,
}

unfoldable pub decode : DecodeProofRequest → Handler
decode request g = answered (decode_proof g request) g

unfoldable pub export : ExportProofRequest → Handler
export request g = answered (export_proof g request) g

unfoldable pub unpack_file : UnpackFileRequest → Handler
unpack_file request g = answered (unpack_proof_file g request) g

unfoldable pub verify : VerifyProofRequest → Handler
verify request g = answered (verify_proof g request) g
