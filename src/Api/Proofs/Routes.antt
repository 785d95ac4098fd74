-- ===== src/Api/Proofs/Routes.antt =====
-- The routes of src/api/proofs.rs with their inputs.
use taproot_assets_rest_gate.Prelude.{ascii, []}
use taproot_assets_rest_gate.Api.Upstream.{method_post}
use taproot_assets_rest_gate.Api.Endpoint.{Handler}
use taproot_assets_rest_gate.Api.Confined.{Place}
use taproot_assets_rest_gate.Api.Bodies.Proofs.{
  DecodeProofRequest, ExportProofRequest, UnpackFileRequest, VerifyProofRequest,
}
use taproot_assets_rest_gate.Api.Proofs.Handlers.{decode, export, unpack_file, verify}

pub data ProofsRoute : Type 0 where
  to_decode : (request : DecodeProofRequest) → ProofsRoute
  to_export : (request : ExportProofRequest) → ProofsRoute
  to_unpack_file : (request : UnpackFileRequest) → ProofsRoute
  to_verify : (request : VerifyProofRequest) → ProofsRoute

unfoldable pub proofs_service : ProofsRoute → Handler
proofs_service (to_decode request) = decode request
proofs_service (to_export request) = export request
proofs_service (to_unpack_file request) = unpack_file request
proofs_service (to_verify request) = verify request

abbrev pub proofs_place : ProofsRoute → Place
proofs_place (to_decode request) = record {
  method = method_post;
  path = ascii "/proofs/decode";
  query = [];
}
proofs_place (to_export request) = record {
  method = method_post;
  path = ascii "/proofs/export";
  query = [];
}
proofs_place (to_unpack_file request) = record {
  method = method_post;
  path = ascii "/proofs/unpack-file";
  query = [];
}
proofs_place (to_verify request) = record {
  method = method_post;
  path = ascii "/proofs/verify";
  query = [];
}

-- The parameters that the route takes.
abbrev pub ProofsAcceptable : ProofsRoute → Type 0
ProofsAcceptable _ = Unit
