-- ===== src/Api/Proofs/Relayed.antt =====
-- The requests of the routes of src/api/proofs.rs stay below the prefix of tapd.
use taproot_assets_rest_gate.Prelude.{all, refl}
use taproot_assets_rest_gate.Api.Upstream.{Client, with_query}
use taproot_assets_rest_gate.Api.Endpoint.{Gateway, ask-sent}
use taproot_assets_rest_gate.Api.Confined.{Confines, answered-Confines}
use taproot_assets_rest_gate.Api.Proofs.{
  decode_proof, export_proof, unpack_proof_file, verify_proof,
}
use taproot_assets_rest_gate.Api.Proofs.Handlers.{decode, export, unpack_file, verify}
use taproot_assets_rest_gate.Api.Proofs.Routes.{
  ProofsRoute, proofs_service, proofs_place, ProofsAcceptable, to_decode, to_export, to_unpack_file,
  to_verify,
}

pub proofs_service-Confines :
    (r : ProofsRoute) (g : Gateway) (client : Client)
    → Confines g (proofs_place r) (ProofsAcceptable r) (proofs_service r g client)
unfolding proofs_service decode export unpack_file verify decode_proof export_proof
    unpack_proof_file verify_proof with_query all
proofs_service-Confines (to_decode request) g client =
    answered-Confines g (proofs_place (to_decode request)) (decode_proof g request) _ client
      (ask-sent g _ client) (refl, refl, refl, refl)
proofs_service-Confines (to_export request) g client =
    answered-Confines g (proofs_place (to_export request)) (export_proof g request) _ client
      (ask-sent g _ client) (refl, refl, refl, refl)
proofs_service-Confines (to_unpack_file request) g client =
    answered-Confines g (proofs_place (to_unpack_file request)) (unpack_proof_file g request) _
      client (ask-sent g _ client) (refl, refl, refl, refl)
proofs_service-Confines (to_verify request) g client =
    answered-Confines g (proofs_place (to_verify request)) (verify_proof g request) _ client
      (ask-sent g _ client) (refl, refl, refl, refl)
