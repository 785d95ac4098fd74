-- ===== src/Examples/Routes.antt =====
-- A route of the universe at work, and parameters that are refused.
use taproot_assets_rest_gate.Prelude.{◌≡◌, ascii, none, [], ◌∷◌, all, refl, contains}
use taproot_assets_rest_gate.Json.{null}
use taproot_assets_rest_gate.Api.Upstream.{
  Client, done, method_get, with_query, ◌>>=◌, send, handle_result,
}
use taproot_assets_rest_gate.Error.{status_code}
use taproot_assets_rest_gate.Api.Params.{validate_hex_param, validate_integer_param, has_traversal}
use taproot_assets_rest_gate.Api.Endpoint.{Gateway, ask, guarded}
use taproot_assets_rest_gate.Api.Confined.{Confines}
use taproot_assets_rest_gate.Api.Universe.{get_proofs}
use taproot_assets_rest_gate.Api.Universe.Handlers.{proofs_handler}
use taproot_assets_rest_gate.Api.Universe.Routes.{to_proofs, universe_service}
use taproot_assets_rest_gate.Api.Service.{
  Route, universe, service, place, Acceptable, service-Confines,
}
use taproot_assets_rest_gate.Examples.Parts.{http, serde}

abbrev gateway : Gateway
gateway = record {
  http = http;
  serde = serde;
  base_url = ascii "https://tapd:8089";
  macaroon_hex = ascii "00";
}

abbrev tapd : Client
tapd request = done (record { status = 200; text = none; json = done null })

abbrev proofs_of : Route
proofs_of =
    universe (to_proofs (ascii "ab12") (ascii "cd") (ascii "7") (ascii "02ef") (ascii "limit=5"))

service-Confines_example :
    Confines gateway (place proofs_of) (Acceptable proofs_of) (service proofs_of gateway tapd)
service-Confines_example = service-Confines proofs_of gateway tapd

proofs_sent :
    (service proofs_of gateway tapd).0
    ≡ record {
      method = method_get;
      url =
          ascii
            "https://tapd:8089/v1/taproot-assets/universe/proofs/asset-id/ab12/cd/7/02ef?limit=5";
      macaroon = ascii "00";
      body = none;
    }
      ∷ []
unfolding service universe_service proofs_handler guarded validate_hex_param has_traversal contains
    all validate_integer_param get_proofs ask ◌>>=◌ send with_query
proofs_sent = refl

abbrev climbing : Route
climbing = universe (to_proofs (ascii "ab12") (ascii "..") (ascii "7") (ascii "02ef") [])

climbing_refused :
    ((service climbing gateway tapd).0 ≡ []) × ((service climbing gateway tapd).1.status ≡ 400)
unfolding service universe_service proofs_handler guarded validate_hex_param has_traversal contains
    all handle_result status_code
climbing_refused = (refl, refl)
