-- ===== src/Examples/Requests.antt =====
-- Parameters, answers and burns.
use taproot_assets_rest_gate.Prelude.{◌≡◌, ◌⊎◌, Text, ascii, none, some, [], ◌∷◌}
use taproot_assets_rest_gate.Json.{null}
use taproot_assets_rest_gate.Api.Upstream.{Request, Client, Reply, done}
use taproot_assets_rest_gate.Api.Endpoint.{Gateway, get_request, endpoint}
use taproot_assets_rest_gate.Api.Burn.{BurnRequest, burn, burn_post}
use taproot_assets_rest_gate.Api.Burn.Guard.{NamesAsset, burn_guard}
use taproot_assets_rest_gate.Examples.Parts.{http, serde}

abbrev asset_id : Text
asset_id = ascii "0123456789abcdef0123456789abcdef0123456789abcdef0123456789abcdef"

abbrev reply : Reply
reply = record { status = 404; text = some (ascii "no"); json = done null }

abbrev client : Client
client request = done reply

abbrev gateway : Gateway
gateway = record {
  http = http;
  serde = serde;
  base_url = ascii "https://tapd";
  macaroon_hex = ascii "00";
}

abbrev to_tapd : Request
to_tapd = get_request gateway (endpoint gateway (ascii "getinfo"))

abbrev request : BurnRequest
request = record {
  asset_specifier = record { asset_id_str = some asset_id; group_key_str = none };
  amount_to_burn = ascii "1";
  confirmation_text = ascii "assets will be destroyed";
  note = none;
}

burn_guard_example :
    (NamesAsset request.asset_specifier
      × ((burn http serde (ascii "u") (ascii "00") request client).0
          ≡ burn_post (ascii "u") (ascii "00") request ∷ []))
    ⊎ ((¬ NamesAsset request.asset_specifier)
        × ((burn http serde (ascii "u") (ascii "00") request client).0 ≡ [])
        × ((burn http serde (ascii "u") (ascii "00") request client).1.status ≡ 400))
burn_guard_example = burn_guard http serde (ascii "u") (ascii "00") request client
