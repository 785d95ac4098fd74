-- ===== src/Api/Assets/Listing.antt =====
-- src/api/assets.rs: the listing of assets and that of mint batches, which answer in their own way.
use taproot_assets_rest_gate.Prelude.{
  ℕ, Text, ascii, Bool, Option, none, some, List, map, if◌then◌else◌, ◌==◌, nat_key,
}
use taproot_assets_rest_gate.Json.{Value, string, array, object, field, end, nil}
use taproot_assets_rest_gate.Error.{
  Result, ok, err, ReqwestError, AppError, request_error, HttpResponse, status_code, display, Http,
}
use taproot_assets_rest_gate.Api.Upstream.{
  Reply, Call, ◌>>=◌, lift, send, parse_upstream, with_query,
}
use taproot_assets_rest_gate.Api.Endpoint.{
  Gateway, Handler, endpoint, get_request, answered, array_of,
}

pub record AssetGenesis : Type 0 where
  pub genesis_point : Option Text
  pub name : Option Text
  pub meta_hash : Option Text
  pub asset_id : Option Text
  pub asset_type : Option Text
  pub output_index : Option ℕ

pub record ChainAnchor : Type 0 where
  pub anchor_tx : Option Text
  pub anchor_block_hash : Option Text
  pub anchor_outpoint : Option Text
  pub internal_key : Option Text
  pub merkle_root : Option Text
  pub tapscript_sibling : Option Text
  pub block_height : Option ℕ
  pub block_timestamp : Option Text

pub record Asset : Type 0 where
  pub version : Option Text
  pub asset_genesis : Option AssetGenesis
  pub amount : Option Text
  pub lock_time : Option ℕ
  pub relative_lock_time : Option ℕ
  pub script_version : Option ℕ
  pub script_key : Option Text
  pub script_key_is_local : Option Bool
  pub asset_group : Option Value
  pub chain_anchor : Option ChainAnchor
  pub prev_witnesses : Option (List Value)
  pub is_spent : Option Bool
  pub lease_owner : Option Text
  pub lease_expiry : Option Text
  pub is_burn : Option Bool
  pub script_key_declared_known : Option Bool
  pub script_key_has_script_path : Option Bool
  pub decimal_display : Option Value
  pub script_key_type : Option Text
  pub asset_id : Option Text
  pub asset_type : Option Text

abbrev pub with_genesis : Option AssetGenesis → Asset → Asset
with_genesis none a = a
with_genesis (some genesis) a = record a {
  asset_id = genesis.asset_id;
  asset_type = genesis.asset_type;
}

unfoldable pub populate_legacy_fields : Asset → Asset
populate_legacy_fields a = with_genesis a.asset_genesis a

pub data AssetResponse : Type 0 where
  wrapped :
      (assets : List Asset) (unconfirmed_transfers unconfirmed_mints : Option Text) → AssetResponse
  direct : List Asset → AssetResponse

unfoldable pub into_assets : AssetResponse → List Asset
unfolding populate_legacy_fields
into_assets (wrapped assets transfers mints) = map populate_legacy_fields assets
into_assets (direct assets) = map populate_legacy_fields assets

-- What serde reads and writes, `reqwest`'s error for what it cannot read, and `{:?}`.
pub record AssetReader : Type 0 where
  pub response : Value → Option AssetResponse
  pub asset_value : Asset → Value
  pub mismatch : ReqwestError
  pub debug : AppError → Text

abbrev pub read_assets : AssetReader → Option AssetResponse → Result (List Asset)
read_assets r none = err (request_error r.mismatch)
read_assets r (some response) = ok (into_assets response)

abbrev pub assets_of : AssetReader → Result Value → Result (List Asset)
assets_of r (err e) = err e
assets_of r (ok v) = read_assets r (r.response v)

unfoldable pub list_assets : AssetReader → Gateway → Text → Call (List Asset)
list_assets r g query = do
  response ← send (get_request g (with_query (endpoint g (ascii "assets")) query))
  lift (assets_of r (parse_upstream g.http response))

-- The two counts of unconfirmed items are written as "0", whatever tapd said.
abbrev pub list_response : AssetReader → Gateway → Result (List Asset) → HttpResponse
list_response r g (ok assets) = record {
  status = 200;
  body = object (
      field (ascii "assets") (array_of r.asset_value assets) (
        field (ascii "unconfirmed_transfers") (string (ascii "0"))
          (field (ascii "unconfirmed_mints") (string (ascii "0")) end)));
}
list_response r g (err e) = record {
  status = status_code g.http e;
  body =
      object (
        field (ascii "error") (string (display e)) (field (ascii "type") (string (r.debug e)) end));
}

unfoldable pub list_handler : AssetReader → Text → Handler
list_handler r query g client =
    let (sent, result) = list_assets r g query client in (sent, list_response r g result)

-- A 404 of tapd means that there are none.
unfoldable pub batches_of : Http → Reply → Result Value
batches_of h response =
    if response.status == 404
    then ok (object (field (ascii "batches") (array nil) end))
    else parse_upstream h response

unfoldable pub list_all_mint_batches : Gateway → Call Value
unfolding batches_of
list_all_mint_batches g = do
  response ← send (get_request g (endpoint g (ascii "assets/mint/batches")))
  lift (batches_of g.http response)

unfoldable pub list_mint_batches_handler : Handler
list_mint_batches_handler g = answered (list_all_mint_batches g) g
