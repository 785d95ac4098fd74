-- ===== src/Api/Assets/Routes.antt =====
-- The routes of src/api/assets.rs with their inputs.
use taproot_assets_rest_gate.Prelude.{Text, ascii, [], ◌++◌}
use taproot_assets_rest_gate.Api.Params.Accepted.{IsHexParam}
use taproot_assets_rest_gate.Api.Upstream.{method_get, method_post}
use taproot_assets_rest_gate.Api.Endpoint.{Handler}
use taproot_assets_rest_gate.Api.Confined.{Place}
use taproot_assets_rest_gate.Api.Bodies.Assets.{
  MintAssetRequest, MintFundRequest, MintFinalizeRequest, MintSealRequest, TransferRegisterRequest,
}
use taproot_assets_rest_gate.Api.Assets.Handlers.{
  mint_handler, balance_handler, groups_handler, meta_handler, mint_batches_handler,
  cancel_mint_handler, fund_mint_handler, finalize_mint_handler, seal_mint_handler,
  transfers_handler, register_transfer_handler, utxos_handler,
}

pub data AssetsRoute : Type 0 where
  to_mint : (request : MintAssetRequest) → AssetsRoute
  to_balance : (query : Text) → AssetsRoute
  to_groups : AssetsRoute
  to_meta : (asset_id : Text) → (query : Text) → AssetsRoute
  to_mint_batches : (batch_key : Text) → (query : Text) → AssetsRoute
  to_cancel_mint : AssetsRoute
  to_fund_mint : (request : MintFundRequest) → AssetsRoute
  to_finalize_mint : (request : MintFinalizeRequest) → AssetsRoute
  to_seal_mint : (request : MintSealRequest) → AssetsRoute
  to_transfers : (query : Text) → AssetsRoute
  to_register_transfer : (request : TransferRegisterRequest) → AssetsRoute
  to_utxos : (query : Text) → AssetsRoute

unfoldable pub assets_service : AssetsRoute → Handler
assets_service (to_mint request) = mint_handler request
assets_service (to_balance query) = balance_handler query
assets_service to_groups = groups_handler
assets_service (to_meta asset_id query) = meta_handler asset_id query
assets_service (to_mint_batches batch_key query) = mint_batches_handler batch_key query
assets_service to_cancel_mint = cancel_mint_handler
assets_service (to_fund_mint request) = fund_mint_handler request
assets_service (to_finalize_mint request) = finalize_mint_handler request
assets_service (to_seal_mint request) = seal_mint_handler request
assets_service (to_transfers query) = transfers_handler query
assets_service (to_register_transfer request) = register_transfer_handler request
assets_service (to_utxos query) = utxos_handler query

abbrev pub assets_place : AssetsRoute → Place
assets_place (to_mint request) = record { method = method_post; path = ascii "/assets"; query = [] }
assets_place (to_balance query) = record {
  method = method_get;
  path = ascii "/assets/balance";
  query = query;
}
assets_place to_groups = record { method = method_get; path = ascii "/assets/groups"; query = [] }
assets_place (to_meta asset_id query) = record {
  method = method_get;
  path = ascii "/assets/meta/asset-id/" ++ asset_id;
  query = query;
}
assets_place (to_mint_batches batch_key query) = record {
  method = method_get;
  path = ascii "/assets/mint/batches/" ++ batch_key;
  query = query;
}
assets_place to_cancel_mint = record {
  method = method_post;
  path = ascii "/assets/mint/cancel";
  query = [];
}
assets_place (to_fund_mint request) = record {
  method = method_post;
  path = ascii "/assets/mint/fund";
  query = [];
}
assets_place (to_finalize_mint request) = record {
  method = method_post;
  path = ascii "/assets/mint/finalize";
  query = [];
}
assets_place (to_seal_mint request) = record {
  method = method_post;
  path = ascii "/assets/mint/seal";
  query = [];
}
assets_place (to_transfers query) = record {
  method = method_get;
  path = ascii "/assets/transfers";
  query = query;
}
assets_place (to_register_transfer request) = record {
  method = method_post;
  path = ascii "/assets/transfers/register";
  query = [];
}
assets_place (to_utxos query) = record {
  method = method_get;
  path = ascii "/assets/utxos";
  query = query;
}

-- The parameters that the route takes.
abbrev pub AssetsAcceptable : AssetsRoute → Type 0
AssetsAcceptable (to_meta asset_id query) = IsHexParam asset_id
AssetsAcceptable (to_mint_batches batch_key query) = IsHexParam batch_key
AssetsAcceptable _ = Unit
