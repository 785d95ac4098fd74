-- ===== src/Api/Assets.antt =====
-- src/api/assets.rs: the calls of tapd about assets and mints.
pub mod Handlers
pub mod Routes
pub mod Relayed
pub mod Listing
use taproot_assets_rest_gate.Prelude.{Text, ascii, ◌++◌}
use taproot_assets_rest_gate.Json.{Value, object, end}
use taproot_assets_rest_gate.Api.Upstream.{Call, with_query}
use taproot_assets_rest_gate.Api.Endpoint.{
  Gateway, endpoint, get_request, post_request, delete_request, ask,
}
use taproot_assets_rest_gate.Api.Bodies.Assets.{
  MintAsset, MintAssetRequest, MintFundRequest, MintFinalizeRequest, MintSealRequest,
  TransferRegisterRequest, mint_asset_value, mint_asset_request_value, mint_fund_request_value,
  mint_finalize_request_value, mint_seal_request_value, transfer_register_request_value,
}

unfoldable pub mint_asset : Gateway → MintAssetRequest → Call Value
mint_asset g request =
    ask g (post_request g (endpoint g (ascii "assets")) (mint_asset_request_value request))

unfoldable pub get_balance : Gateway → Text → Call Value
get_balance g query = ask g (get_request g (with_query (endpoint g (ascii "assets/balance")) query))

unfoldable pub get_groups : Gateway → Call Value
get_groups g = ask g (get_request g (endpoint g (ascii "assets/groups")))

unfoldable pub get_meta : Gateway → Text → Text → Call Value
get_meta g asset_id query =
    ask g
      (get_request g (with_query (endpoint g (ascii "assets/meta/asset-id/" ++ asset_id)) query))

unfoldable pub get_mint_batches : Gateway → Text → Text → Call Value
get_mint_batches g batch_key query =
    ask g
      (get_request g (with_query (endpoint g (ascii "assets/mint/batches/" ++ batch_key)) query))

unfoldable pub cancel_mint : Gateway → Call Value
cancel_mint g = ask g (post_request g (endpoint g (ascii "assets/mint/cancel")) (object end))

unfoldable pub fund_mint : Gateway → MintFundRequest → Call Value
fund_mint g request =
    ask g (post_request g (endpoint g (ascii "assets/mint/fund")) (mint_fund_request_value request))

unfoldable pub finalize_mint : Gateway → MintFinalizeRequest → Call Value
finalize_mint g request = ask g (
    post_request g (endpoint g (ascii "assets/mint/finalize"))
      (mint_finalize_request_value request))

unfoldable pub seal_mint : Gateway → MintSealRequest → Call Value
seal_mint g request =
    ask g (post_request g (endpoint g (ascii "assets/mint/seal")) (mint_seal_request_value request))

unfoldable pub get_transfers : Gateway → Text → Call Value
get_transfers g query =
    ask g (get_request g (with_query (endpoint g (ascii "assets/transfers")) query))

unfoldable pub register_transfer : Gateway → TransferRegisterRequest → Call Value
register_transfer g request = ask g (
    post_request g (endpoint g (ascii "assets/transfers/register"))
      (transfer_register_request_value request))

unfoldable pub get_utxos : Gateway → Text → Call Value
get_utxos g query = ask g (get_request g (with_query (endpoint g (ascii "assets/utxos")) query))
