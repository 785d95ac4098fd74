-- ===== src/Api/Assets/Handlers.antt =====
-- src/api/assets.rs: the handlers, which check what stands in the path.
use taproot_assets_rest_gate.Prelude.{Text}
use taproot_assets_rest_gate.Api.Params.{validate_hex_param}
use taproot_assets_rest_gate.Api.Endpoint.{Handler, answered, guarded}
use taproot_assets_rest_gate.Api.Bodies.Assets.{
  MintAssetRequest, MintFundRequest, MintFinalizeRequest, MintSealRequest, TransferRegisterRequest,
}
use taproot_assets_rest_gate.Api.Assets.{
  mint_asset, get_balance, get_groups, get_meta, get_mint_batches, cancel_mint, fund_mint,
  finalize_mint, seal_mint, get_transfers, register_transfer, get_utxos,
}

unfoldable pub mint_handler : MintAssetRequest → Handler
mint_handler request g = answered (mint_asset g request) g

unfoldable pub balance_handler : Text → Handler
balance_handler query g = answered (get_balance g query) g

unfoldable pub groups_handler : Handler
groups_handler g = answered (get_groups g) g

unfoldable pub meta_handler : Text → Text → Handler
meta_handler asset_id query g = guarded (validate_hex_param asset_id) (get_meta g asset_id query) g

unfoldable pub mint_batches_handler : Text → Text → Handler
mint_batches_handler batch_key query g =
    guarded (validate_hex_param batch_key) (get_mint_batches g batch_key query) g

unfoldable pub cancel_mint_handler : Handler
cancel_mint_handler g = answered (cancel_mint g) g

unfoldable pub fund_mint_handler : MintFundRequest → Handler
fund_mint_handler request g = answered (fund_mint g request) g

unfoldable pub finalize_mint_handler : MintFinalizeRequest → Handler
finalize_mint_handler request g = answered (finalize_mint g request) g

unfoldable pub seal_mint_handler : MintSealRequest → Handler
seal_mint_handler request g = answered (seal_mint g request) g

unfoldable pub transfers_handler : Text → Handler
transfers_handler query g = answered (get_transfers g query) g

unfoldable pub register_transfer_handler : TransferRegisterRequest → Handler
register_transfer_handler request g = answered (register_transfer g request) g

unfoldable pub utxos_handler : Text → Handler
utxos_handler query g = answered (get_utxos g query) g
