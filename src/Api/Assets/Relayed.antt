-- ===== src/Api/Assets/Relayed.antt =====
-- The requests of the routes of src/api/assets.rs stay below the prefix of tapd.
use taproot_assets_rest_gate.Prelude.{all, refl}
use taproot_assets_rest_gate.Api.Params.{validate_hex_param}
use taproot_assets_rest_gate.Api.Upstream.{Client, with_query}
use taproot_assets_rest_gate.Api.Endpoint.{Gateway, ask-sent}
use taproot_assets_rest_gate.Api.Confined.{
  Confines, guarded-Confines, answered-Confines, validate_hex_param-IsCheck, hex_path,
  IsHexParam-ok,
}
use taproot_assets_rest_gate.Api.Assets.{
  mint_asset, get_balance, get_groups, get_meta, get_mint_batches, cancel_mint, fund_mint,
  finalize_mint, seal_mint, get_transfers, register_transfer, get_utxos,
}
use taproot_assets_rest_gate.Api.Assets.Handlers.{
  mint_handler, balance_handler, groups_handler, meta_handler, mint_batches_handler,
  cancel_mint_handler, fund_mint_handler, finalize_mint_handler, seal_mint_handler,
  transfers_handler, register_transfer_handler, utxos_handler,
}
use taproot_assets_rest_gate.Api.Assets.Routes.{
  AssetsRoute, assets_service, assets_place, AssetsAcceptable, to_mint, to_balance, to_groups,
  to_meta, to_mint_batches, to_cancel_mint, to_fund_mint, to_finalize_mint, to_seal_mint,
  to_transfers, to_register_transfer, to_utxos,
}

pub assets_service-Confines :
    (r : AssetsRoute) (g : Gateway) (client : Client)
    → Confines g (assets_place r) (AssetsAcceptable r) (assets_service r g client)
unfolding assets_service mint_handler balance_handler groups_handler meta_handler
    mint_batches_handler cancel_mint_handler fund_mint_handler finalize_mint_handler
    seal_mint_handler transfers_handler register_transfer_handler utxos_handler cancel_mint
    finalize_mint fund_mint get_balance get_groups get_meta get_mint_batches get_transfers get_utxos
    mint_asset register_transfer seal_mint with_query all
assets_service-Confines (to_mint request) g client =
    answered-Confines g (assets_place (to_mint request)) (mint_asset g request) _ client
      (ask-sent g _ client) (refl, refl, refl, refl)
assets_service-Confines (to_balance query) g client =
    answered-Confines g (assets_place (to_balance query)) (get_balance g query) _ client
      (ask-sent g _ client) (refl, refl, refl, refl)
assets_service-Confines to_groups g client =
    answered-Confines g (assets_place to_groups) (get_groups g) _ client (ask-sent g _ client)
      (refl, refl, refl, refl)
assets_service-Confines (to_meta asset_id query) g client =
    guarded-Confines g (assets_place (to_meta asset_id query))
      (AssetsAcceptable (to_meta asset_id query)) (validate_hex_param asset_id) _ client
      (validate_hex_param-IsCheck asset_id) (λ a. IsHexParam-ok asset_id a)
      (λ p. (refl, refl, refl, hex_path asset_id p))
assets_service-Confines (to_mint_batches batch_key query) g client =
    guarded-Confines g (assets_place (to_mint_batches batch_key query))
      (AssetsAcceptable (to_mint_batches batch_key query)) (validate_hex_param batch_key) _ client
      (validate_hex_param-IsCheck batch_key) (λ a. IsHexParam-ok batch_key a)
      (λ p. (refl, refl, refl, hex_path batch_key p))
assets_service-Confines to_cancel_mint g client =
    answered-Confines g (assets_place to_cancel_mint) (cancel_mint g) _ client (ask-sent g _ client)
      (refl, refl, refl, refl)
assets_service-Confines (to_fund_mint request) g client =
    answered-Confines g (assets_place (to_fund_mint request)) (fund_mint g request) _ client
      (ask-sent g _ client) (refl, refl, refl, refl)
assets_service-Confines (to_finalize_mint request) g client =
    answered-Confines g (assets_place (to_finalize_mint request)) (finalize_mint g request) _ client
      (ask-sent g _ client) (refl, refl, refl, refl)
assets_service-Confines (to_seal_mint request) g client =
    answered-Confines g (assets_place (to_seal_mint request)) (seal_mint g request) _ client
      (ask-sent g _ client) (refl, refl, refl, refl)
assets_service-Confines (to_transfers query) g client =
    answered-Confines g (assets_place (to_transfers query)) (get_transfers g query) _ client
      (ask-sent g _ client) (refl, refl, refl, refl)
assets_service-Confines (to_register_transfer request) g client =
    answered-Confines g (assets_place (to_register_transfer request)) (register_transfer g request)
      _ client (ask-sent g _ client) (refl, refl, refl, refl)
assets_service-Confines (to_utxos query) g client =
    answered-Confines g (assets_place (to_utxos query)) (get_utxos g query) _ client
      (ask-sent g _ client) (refl, refl, refl, refl)
