-- ===== src/Api/Wallet/Relayed.antt =====
-- The requests of the routes of src/api/wallet.rs stay below the prefix of tapd.
use taproot_assets_rest_gate.Prelude.{all, refl}
use taproot_assets_rest_gate.Api.Params.{validate_hex_param}
use taproot_assets_rest_gate.Api.Upstream.{Client, with_query}
use taproot_assets_rest_gate.Api.Endpoint.{Gateway, ask-sent}
use taproot_assets_rest_gate.Api.Confined.{
  Confines, guarded-Confines, answered-Confines, validate_hex_param-IsCheck, hex_path,
  IsHexParam-ok,
}
use taproot_assets_rest_gate.Api.Wallet.{
  next_internal_key, get_internal_key, prove_ownership, verify_ownership, declare_script_key,
  next_script_key, get_script_key, delete_utxo_lease, anchor_virtual_psbt, commit_virtual_psbt,
  fund_virtual_psbt, log_virtual_psbt_transfer, sign_virtual_psbt, export_wallet_backup,
  import_wallet_backup,
}
use taproot_assets_rest_gate.Api.Wallet.Handlers.{
  export_backup_handler, import_backup_handler, next_internal_key_handler, get_internal_key_handler,
  prove_ownership_handler, verify_ownership_handler, declare_script_key_handler,
  next_script_key_handler, get_script_key_handler, delete_utxo_lease_handler,
  anchor_virtual_psbt_handler, commit_virtual_psbt_handler, fund_virtual_psbt_handler,
  log_virtual_psbt_transfer_handler, sign_virtual_psbt_handler,
}
use taproot_assets_rest_gate.Api.Wallet.Routes.{
  WalletRoute, wallet_service, wallet_place, WalletAcceptable, to_export_backup, to_import_backup,
  to_next_internal_key, to_get_internal_key, to_prove_ownership, to_verify_ownership,
  to_declare_script_key, to_next_script_key, to_get_script_key, to_delete_utxo_lease,
  to_anchor_virtual_psbt, to_commit_virtual_psbt, to_fund_virtual_psbt,
  to_log_virtual_psbt_transfer, to_sign_virtual_psbt,
}

pub wallet_service-Confines :
    (r : WalletRoute) (g : Gateway) (client : Client)
    → Confines g (wallet_place r) (WalletAcceptable r) (wallet_service r g client)
unfolding wallet_service export_backup_handler import_backup_handler next_internal_key_handler
    get_internal_key_handler prove_ownership_handler verify_ownership_handler
    declare_script_key_handler next_script_key_handler get_script_key_handler
    delete_utxo_lease_handler anchor_virtual_psbt_handler commit_virtual_psbt_handler
    fund_virtual_psbt_handler log_virtual_psbt_transfer_handler sign_virtual_psbt_handler
    anchor_virtual_psbt commit_virtual_psbt declare_script_key delete_utxo_lease
    export_wallet_backup fund_virtual_psbt get_internal_key get_script_key import_wallet_backup
    log_virtual_psbt_transfer next_internal_key next_script_key prove_ownership sign_virtual_psbt
    verify_ownership with_query all
wallet_service-Confines (to_export_backup request) g client =
    answered-Confines g (wallet_place (to_export_backup request)) (export_wallet_backup g request) _
      client (ask-sent g _ client) (refl, refl, refl, refl)
wallet_service-Confines (to_import_backup request) g client =
    answered-Confines g (wallet_place (to_import_backup request)) (import_wallet_backup g request) _
      client (ask-sent g _ client) (refl, refl, refl, refl)
wallet_service-Confines (to_next_internal_key request) g client =
    answered-Confines g (wallet_place (to_next_internal_key request)) (next_internal_key g request)
      _ client (ask-sent g _ client) (refl, refl, refl, refl)
wallet_service-Confines (to_get_internal_key internal_key) g client =
    guarded-Confines g (wallet_place (to_get_internal_key internal_key))
      (WalletAcceptable (to_get_internal_key internal_key)) (validate_hex_param internal_key) _
      client (validate_hex_param-IsCheck internal_key) (λ a. IsHexParam-ok internal_key a)
      (λ p. (refl, refl, refl, hex_path internal_key p))
wallet_service-Confines (to_prove_ownership request) g client =
    answered-Confines g (wallet_place (to_prove_ownership request)) (prove_ownership g request) _
      client (ask-sent g _ client) (refl, refl, refl, refl)
wallet_service-Confines (to_verify_ownership request) g client =
    answered-Confines g (wallet_place (to_verify_ownership request)) (verify_ownership g request) _
      client (ask-sent g _ client) (refl, refl, refl, refl)
wallet_service-Confines (to_declare_script_key request) g client =
    answered-Confines g (wallet_place (to_declare_script_key request))
      (declare_script_key g request) _ client (ask-sent g _ client) (refl, refl, refl, refl)
wallet_service-Confines (to_next_script_key request) g client =
    answered-Confines g (wallet_place (to_next_script_key request)) (next_script_key g request) _
      client (ask-sent g _ client) (refl, refl, refl, refl)
wallet_service-Confines (to_get_script_key tweaked_script_key) g client =
    guarded-Confines g (wallet_place (to_get_script_key tweaked_script_key))
      (WalletAcceptable (to_get_script_key tweaked_script_key))
      (validate_hex_param tweaked_script_key) _ client
      (validate_hex_param-IsCheck tweaked_script_key) (λ a. IsHexParam-ok tweaked_script_key a)
      (λ p. (refl, refl, refl, hex_path tweaked_script_key p))
wallet_service-Confines (to_delete_utxo_lease request) g client =
    answered-Confines g (wallet_place (to_delete_utxo_lease request)) (delete_utxo_lease g request)
      _ client (ask-sent g _ client) (refl, refl, refl, refl)
wallet_service-Confines (to_anchor_virtual_psbt request) g client =
    answered-Confines g (wallet_place (to_anchor_virtual_psbt request))
      (anchor_virtual_psbt g request) _ client (ask-sent g _ client) (refl, refl, refl, refl)
wallet_service-Confines (to_commit_virtual_psbt request) g client =
    answered-Confines g (wallet_place (to_commit_virtual_psbt request))
      (commit_virtual_psbt g request) _ client (ask-sent g _ client) (refl, refl, refl, refl)
wallet_service-Confines (to_fund_virtual_psbt request) g client =
    answered-Confines g (wallet_place (to_fund_virtual_psbt request)) (fund_virtual_psbt g request)
      _ client (ask-sent g _ client) (refl, refl, refl, refl)
wallet_service-Confines (to_log_virtual_psbt_transfer request) g client =
    answered-Confines g (wallet_place (to_log_virtual_psbt_transfer request))
      (log_virtual_psbt_transfer g request) _ client (ask-sent g _ client) (refl, refl, refl, refl)
wallet_service-Confines (to_sign_virtual_psbt request) g client =
    answered-Confines g (wallet_place (to_sign_virtual_psbt request)) (sign_virtual_psbt g request)
      _ client (ask-sent g _ client) (refl, refl, refl, refl)
