-- ===== src/Api/Wallet/Routes.antt =====
-- The routes of src/api/wallet.rs with their inputs.
use taproot_assets_rest_gate.Prelude.{Text, ascii, [], ◌++◌}
use taproot_assets_rest_gate.Api.Params.Accepted.{IsHexParam}
use taproot_assets_rest_gate.Api.Upstream.{method_get, method_post}
use taproot_assets_rest_gate.Api.Endpoint.{Handler}
use taproot_assets_rest_gate.Api.Confined.{Place}
use taproot_assets_rest_gate.Api.Bodies.Wallet.{
  InternalKeyRequest, OwnershipProveRequest, OwnershipVerifyRequest, ScriptKeyRequest,
  UtxoLeaseDeleteRequest, VirtualPsbtAnchorRequest, VirtualPsbtCommitRequest,
  VirtualPsbtFundRequest, VirtualPsbtLogTransferRequest, VirtualPsbtSignRequest,
  ExportBackupRequest, ImportBackupRequest,
}
use taproot_assets_rest_gate.Api.Wallet.Handlers.{
  export_backup_handler, import_backup_handler, next_internal_key_handler, get_internal_key_handler,
  prove_ownership_handler, verify_ownership_handler, declare_script_key_handler,
  next_script_key_handler, get_script_key_handler, delete_utxo_lease_handler,
  anchor_virtual_psbt_handler, commit_virtual_psbt_handler, fund_virtual_psbt_handler,
  log_virtual_psbt_transfer_handler, sign_virtual_psbt_handler,
}

pub data WalletRoute : Type 0 where
  to_export_backup : (request : ExportBackupRequest) → WalletRoute
  to_import_backup : (request : ImportBackupRequest) → WalletRoute
  to_next_internal_key : (request : InternalKeyRequest) → WalletRoute
  to_get_internal_key : (internal_key : Text) → WalletRoute
  to_prove_ownership : (request : OwnershipProveRequest) → WalletRoute
  to_verify_ownership : (request : OwnershipVerifyRequest) → WalletRoute
  to_declare_script_key : (request : ScriptKeyRequest) → WalletRoute
  to_next_script_key : (request : InternalKeyRequest) → WalletRoute
  to_get_script_key : (tweaked_script_key : Text) → WalletRoute
  to_delete_utxo_lease : (request : UtxoLeaseDeleteRequest) → WalletRoute
  to_anchor_virtual_psbt : (request : VirtualPsbtAnchorRequest) → WalletRoute
  to_commit_virtual_psbt : (request : VirtualPsbtCommitRequest) → WalletRoute
  to_fund_virtual_psbt : (request : VirtualPsbtFundRequest) → WalletRoute
  to_log_virtual_psbt_transfer : (request : VirtualPsbtLogTransferRequest) → WalletRoute
  to_sign_virtual_psbt : (request : VirtualPsbtSignRequest) → WalletRoute

unfoldable pub wallet_service : WalletRoute → Handler
wallet_service (to_export_backup request) = export_backup_handler request
wallet_service (to_import_backup request) = import_backup_handler request
wallet_service (to_next_internal_key request) = next_internal_key_handler request
wallet_service (to_get_internal_key internal_key) = get_internal_key_handler internal_key
wallet_service (to_prove_ownership request) = prove_ownership_handler request
wallet_service (to_verify_ownership request) = verify_ownership_handler request
wallet_service (to_declare_script_key request) = declare_script_key_handler request
wallet_service (to_next_script_key request) = next_script_key_handler request
wallet_service (to_get_script_key tweaked_script_key) = get_script_key_handler tweaked_script_key
wallet_service (to_delete_utxo_lease request) = delete_utxo_lease_handler request
wallet_service (to_anchor_virtual_psbt request) = anchor_virtual_psbt_handler request
wallet_service (to_commit_virtual_psbt request) = commit_virtual_psbt_handler request
wallet_service (to_fund_virtual_psbt request) = fund_virtual_psbt_handler request
wallet_service (to_log_virtual_psbt_transfer request) = log_virtual_psbt_transfer_handler request
wallet_service (to_sign_virtual_psbt request) = sign_virtual_psbt_handler request

abbrev pub wallet_place : WalletRoute → Place
wallet_place (to_export_backup request) = record {
  method = method_post;
  path = ascii "/wallet/backup/export";
  query = [];
}
wallet_place (to_import_backup request) = record {
  method = method_post;
  path = ascii "/wallet/backup/import";
  query = [];
}
wallet_place (to_next_internal_key request) = record {
  method = method_post;
  path = ascii "/wallet/internal-key/next";
  query = [];
}
wallet_place (to_get_internal_key internal_key) = record {
  method = method_get;
  path = ascii "/wallet/internal-key/" ++ internal_key;
  query = [];
}
wallet_place (to_prove_ownership request) = record {
  method = method_post;
  path = ascii "/wallet/ownership/prove";
  query = [];
}
wallet_place (to_verify_ownership request) = record {
  method = method_post;
  path = ascii "/wallet/ownership/verify";
  query = [];
}
wallet_place (to_declare_script_key request) = record {
  method = method_post;
  path = ascii "/wallet/script-key/declare";
  query = [];
}
wallet_place (to_next_script_key request) = record {
  method = method_post;
  path = ascii "/wallet/script-key/next";
  query = [];
}
wallet_place (to_get_script_key tweaked_script_key) = record {
  method = method_get;
  path = ascii "/wallet/script-key/" ++ tweaked_script_key;
  query = [];
}
wallet_place (to_delete_utxo_lease request) = record {
  method = method_post;
  path = ascii "/wallet/utxo-lease/delete";
  query = [];
}
wallet_place (to_anchor_virtual_psbt request) = record {
  method = method_post;
  path = ascii "/wallet/virtual-psbt/anchor";
  query = [];
}
wallet_place (to_commit_virtual_psbt request) = record {
  method = method_post;
  path = ascii "/wallet/virtual-psbt/commit";
  query = [];
}
wallet_place (to_fund_virtual_psbt request) = record {
  method = method_post;
  path = ascii "/wallet/virtual-psbt/fund";
  query = [];
}
wallet_place (to_log_virtual_psbt_transfer request) = record {
  method = method_post;
  path = ascii "/wallet/virtual-psbt/log-transfer";
  query = [];
}
wallet_place (to_sign_virtual_psbt request) = record {
  method = method_post;
  path = ascii "/wallet/virtual-psbt/sign";
  query = [];
}

-- The parameters that the route takes.
abbrev pub WalletAcceptable : WalletRoute → Type 0
WalletAcceptable (to_get_internal_key internal_key) = IsHexParam internal_key
WalletAcceptable (to_get_script_key tweaked_script_key) = IsHexParam tweaked_script_key
WalletAcceptable _ = Unit
