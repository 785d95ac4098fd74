-- ===== src/Api/Wallet/Handlers.antt =====
-- src/api/wallet.rs: the handlers, which check what stands in the path.
use taproot_assets_rest_gate.Prelude.{Text}
use taproot_assets_rest_gate.Api.Params.{validate_hex_param}
use taproot_assets_rest_gate.Api.Endpoint.{Handler, answered, guarded}
use taproot_assets_rest_gate.Api.Bodies.Wallet.{
  InternalKeyRequest, OwnershipProveRequest, OwnershipVerifyRequest, ScriptKeyRequest,
  UtxoLeaseDeleteRequest, VirtualPsbtAnchorRequest, VirtualPsbtCommitRequest,
  VirtualPsbtFundRequest, VirtualPsbtLogTransferRequest, VirtualPsbtSignRequest,
  ExportBackupRequest, ImportBackupRequest,
}
use taproot_assets_rest_gate.Api.Wallet.{
  next_internal_key, get_internal_key, prove_ownership, verify_ownership, declare_script_key,
  next_script_key, get_script_key, delete_utxo_lease, anchor_virtual_psbt, commit_virtual_psbt,
  fund_virtual_psbt, log_virtual_psbt_transfer, sign_virtual_psbt, export_wallet_backup,
  import_wallet_backup,
}

unfoldable pub export_backup_handler : ExportBackupRequest → Handler
export_backup_handler request g = answered (export_wallet_backup g request) g

unfoldable pub import_backup_handler : ImportBackupRequest → Handler
import_backup_handler request g = answered (import_wallet_backup g request) g

unfoldable pub next_internal_key_handler : InternalKeyRequest → Handler
next_internal_key_handler request g = answered (next_internal_key g request) g

unfoldable pub get_internal_key_handler : Text → Handler
get_internal_key_handler internal_key g =
    guarded (validate_hex_param internal_key) (get_internal_key g internal_key) g

unfoldable pub prove_ownership_handler : OwnershipProveRequest → Handler
prove_ownership_handler request g = answered (prove_ownership g request) g

unfoldable pub verify_ownership_handler : OwnershipVerifyRequest → Handler
verify_ownership_handler request g = answered (verify_ownership g request) g

unfoldable pub declare_script_key_handler : ScriptKeyRequest → Handler
declare_script_key_handler request g = answered (declare_script_key g request) g

unfoldable pub next_script_key_handler : InternalKeyRequest → Handler
next_script_key_handler request g = answered (next_script_key g request) g

unfoldable pub get_script_key_handler : Text → Handler
get_script_key_handler tweaked_script_key g =
    guarded (validate_hex_param tweaked_script_key) (get_script_key g tweaked_script_key) g

unfoldable pub delete_utxo_lease_handler : UtxoLeaseDeleteRequest → Handler
delete_utxo_lease_handler request g = answered (delete_utxo_lease g request) g

unfoldable pub anchor_virtual_psbt_handler : VirtualPsbtAnchorRequest → Handler
anchor_virtual_psbt_handler request g = answered (anchor_virtual_psbt g request) g

unfoldable pub commit_virtual_psbt_handler : VirtualPsbtCommitRequest → Handler
commit_virtual_psbt_handler request g = answered (commit_virtual_psbt g request) g

unfoldable pub fund_virtual_psbt_handler : VirtualPsbtFundRequest → Handler
fund_virtual_psbt_handler request g = answered (fund_virtual_psbt g request) g

unfoldable pub log_virtual_psbt_transfer_handler : VirtualPsbtLogTransferRequest → Handler
log_virtual_psbt_transfer_handler request g = answered (log_virtual_psbt_transfer g request) g

unfoldable pub sign_virtual_psbt_handler : VirtualPsbtSignRequest → Handler
sign_virtual_psbt_handler request g = answered (sign_virtual_psbt g request) g
