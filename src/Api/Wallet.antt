-- ===== src/Api/Wallet.antt =====
-- src/api/wallet.rs: the calls of tapd about the wallet.
pub mod Handlers
pub mod Routes
pub mod Relayed
use taproot_assets_rest_gate.Prelude.{Text, ascii, ◌++◌}
use taproot_assets_rest_gate.Json.{Value, object, end}
use taproot_assets_rest_gate.Api.Upstream.{Call, with_query}
use taproot_assets_rest_gate.Api.Endpoint.{
  Gateway, endpoint, get_request, post_request, delete_request, ask,
}
use taproot_assets_rest_gate.Api.Bodies.Wallet.{
  InternalKeyRequest, OwnershipProveRequest, OwnershipVerifyRequest, ScriptKeyRequest,
  UtxoLeaseDeleteRequest, VirtualPsbtAnchorRequest, VirtualPsbtCommitRequest,
  VirtualPsbtFundRequest, VirtualPsbtLogTransferRequest, VirtualPsbtSignRequest,
  ExportBackupRequest, ImportBackupRequest, internal_key_request_value,
  ownership_prove_request_value, ownership_verify_request_value, script_key_request_value,
  utxo_lease_delete_request_value, virtual_psbt_anchor_request_value,
  virtual_psbt_commit_request_value, virtual_psbt_fund_request_value,
  virtual_psbt_log_transfer_request_value, virtual_psbt_sign_request_value,
  export_backup_request_value, import_backup_request_value,
}

unfoldable pub next_internal_key : Gateway → InternalKeyRequest → Call Value
next_internal_key g request = ask g (
    post_request g (endpoint g (ascii "wallet/internal-key/next"))
      (internal_key_request_value request))

unfoldable pub get_internal_key : Gateway → Text → Call Value
get_internal_key g internal_key =
    ask g (get_request g (endpoint g (ascii "wallet/internal-key/" ++ internal_key)))

unfoldable pub prove_ownership : Gateway → OwnershipProveRequest → Call Value
prove_ownership g request = ask g (
    post_request g (endpoint g (ascii "wallet/ownership/prove"))
      (ownership_prove_request_value request))

unfoldable pub verify_ownership : Gateway → OwnershipVerifyRequest → Call Value
verify_ownership g request = ask g (
    post_request g (endpoint g (ascii "wallet/ownership/verify"))
      (ownership_verify_request_value request))

unfoldable pub declare_script_key : Gateway → ScriptKeyRequest → Call Value
declare_script_key g request = ask g (
    post_request g (endpoint g (ascii "wallet/script-key/declare"))
      (script_key_request_value request))

unfoldable pub next_script_key : Gateway → InternalKeyRequest → Call Value
next_script_key g request = ask g (
    post_request g (endpoint g (ascii "wallet/script-key/next"))
      (internal_key_request_value request))

unfoldable pub get_script_key : Gateway → Text → Call Value
get_script_key g tweaked_script_key =
    ask g (get_request g (endpoint g (ascii "wallet/script-key/" ++ tweaked_script_key)))

unfoldable pub delete_utxo_lease : Gateway → UtxoLeaseDeleteRequest → Call Value
delete_utxo_lease g request = ask g (
    post_request g (endpoint g (ascii "wallet/utxo-lease/delete"))
      (utxo_lease_delete_request_value request))

unfoldable pub anchor_virtual_psbt : Gateway → VirtualPsbtAnchorRequest → Call Value
anchor_virtual_psbt g request = ask g (
    post_request g (endpoint g (ascii "wallet/virtual-psbt/anchor"))
      (virtual_psbt_anchor_request_value request))

unfoldable pub commit_virtual_psbt : Gateway → VirtualPsbtCommitRequest → Call Value
commit_virtual_psbt g request = ask g (
    post_request g (endpoint g (ascii "wallet/virtual-psbt/commit"))
      (virtual_psbt_commit_request_value request))

unfoldable pub fund_virtual_psbt : Gateway → VirtualPsbtFundRequest → Call Value
fund_virtual_psbt g request = ask g (
    post_request g (endpoint g (ascii "wallet/virtual-psbt/fund"))
      (virtual_psbt_fund_request_value request))

unfoldable pub log_virtual_psbt_transfer : Gateway → VirtualPsbtLogTransferRequest → Call Value
log_virtual_psbt_transfer g request = ask g (
    post_request g (endpoint g (ascii "wallet/virtual-psbt/log-transfer"))
      (virtual_psbt_log_transfer_request_value request))

unfoldable pub sign_virtual_psbt : Gateway → VirtualPsbtSignRequest → Call Value
sign_virtual_psbt g request = ask g (
    post_request g (endpoint g (ascii "wallet/virtual-psbt/sign"))
      (virtual_psbt_sign_request_value request))

unfoldable pub export_wallet_backup : Gateway → ExportBackupRequest → Call Value
export_wallet_backup g request = ask g (
    post_request g (endpoint g (ascii "wallet/backup/export"))
      (export_backup_request_value request))

unfoldable pub import_wallet_backup : Gateway → ImportBackupRequest → Call Value
import_wallet_backup g request = ask g (
    post_request g (endpoint g (ascii "wallet/backup/import"))
      (import_backup_request_value request))
