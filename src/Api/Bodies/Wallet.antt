-- ===== src/Api/Bodies/Wallet.antt =====
-- src/api/wallet.rs: the bodies of requests about the wallet, and how they are serialised.
use taproot_assets_rest_gate.Prelude.{ℕ, Text, ascii, Bool, Option, List}
use taproot_assets_rest_gate.Prelude.Int.{ℤ}
use taproot_assets_rest_gate.Json.{Value, boolean, integer, string, object, field, end}
use taproot_assets_rest_gate.Api.Endpoint.{optional, nullable, array_of, itself, number_of}

pub data BackupMode : Type 0 where
  raw compact optimistic : BackupMode

-- `rename_all = "UPPERCASE"`.
abbrev pub backup_mode_value : BackupMode → Value
backup_mode_value raw = string (ascii "RAW")
backup_mode_value compact = string (ascii "COMPACT")
backup_mode_value optimistic = string (ascii "OPTIMISTIC")

pub record InternalKeyRequest : Type 0 where
  pub key_family : ℕ

abbrev pub internal_key_request_value : InternalKeyRequest → Value
internal_key_request_value r = object (field (ascii "key_family") (number_of r.key_family) end)

pub record OwnershipProveRequest : Type 0 where
  pub asset_id : Text
  pub script_key : Text
  pub outpoint : Value
  pub challenge : Text

abbrev pub ownership_prove_request_value : OwnershipProveRequest → Value
ownership_prove_request_value r = object (
    field (ascii "asset_id") (string r.asset_id) (
      field (ascii "script_key") (string r.script_key)
        (field (ascii "outpoint") r.outpoint (field (ascii "challenge") (string r.challenge) end))))

pub record OwnershipVerifyRequest : Type 0 where
  pub proof_with_witness : Text
  pub challenge : Text

abbrev pub ownership_verify_request_value : OwnershipVerifyRequest → Value
ownership_verify_request_value r = object (
    field (ascii "proof_with_witness") (string r.proof_with_witness)
      (field (ascii "challenge") (string r.challenge) end))

pub record ScriptKeyRequest : Type 0 where
  pub script_key : Value

abbrev pub script_key_request_value : ScriptKeyRequest → Value
script_key_request_value r = object (field (ascii "script_key") r.script_key end)

pub record UtxoLeaseDeleteRequest : Type 0 where
  pub outpoint : Value

abbrev pub utxo_lease_delete_request_value : UtxoLeaseDeleteRequest → Value
utxo_lease_delete_request_value r = object (field (ascii "outpoint") r.outpoint end)

pub record VirtualPsbtAnchorRequest : Type 0 where
  pub virtual_psbts : List Text

abbrev pub virtual_psbt_anchor_request_value : VirtualPsbtAnchorRequest → Value
virtual_psbt_anchor_request_value r =
    object (field (ascii "virtual_psbts") (array_of string r.virtual_psbts) end)

pub record VirtualPsbtCommitRequest : Type 0 where
  pub virtual_psbts : List Text
  pub passive_asset_psbts : List Text
  pub anchor_psbt : Text
  pub existing_output_index : ℤ
  pub add : Bool
  pub target_conf : ℕ
  pub sat_per_vbyte : Text
  pub custom_lock_id : Option Text
  pub lock_expiration_seconds : Option Text
  pub skip_funding : Bool

abbrev pub virtual_psbt_commit_request_value : VirtualPsbtCommitRequest → Value
virtual_psbt_commit_request_value r = object (
    field (ascii "virtual_psbts") (array_of string r.virtual_psbts) (
      field (ascii "passive_asset_psbts") (array_of string r.passive_asset_psbts) (
        field (ascii "anchor_psbt") (string r.anchor_psbt) (
          field (ascii "existing_output_index") (integer r.existing_output_index) (
            field (ascii "add") (boolean r.add) (
              field (ascii "target_conf") (number_of r.target_conf) (
                field (ascii "sat_per_vbyte") (string r.sat_per_vbyte) (
                  field (ascii "custom_lock_id") (nullable string r.custom_lock_id) (
                    field (ascii "lock_expiration_seconds")
                      (nullable string r.lock_expiration_seconds)
                      (field (ascii "skip_funding") (boolean r.skip_funding) end))))))))))

pub record VirtualPsbtFundRequest : Type 0 where
  pub psbt : Text
  pub raw : Value
  pub coin_select_type : Text

abbrev pub virtual_psbt_fund_request_value : VirtualPsbtFundRequest → Value
virtual_psbt_fund_request_value r = object (
    field (ascii "psbt") (string r.psbt) (
      field (ascii "raw") r.raw (field (ascii "coin_select_type") (string r.coin_select_type) end)))

pub record VirtualPsbtLogTransferRequest : Type 0 where
  pub anchor_psbt : Text
  pub virtual_psbts : List Text
  pub passive_asset_psbts : List Text
  pub change_output_index : ℤ
  pub lnd_locked_utxos : List Value
  pub skip_anchor_tx_broadcast : Bool
  pub label : Option Text

abbrev pub virtual_psbt_log_transfer_request_value : VirtualPsbtLogTransferRequest → Value
virtual_psbt_log_transfer_request_value r = object (
    field (ascii "anchor_psbt") (string r.anchor_psbt) (
      field (ascii "virtual_psbts") (array_of string r.virtual_psbts) (
        field (ascii "passive_asset_psbts") (array_of string r.passive_asset_psbts) (
          field (ascii "change_output_index") (integer r.change_output_index) (
            field (ascii "lnd_locked_utxos") (array_of itself r.lnd_locked_utxos) (
              field (ascii "skip_anchor_tx_broadcast") (boolean r.skip_anchor_tx_broadcast)
                (field (ascii "label") (nullable string r.label) end)))))))

pub record VirtualPsbtSignRequest : Type 0 where
  pub funded_psbt : Text

abbrev pub virtual_psbt_sign_request_value : VirtualPsbtSignRequest → Value
virtual_psbt_sign_request_value r = object (field (ascii "funded_psbt") (string r.funded_psbt) end)

pub record ExportBackupRequest : Type 0 where
  pub mode : Option BackupMode

abbrev pub export_backup_request_value : ExportBackupRequest → Value
export_backup_request_value r = object (optional backup_mode_value (ascii "mode") r.mode end)

pub record ImportBackupRequest : Type 0 where
  pub backup : Text

abbrev pub import_backup_request_value : ImportBackupRequest → Value
import_backup_request_value r = object (field (ascii "backup") (string r.backup) end)
