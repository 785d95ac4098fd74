-- ===== src/Api/Bodies/Assets.antt =====
-- src/api/assets.rs: the bodies of requests about assets and mints, and how they are serialised.
use taproot_assets_rest_gate.Prelude.{ℕ, Text, ascii, Bool, Option, List}
use taproot_assets_rest_gate.Json.{Value, boolean, string, object, field, end}
use taproot_assets_rest_gate.Api.Endpoint.{optional, nullable, array_of, itself, number_of}

pub record MintAsset : Type 0 where
  pub asset_type : Text
  pub name : Text
  pub amount : Text

abbrev pub mint_asset_value : MintAsset → Value
mint_asset_value r = object (
    field (ascii "asset_type") (string r.asset_type)
      (field (ascii "name") (string r.name) (field (ascii "amount") (string r.amount) end)))

pub record MintAssetRequest : Type 0 where
  pub asset : MintAsset
  pub short_response : Bool

abbrev pub mint_asset_request_value : MintAssetRequest → Value
mint_asset_request_value r = object (
    field (ascii "asset") (mint_asset_value r.asset)
      (field (ascii "short_response") (boolean r.short_response) end))

pub record MintFundRequest : Type 0 where
  pub short_response : Bool
  pub fee_rate : ℕ
  pub full_tree : Option Value
  pub branch : Option Value

abbrev pub mint_fund_request_value : MintFundRequest → Value
mint_fund_request_value r = object (
    field (ascii "short_response") (boolean r.short_response) (
      field (ascii "fee_rate") (number_of r.fee_rate) (
        optional itself (ascii "full_tree") r.full_tree
          (optional itself (ascii "branch") r.branch end))))

pub record MintFinalizeRequest : Type 0 where
  pub short_response : Bool
  pub fee_rate : ℕ
  pub full_tree : Option Value
  pub branch : Option Value

abbrev pub mint_finalize_request_value : MintFinalizeRequest → Value
mint_finalize_request_value r = object (
    field (ascii "short_response") (boolean r.short_response) (
      field (ascii "fee_rate") (number_of r.fee_rate) (
        optional itself (ascii "full_tree") r.full_tree
          (optional itself (ascii "branch") r.branch end))))

pub record MintSealRequest : Type 0 where
  pub short_response : Bool
  pub group_witnesses : List Text
  pub signed_group_virtual_psbts : List Text

abbrev pub mint_seal_request_value : MintSealRequest → Value
mint_seal_request_value r = object (
    field (ascii "short_response") (boolean r.short_response) (
      field (ascii "group_witnesses") (array_of string r.group_witnesses) (
        field (ascii "signed_group_virtual_psbts") (array_of string r.signed_group_virtual_psbts)
          end)))

pub record TransferRegisterRequest : Type 0 where
  pub asset_id : Text
  pub group_key : Option Text
  pub script_key : Text
  pub outpoint : Value

abbrev pub transfer_register_request_value : TransferRegisterRequest → Value
transfer_register_request_value r = object (
    field (ascii "asset_id") (string r.asset_id) (
      field (ascii "group_key") (nullable string r.group_key) (
        field (ascii "script_key") (string r.script_key)
          (field (ascii "outpoint") r.outpoint end))))
