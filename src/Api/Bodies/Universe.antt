-- ===== src/Api/Bodies/Universe.antt =====
-- src/api/universe.rs: the bodies of requests about the universe, and how they are serialised.
use taproot_assets_rest_gate.Prelude.{Text, ascii, Option, List}
use taproot_assets_rest_gate.Json.{Value, string, object, field, end}
use taproot_assets_rest_gate.Api.Endpoint.{optional, array_of, itself}

pub record FederationRequest : Type 0 where
  pub servers : List Value

abbrev pub federation_request_value : FederationRequest → Value
federation_request_value r = object (field (ascii "servers") (array_of itself r.servers) end)

pub record MultiverseRequest : Type 0 where
  pub proof_type : Text
  pub specific_ids : List Value

abbrev pub multiverse_request_value : MultiverseRequest → Value
multiverse_request_value r = object (
    field (ascii "proof_type") (string r.proof_type)
      (field (ascii "specific_ids") (array_of itself r.specific_ids) end))

pub record PushProofRequest : Type 0 where
  pub key : Value
  pub server : Value

abbrev pub push_proof_request_value : PushProofRequest → Value
push_proof_request_value r =
    object (field (ascii "key") r.key (field (ascii "server") r.server end))

pub record SyncRequest : Type 0 where
  pub universe_host : Text
  pub sync_mode : Text
  pub sync_targets : List Value

abbrev pub sync_request_value : SyncRequest → Value
sync_request_value r = object (
    field (ascii "universe_host") (string r.universe_host) (
      field (ascii "sync_mode") (string r.sync_mode)
        (field (ascii "sync_targets") (array_of itself r.sync_targets) end)))

pub record SyncConfigRequest : Type 0 where
  pub global_sync_configs : List Value
  pub asset_sync_configs : List Value

abbrev pub sync_config_request_value : SyncConfigRequest → Value
sync_config_request_value r = object (
    field (ascii "global_sync_configs") (array_of itself r.global_sync_configs)
      (field (ascii "asset_sync_configs") (array_of itself r.asset_sync_configs) end))

pub record IgnoreAssetOutPointRequest : Type 0 where
  pub asset_out_point : Value
  pub amount : Option Text

abbrev pub ignore_asset_out_point_request_value : IgnoreAssetOutPointRequest → Value
ignore_asset_out_point_request_value r = object (
    field (ascii "asset_out_point") r.asset_out_point
      (optional string (ascii "amount") r.amount end))

pub record InsertSupplyCommitRequest : Type 0 where
  pub group_key_bytes : Option Text
  pub chain_data : Option Value
  pub spent_commitment_outpoint : Option Value
  pub issuance_leaves : Option (List Value)
  pub burn_leaves : Option (List Value)
  pub ignore_leaves : Option (List Value)

abbrev pub insert_supply_commit_request_value : InsertSupplyCommitRequest → Value
insert_supply_commit_request_value r = object (
    optional string (ascii "group_key_bytes") r.group_key_bytes (
      optional itself (ascii "chain_data") r.chain_data (
        optional itself (ascii "spent_commitment_outpoint") r.spent_commitment_outpoint (
          optional (array_of itself) (ascii "issuance_leaves") r.issuance_leaves (
            optional (array_of itself) (ascii "burn_leaves") r.burn_leaves
              (optional (array_of itself) (ascii "ignore_leaves") r.ignore_leaves end))))))

pub record UpdateSupplyCommitRequest : Type 0 where
  pub group_key_bytes : Option Text

abbrev pub update_supply_commit_request_value : UpdateSupplyCommitRequest → Value
update_supply_commit_request_value r =
    object (optional string (ascii "group_key_bytes") r.group_key_bytes end)
