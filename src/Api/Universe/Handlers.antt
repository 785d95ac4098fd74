-- ===== src/Api/Universe/Handlers.antt =====
-- src/api/universe.rs: the handlers, which check what stands in the path.
use taproot_assets_rest_gate.Prelude.{Text}
use taproot_assets_rest_gate.Error.{◌>>◌}
use taproot_assets_rest_gate.Api.Params.{
  validate_hex_param, validate_group_key, validate_integer_param,
}
use taproot_assets_rest_gate.Api.Endpoint.{Handler, answered, guarded}
use taproot_assets_rest_gate.Api.Bodies.Universe.{
  FederationRequest, MultiverseRequest, PushProofRequest, SyncRequest, SyncConfigRequest,
  IgnoreAssetOutPointRequest, InsertSupplyCommitRequest, UpdateSupplyCommitRequest,
}
use taproot_assets_rest_gate.Api.Universe.{
  delete_universe, delete_federation, add_federation, get_federation, get_universe_info, get_keys,
  get_leaves, get_multiverse, get_proofs, push_proof, get_roots, get_asset_roots, get_stats,
  get_asset_stats, get_event_stats, sync_universe, set_sync_config, get_sync_config,
  fetch_supply_commit, insert_supply_commit, ignore_asset_outpoint, fetch_supply_leaves,
  update_supply_commit,
}

unfoldable pub delete_handler : Handler
delete_handler g = answered (delete_universe g) g

unfoldable pub delete_federation_handler : Handler
delete_federation_handler g = answered (delete_federation g) g

unfoldable pub add_federation_handler : FederationRequest → Handler
add_federation_handler request g = answered (add_federation g request) g

unfoldable pub get_federation_handler : Handler
get_federation_handler g = answered (get_federation g) g

unfoldable pub info_handler : Handler
info_handler g = answered (get_universe_info g) g

unfoldable pub keys_handler : Text → Text → Handler
keys_handler asset_id query g = guarded (validate_hex_param asset_id) (get_keys g asset_id query) g

unfoldable pub leaves_handler : Text → Text → Handler
leaves_handler asset_id query g =
    guarded (validate_hex_param asset_id) (get_leaves g asset_id query) g

unfoldable pub fetch_supply_commit_handler : Text → Text → Handler
fetch_supply_commit_handler group_key_str query g =
    guarded (validate_group_key group_key_str) (fetch_supply_commit g group_key_str query) g

unfoldable pub insert_supply_commit_handler : Text → InsertSupplyCommitRequest → Handler
insert_supply_commit_handler group_key_str request g =
    guarded (validate_group_key group_key_str) (insert_supply_commit g group_key_str request) g

unfoldable pub ignore_asset_outpoint_handler : IgnoreAssetOutPointRequest → Handler
ignore_asset_outpoint_handler request g = answered (ignore_asset_outpoint g request) g

unfoldable pub fetch_supply_leaves_handler : Text → Text → Handler
fetch_supply_leaves_handler group_key_str query g =
    guarded (validate_group_key group_key_str) (fetch_supply_leaves g group_key_str query) g

unfoldable pub update_supply_commit_handler : Text → UpdateSupplyCommitRequest → Handler
update_supply_commit_handler group_key_str request g =
    guarded (validate_group_key group_key_str) (update_supply_commit g group_key_str request) g

unfoldable pub multiverse_handler : MultiverseRequest → Handler
multiverse_handler request g = answered (get_multiverse g request) g

unfoldable pub proofs_handler : Text → Text → Text → Text → Text → Handler
proofs_handler asset_id hash_str index script_key query g =
    guarded
      (validate_hex_param asset_id
        >> validate_hex_param hash_str
        >> validate_integer_param index
        >> validate_hex_param script_key)
      (get_proofs g asset_id hash_str index script_key query) g

unfoldable pub push_proof_handler : Text → Text → Text → Text → PushProofRequest → Handler
push_proof_handler asset_id hash_str index script_key request g =
    guarded
      (validate_hex_param asset_id
        >> validate_hex_param hash_str
        >> validate_integer_param index
        >> validate_hex_param script_key)
      (push_proof g request asset_id hash_str index script_key) g

unfoldable pub roots_handler : Text → Handler
roots_handler query g = answered (get_roots g query) g

unfoldable pub asset_roots_handler : Text → Text → Handler
asset_roots_handler asset_id query g =
    guarded (validate_hex_param asset_id) (get_asset_roots g asset_id query) g

unfoldable pub stats_handler : Handler
stats_handler g = answered (get_stats g) g

unfoldable pub asset_stats_handler : Text → Handler
asset_stats_handler query g = answered (get_asset_stats g query) g

unfoldable pub event_stats_handler : Text → Handler
event_stats_handler query g = answered (get_event_stats g query) g

unfoldable pub sync_handler : SyncRequest → Handler
sync_handler request g = answered (sync_universe g request) g

unfoldable pub set_sync_config_handler : SyncConfigRequest → Handler
set_sync_config_handler request g = answered (set_sync_config g request) g

unfoldable pub get_sync_config_handler : Handler
get_sync_config_handler g = answered (get_sync_config g) g
