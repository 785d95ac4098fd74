-- ===== src/Api/Universe.antt =====
-- src/api/universe.rs: the calls of tapd about the universe.
pub mod Handlers
pub mod Routes
pub mod Relayed
use taproot_assets_rest_gate.Prelude.{Text, ascii, ◌++◌}
use taproot_assets_rest_gate.Json.{Value, object, end}
use taproot_assets_rest_gate.Api.Upstream.{Call, with_query}
use taproot_assets_rest_gate.Api.Endpoint.{
  Gateway, endpoint, get_request, post_request, delete_request, ask,
}
use taproot_assets_rest_gate.Api.Bodies.Universe.{
  FederationRequest, MultiverseRequest, PushProofRequest, SyncRequest, SyncConfigRequest,
  IgnoreAssetOutPointRequest, InsertSupplyCommitRequest, UpdateSupplyCommitRequest,
  federation_request_value, multiverse_request_value, push_proof_request_value, sync_request_value,
  sync_config_request_value, ignore_asset_out_point_request_value,
  insert_supply_commit_request_value, update_supply_commit_request_value,
}

unfoldable pub delete_universe : Gateway → Call Value
delete_universe g = ask g (delete_request g (endpoint g (ascii "universe/delete")))

unfoldable pub delete_federation : Gateway → Call Value
delete_federation g = ask g (delete_request g (endpoint g (ascii "universe/federation")))

unfoldable pub add_federation : Gateway → FederationRequest → Call Value
add_federation g request =
    ask g
      (post_request g (endpoint g (ascii "universe/federation")) (federation_request_value request))

unfoldable pub get_federation : Gateway → Call Value
get_federation g = ask g (get_request g (endpoint g (ascii "universe/federation")))

unfoldable pub get_universe_info : Gateway → Call Value
get_universe_info g = ask g (get_request g (endpoint g (ascii "universe/info")))

unfoldable pub get_keys : Gateway → Text → Text → Call Value
get_keys g asset_id query =
    ask g
      (get_request g (with_query (endpoint g (ascii "universe/keys/asset-id/" ++ asset_id)) query))

unfoldable pub get_leaves : Gateway → Text → Text → Call Value
get_leaves g asset_id query =
    ask g (
      get_request g (with_query (endpoint g (ascii "universe/leaves/asset-id/" ++ asset_id)) query))

unfoldable pub get_multiverse : Gateway → MultiverseRequest → Call Value
get_multiverse g request =
    ask g
      (post_request g (endpoint g (ascii "universe/multiverse")) (multiverse_request_value request))

unfoldable pub get_proofs : Gateway → Text → Text → Text → Text → Text → Call Value
get_proofs g asset_id hash_str index script_key query = ask g (
    get_request g (
      with_query
        (endpoint g (
          ascii "universe/proofs/asset-id/"
          ++ (asset_id
              ++ (ascii "/" ++ (hash_str ++ (ascii "/" ++ (index ++ (ascii "/" ++ script_key))))))))
        query))

unfoldable pub push_proof : Gateway → PushProofRequest → Text → Text → Text → Text → Call Value
push_proof g request asset_id hash_str index script_key = ask g (
    post_request g
      (endpoint g (
        ascii "universe/proofs/push/asset-id/"
        ++ (asset_id
            ++ (ascii "/" ++ (hash_str ++ (ascii "/" ++ (index ++ (ascii "/" ++ script_key))))))))
      (push_proof_request_value request))

unfoldable pub get_roots : Gateway → Text → Call Value
get_roots g query = ask g (get_request g (with_query (endpoint g (ascii "universe/roots")) query))

unfoldable pub get_asset_roots : Gateway → Text → Text → Call Value
get_asset_roots g asset_id query =
    ask g
      (get_request g (with_query (endpoint g (ascii "universe/roots/asset-id/" ++ asset_id)) query))

unfoldable pub get_stats : Gateway → Call Value
get_stats g = ask g (get_request g (endpoint g (ascii "universe/stats")))

unfoldable pub get_asset_stats : Gateway → Text → Call Value
get_asset_stats g query =
    ask g (get_request g (with_query (endpoint g (ascii "universe/stats/assets")) query))

unfoldable pub get_event_stats : Gateway → Text → Call Value
get_event_stats g query =
    ask g (get_request g (with_query (endpoint g (ascii "universe/stats/events")) query))

unfoldable pub sync_universe : Gateway → SyncRequest → Call Value
sync_universe g request =
    ask g (post_request g (endpoint g (ascii "universe/sync")) (sync_request_value request))

unfoldable pub set_sync_config : Gateway → SyncConfigRequest → Call Value
set_sync_config g request =
    ask g (
      post_request g (endpoint g (ascii "universe/sync/config"))
        (sync_config_request_value request))

unfoldable pub get_sync_config : Gateway → Call Value
get_sync_config g = ask g (get_request g (endpoint g (ascii "universe/sync/config")))

unfoldable pub fetch_supply_commit : Gateway → Text → Text → Call Value
fetch_supply_commit g group_key_str query =
    ask g
      (get_request g (with_query (endpoint g (ascii "universe/supply/" ++ group_key_str)) query))

unfoldable pub insert_supply_commit : Gateway → Text → InsertSupplyCommitRequest → Call Value
insert_supply_commit g group_key_str request = ask g (
    post_request g (endpoint g (ascii "universe/supply/" ++ group_key_str))
      (insert_supply_commit_request_value request))

unfoldable pub ignore_asset_outpoint : Gateway → IgnoreAssetOutPointRequest → Call Value
ignore_asset_outpoint g request = ask g (
    post_request g (endpoint g (ascii "universe/supply/ignore"))
      (ignore_asset_out_point_request_value request))

unfoldable pub fetch_supply_leaves : Gateway → Text → Text → Call Value
fetch_supply_leaves g group_key_str query = ask g (
    get_request g
      (with_query (endpoint g (ascii "universe/supply/leaves/" ++ group_key_str)) query))

unfoldable pub update_supply_commit : Gateway → Text → UpdateSupplyCommitRequest → Call Value
update_supply_commit g group_key_str request = ask g (
    post_request g (endpoint g (ascii "universe/supply/update/" ++ group_key_str))
      (update_supply_commit_request_value request))
