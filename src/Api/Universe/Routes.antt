-- ===== src/Api/Universe/Routes.antt =====
-- The routes of src/api/universe.rs with their inputs.
use taproot_assets_rest_gate.Prelude.{Text, ascii, [], ◌++◌}
use taproot_assets_rest_gate.Api.Params.Accepted.{IsHexParam}
use taproot_assets_rest_gate.Api.Upstream.{method_get, method_post, method_delete}
use taproot_assets_rest_gate.Api.Endpoint.{Handler}
use taproot_assets_rest_gate.Api.Confined.{Place, IsGroupKey, IsIndex}
use taproot_assets_rest_gate.Api.Bodies.Universe.{
  FederationRequest, MultiverseRequest, PushProofRequest, SyncRequest, SyncConfigRequest,
  IgnoreAssetOutPointRequest, InsertSupplyCommitRequest, UpdateSupplyCommitRequest,
}
use taproot_assets_rest_gate.Api.Universe.Handlers.{
  delete_handler, delete_federation_handler, add_federation_handler, get_federation_handler,
  info_handler, keys_handler, leaves_handler, fetch_supply_commit_handler,
  insert_supply_commit_handler, ignore_asset_outpoint_handler, fetch_supply_leaves_handler,
  update_supply_commit_handler, multiverse_handler, proofs_handler, push_proof_handler,
  roots_handler, asset_roots_handler, stats_handler, asset_stats_handler, event_stats_handler,
  sync_handler, set_sync_config_handler, get_sync_config_handler,
}

pub data UniverseRoute : Type 0 where
  to_delete : UniverseRoute
  to_delete_federation : UniverseRoute
  to_add_federation : (request : FederationRequest) → UniverseRoute
  to_get_federation : UniverseRoute
  to_info : UniverseRoute
  to_keys : (asset_id : Text) → (query : Text) → UniverseRoute
  to_leaves : (asset_id : Text) → (query : Text) → UniverseRoute
  to_fetch_supply_commit : (group_key_str : Text) → (query : Text) → UniverseRoute
  to_insert_supply_commit :
      (group_key_str : Text) → (request : InsertSupplyCommitRequest) → UniverseRoute
  to_ignore_asset_outpoint : (request : IgnoreAssetOutPointRequest) → UniverseRoute
  to_fetch_supply_leaves : (group_key_str : Text) → (query : Text) → UniverseRoute
  to_update_supply_commit :
      (group_key_str : Text) → (request : UpdateSupplyCommitRequest) → UniverseRoute
  to_multiverse : (request : MultiverseRequest) → UniverseRoute
  to_proofs :
      (asset_id : Text)
      → (hash_str : Text) → (index : Text) → (script_key : Text) → (query : Text) → UniverseRoute
  to_push_proof :
      (asset_id : Text)
      → (hash_str : Text) → (index : Text) → (script_key : Text) → (request : PushProofRequest)
      → UniverseRoute
  to_roots : (query : Text) → UniverseRoute
  to_asset_roots : (asset_id : Text) → (query : Text) → UniverseRoute
  to_stats : UniverseRoute
  to_asset_stats : (query : Text) → UniverseRoute
  to_event_stats : (query : Text) → UniverseRoute
  to_sync : (request : SyncRequest) → UniverseRoute
  to_set_sync_config : (request : SyncConfigRequest) → UniverseRoute
  to_get_sync_config : UniverseRoute

unfoldable pub universe_service : UniverseRoute → Handler
universe_service to_delete = delete_handler
universe_service to_delete_federation = delete_federation_handler
universe_service (to_add_federation request) = add_federation_handler request
universe_service to_get_federation = get_federation_handler
universe_service to_info = info_handler
universe_service (to_keys asset_id query) = keys_handler asset_id query
universe_service (to_leaves asset_id query) = leaves_handler asset_id query
universe_service (to_fetch_supply_commit group_key_str query) =
    fetch_supply_commit_handler group_key_str query
universe_service (to_insert_supply_commit group_key_str request) =
    insert_supply_commit_handler group_key_str request
universe_service (to_ignore_asset_outpoint request) = ignore_asset_outpoint_handler request
universe_service (to_fetch_supply_leaves group_key_str query) =
    fetch_supply_leaves_handler group_key_str query
universe_service (to_update_supply_commit group_key_str request) =
    update_supply_commit_handler group_key_str request
universe_service (to_multiverse request) = multiverse_handler request
universe_service (to_proofs asset_id hash_str index script_key query) =
    proofs_handler asset_id hash_str index script_key query
universe_service (to_push_proof asset_id hash_str index script_key request) =
    push_proof_handler asset_id hash_str index script_key request
universe_service (to_roots query) = roots_handler query
universe_service (to_asset_roots asset_id query) = asset_roots_handler asset_id query
universe_service to_stats = stats_handler
universe_service (to_asset_stats query) = asset_stats_handler query
universe_service (to_event_stats query) = event_stats_handler query
universe_service (to_sync request) = sync_handler request
universe_service (to_set_sync_config request) = set_sync_config_handler request
universe_service to_get_sync_config = get_sync_config_handler

abbrev pub universe_place : UniverseRoute → Place
universe_place to_delete = record {
  method = method_delete;
  path = ascii "/universe/delete";
  query = [];
}
universe_place to_delete_federation = record {
  method = method_delete;
  path = ascii "/universe/federation";
  query = [];
}
universe_place (to_add_federation request) = record {
  method = method_post;
  path = ascii "/universe/federation";
  query = [];
}
universe_place to_get_federation = record {
  method = method_get;
  path = ascii "/universe/federation";
  query = [];
}
universe_place to_info = record { method = method_get; path = ascii "/universe/info"; query = [] }
universe_place (to_keys asset_id query) = record {
  method = method_get;
  path = ascii "/universe/keys/asset-id/" ++ asset_id;
  query = query;
}
universe_place (to_leaves asset_id query) = record {
  method = method_get;
  path = ascii "/universe/leaves/asset-id/" ++ asset_id;
  query = query;
}
universe_place (to_fetch_supply_commit group_key_str query) = record {
  method = method_get;
  path = ascii "/universe/supply/" ++ group_key_str;
  query = query;
}
universe_place (to_insert_supply_commit group_key_str request) = record {
  method = method_post;
  path = ascii "/universe/supply/" ++ group_key_str;
  query = [];
}
universe_place (to_ignore_asset_outpoint request) = record {
  method = method_post;
  path = ascii "/universe/supply/ignore";
  query = [];
}
universe_place (to_fetch_supply_leaves group_key_str query) = record {
  method = method_get;
  path = ascii "/universe/supply/leaves/" ++ group_key_str;
  query = query;
}
universe_place (to_update_supply_commit group_key_str request) = record {
  method = method_post;
  path = ascii "/universe/supply/update/" ++ group_key_str;
  query = [];
}
universe_place (to_multiverse request) = record {
  method = method_post;
  path = ascii "/universe/multiverse";
  query = [];
}
universe_place (to_proofs asset_id hash_str index script_key query) = record {
  method = method_get;
  path =
      ascii "/universe/proofs/asset-id/"
      ++ (asset_id
          ++ (ascii "/" ++ (hash_str ++ (ascii "/" ++ (index ++ (ascii "/" ++ script_key))))));
  query = query;
}
universe_place (to_push_proof asset_id hash_str index script_key request) = record {
  method = method_post;
  path =
      ascii "/universe/proofs/push/asset-id/"
      ++ (asset_id
          ++ (ascii "/" ++ (hash_str ++ (ascii "/" ++ (index ++ (ascii "/" ++ script_key))))));
  query = [];
}
universe_place (to_roots query) = record {
  method = method_get;
  path = ascii "/universe/roots";
  query = query;
}
universe_place (to_asset_roots asset_id query) = record {
  method = method_get;
  path = ascii "/universe/roots/asset-id/" ++ asset_id;
  query = query;
}
universe_place to_stats = record { method = method_get; path = ascii "/universe/stats"; query = [] }
universe_place (to_asset_stats query) = record {
  method = method_get;
  path = ascii "/universe/stats/assets";
  query = query;
}
universe_place (to_event_stats query) = record {
  method = method_get;
  path = ascii "/universe/stats/events";
  query = query;
}
universe_place (to_sync request) = record {
  method = method_post;
  path = ascii "/universe/sync";
  query = [];
}
universe_place (to_set_sync_config request) = record {
  method = method_post;
  path = ascii "/universe/sync/config";
  query = [];
}
universe_place to_get_sync_config = record {
  method = method_get;
  path = ascii "/universe/sync/config";
  query = [];
}

-- The parameters that the route takes.
abbrev pub UniverseAcceptable : UniverseRoute → Type 0
UniverseAcceptable (to_keys asset_id query) = IsHexParam asset_id
UniverseAcceptable (to_leaves asset_id query) = IsHexParam asset_id
UniverseAcceptable (to_fetch_supply_commit group_key_str query) = IsGroupKey group_key_str
UniverseAcceptable (to_insert_supply_commit group_key_str request) = IsGroupKey group_key_str
UniverseAcceptable (to_fetch_supply_leaves group_key_str query) = IsGroupKey group_key_str
UniverseAcceptable (to_update_supply_commit group_key_str request) = IsGroupKey group_key_str
UniverseAcceptable (to_proofs asset_id hash_str index script_key query) =
    IsHexParam asset_id × IsHexParam hash_str × IsIndex index × IsHexParam script_key
UniverseAcceptable (to_push_proof asset_id hash_str index script_key request) =
    IsHexParam asset_id × IsHexParam hash_str × IsIndex index × IsHexParam script_key
UniverseAcceptable (to_asset_roots asset_id query) = IsHexParam asset_id
UniverseAcceptable _ = Unit
