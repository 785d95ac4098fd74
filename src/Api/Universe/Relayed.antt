-- ===== src/Api/Universe/Relayed.antt =====
-- The requests of the routes of src/api/universe.rs stay below the prefix of tapd.
use taproot_assets_rest_gate.Prelude.{all, refl}
use taproot_assets_rest_gate.Error.{◌>>◌}
use taproot_assets_rest_gate.Api.Params.{
  validate_hex_param, validate_group_key, validate_integer_param,
}
use taproot_assets_rest_gate.Api.Upstream.{Client, with_query}
use taproot_assets_rest_gate.Api.Endpoint.{Gateway, ask-sent}
use taproot_assets_rest_gate.Api.Confined.{
  Confines, guarded-Confines, answered-Confines, validate_hex_param-IsCheck,
  validate_integer_param-IsCheck, validate_group_key-IsCheck, then-IsCheck, then-ok, hex_path,
  group_key_path, integer_path, path_append, IsHexParam-ok, IsGroupKey-ok, IsIndex-ok, ok-then,
}
use taproot_assets_rest_gate.Api.Universe.{
  delete_universe, delete_federation, add_federation, get_federation, get_universe_info, get_keys,
  get_leaves, get_multiverse, get_proofs, push_proof, get_roots, get_asset_roots, get_stats,
  get_asset_stats, get_event_stats, sync_universe, set_sync_config, get_sync_config,
  fetch_supply_commit, insert_supply_commit, ignore_asset_outpoint, fetch_supply_leaves,
  update_supply_commit,
}
use taproot_assets_rest_gate.Api.Universe.Handlers.{
  delete_handler, delete_federation_handler, add_federation_handler, get_federation_handler,
  info_handler, keys_handler, leaves_handler, fetch_supply_commit_handler,
  insert_supply_commit_handler, ignore_asset_outpoint_handler, fetch_supply_leaves_handler,
  update_supply_commit_handler, multiverse_handler, proofs_handler, push_proof_handler,
  roots_handler, asset_roots_handler, stats_handler, asset_stats_handler, event_stats_handler,
  sync_handler, set_sync_config_handler, get_sync_config_handler,
}
use taproot_assets_rest_gate.Api.Universe.Routes.{
  UniverseRoute, universe_service, universe_place, UniverseAcceptable, to_delete,
  to_delete_federation, to_add_federation, to_get_federation, to_info, to_keys, to_leaves,
  to_fetch_supply_commit, to_insert_supply_commit, to_ignore_asset_outpoint, to_fetch_supply_leaves,
  to_update_supply_commit, to_multiverse, to_proofs, to_push_proof, to_roots, to_asset_roots,
  to_stats, to_asset_stats, to_event_stats, to_sync, to_set_sync_config, to_get_sync_config,
}

pub universe_service-Confines :
    (r : UniverseRoute) (g : Gateway) (client : Client)
    → Confines g (universe_place r) (UniverseAcceptable r) (universe_service r g client)
unfolding universe_service delete_handler delete_federation_handler add_federation_handler
    get_federation_handler info_handler keys_handler leaves_handler fetch_supply_commit_handler
    insert_supply_commit_handler ignore_asset_outpoint_handler fetch_supply_leaves_handler
    update_supply_commit_handler multiverse_handler proofs_handler push_proof_handler roots_handler
    asset_roots_handler stats_handler asset_stats_handler event_stats_handler sync_handler
    set_sync_config_handler get_sync_config_handler add_federation delete_federation delete_universe
    fetch_supply_commit fetch_supply_leaves get_asset_roots get_asset_stats get_event_stats
    get_federation get_keys get_leaves get_multiverse get_proofs get_roots get_stats get_sync_config
    get_universe_info ignore_asset_outpoint insert_supply_commit push_proof set_sync_config
    sync_universe update_supply_commit with_query all
universe_service-Confines to_delete g client =
    answered-Confines g (universe_place to_delete) (delete_universe g) _ client
      (ask-sent g _ client) (refl, refl, refl, refl)
universe_service-Confines to_delete_federation g client =
    answered-Confines g (universe_place to_delete_federation) (delete_federation g) _ client
      (ask-sent g _ client) (refl, refl, refl, refl)
universe_service-Confines (to_add_federation request) g client =
    answered-Confines g (universe_place (to_add_federation request)) (add_federation g request) _
      client (ask-sent g _ client) (refl, refl, refl, refl)
universe_service-Confines to_get_federation g client =
    answered-Confines g (universe_place to_get_federation) (get_federation g) _ client
      (ask-sent g _ client) (refl, refl, refl, refl)
universe_service-Confines to_info g client =
    answered-Confines g (universe_place to_info) (get_universe_info g) _ client
      (ask-sent g _ client) (refl, refl, refl, refl)
universe_service-Confines (to_keys asset_id query) g client =
    guarded-Confines g (universe_place (to_keys asset_id query))
      (UniverseAcceptable (to_keys asset_id query)) (validate_hex_param asset_id) _ client
      (validate_hex_param-IsCheck asset_id) (λ a. IsHexParam-ok asset_id a)
      (λ p. (refl, refl, refl, hex_path asset_id p))
universe_service-Confines (to_leaves asset_id query) g client =
    guarded-Confines g (universe_place (to_leaves asset_id query))
      (UniverseAcceptable (to_leaves asset_id query)) (validate_hex_param asset_id) _ client
      (validate_hex_param-IsCheck asset_id) (λ a. IsHexParam-ok asset_id a)
      (λ p. (refl, refl, refl, hex_path asset_id p))
universe_service-Confines (to_fetch_supply_commit group_key_str query) g client =
    guarded-Confines g (universe_place (to_fetch_supply_commit group_key_str query))
      (UniverseAcceptable (to_fetch_supply_commit group_key_str query))
      (validate_group_key group_key_str) _ client (validate_group_key-IsCheck group_key_str)
      (λ a. IsGroupKey-ok group_key_str a) (λ p. (refl, refl, refl, group_key_path group_key_str p))
universe_service-Confines (to_insert_supply_commit group_key_str request) g client =
    guarded-Confines g (universe_place (to_insert_supply_commit group_key_str request))
      (UniverseAcceptable (to_insert_supply_commit group_key_str request))
      (validate_group_key group_key_str) _ client (validate_group_key-IsCheck group_key_str)
      (λ a. IsGroupKey-ok group_key_str a) (λ p. (refl, refl, refl, group_key_path group_key_str p))
universe_service-Confines (to_ignore_asset_outpoint request) g client =
    answered-Confines g (universe_place (to_ignore_asset_outpoint request))
      (ignore_asset_outpoint g request) _ client (ask-sent g _ client) (refl, refl, refl, refl)
universe_service-Confines (to_fetch_supply_leaves group_key_str query) g client =
    guarded-Confines g (universe_place (to_fetch_supply_leaves group_key_str query))
      (UniverseAcceptable (to_fetch_supply_leaves group_key_str query))
      (validate_group_key group_key_str) _ client (validate_group_key-IsCheck group_key_str)
      (λ a. IsGroupKey-ok group_key_str a) (λ p. (refl, refl, refl, group_key_path group_key_str p))
universe_service-Confines (to_update_supply_commit group_key_str request) g client =
    guarded-Confines g (universe_place (to_update_supply_commit group_key_str request))
      (UniverseAcceptable (to_update_supply_commit group_key_str request))
      (validate_group_key group_key_str) _ client (validate_group_key-IsCheck group_key_str)
      (λ a. IsGroupKey-ok group_key_str a) (λ p. (refl, refl, refl, group_key_path group_key_str p))
universe_service-Confines (to_multiverse request) g client =
    answered-Confines g (universe_place (to_multiverse request)) (get_multiverse g request) _ client
      (ask-sent g _ client) (refl, refl, refl, refl)
universe_service-Confines (to_proofs asset_id hash_str index script_key query) g client =
    guarded-Confines g (universe_place (to_proofs asset_id hash_str index script_key query))
      (UniverseAcceptable (to_proofs asset_id hash_str index script_key query))
      (validate_hex_param asset_id
        >> validate_hex_param hash_str
        >> validate_integer_param index
        >> validate_hex_param script_key)
      _ client
      (then-IsCheck
        (validate_hex_param asset_id >> validate_hex_param hash_str >> validate_integer_param index)
        (validate_hex_param script_key)
        (then-IsCheck (validate_hex_param asset_id >> validate_hex_param hash_str)
          (validate_integer_param index)
          (then-IsCheck (validate_hex_param asset_id) (validate_hex_param hash_str)
            (validate_hex_param-IsCheck asset_id) (validate_hex_param-IsCheck hash_str))
          (validate_integer_param-IsCheck index))
        (validate_hex_param-IsCheck script_key))
      (λ a.
        ok-then
          (validate_hex_param asset_id
            >> validate_hex_param hash_str
            >> validate_integer_param index)
          (validate_hex_param script_key)
          (ok-then (validate_hex_param asset_id >> validate_hex_param hash_str)
            (validate_integer_param index)
            (ok-then (validate_hex_param asset_id) (validate_hex_param hash_str)
              (IsHexParam-ok asset_id a.0) (IsHexParam-ok hash_str a.1))
            (IsIndex-ok index a.2))
          (IsHexParam-ok script_key a.3))
      (λ p. (
        refl,
        refl,
        refl,
        path_append asset_id _
            (hex_path asset_id ((then-ok _ _ (then-ok _ _ (then-ok _ _ p).0).0).0))
            (path_append hash_str _
              (hex_path hash_str ((then-ok _ _ (then-ok _ _ (then-ok _ _ p).0).0).1))
              (path_append index _ (integer_path index ((then-ok _ _ (then-ok _ _ p).0).1))
                (hex_path script_key ((then-ok _ _ p).1)))),
      ))
universe_service-Confines (to_push_proof asset_id hash_str index script_key request) g client =
    guarded-Confines g (universe_place (to_push_proof asset_id hash_str index script_key request))
      (UniverseAcceptable (to_push_proof asset_id hash_str index script_key request))
      (validate_hex_param asset_id
        >> validate_hex_param hash_str
        >> validate_integer_param index
        >> validate_hex_param script_key)
      _ client
      (then-IsCheck
        (validate_hex_param asset_id >> validate_hex_param hash_str >> validate_integer_param index)
        (validate_hex_param script_key)
        (then-IsCheck (validate_hex_param asset_id >> validate_hex_param hash_str)
          (validate_integer_param index)
          (then-IsCheck (validate_hex_param asset_id) (validate_hex_param hash_str)
            (validate_hex_param-IsCheck asset_id) (validate_hex_param-IsCheck hash_str))
          (validate_integer_param-IsCheck index))
        (validate_hex_param-IsCheck script_key))
      (λ a.
        ok-then
          (validate_hex_param asset_id
            >> validate_hex_param hash_str
            >> validate_integer_param index)
          (validate_hex_param script_key)
          (ok-then (validate_hex_param asset_id >> validate_hex_param hash_str)
            (validate_integer_param index)
            (ok-then (validate_hex_param asset_id) (validate_hex_param hash_str)
              (IsHexParam-ok asset_id a.0) (IsHexParam-ok hash_str a.1))
            (IsIndex-ok index a.2))
          (IsHexParam-ok script_key a.3))
      (λ p. (
        refl,
        refl,
        refl,
        path_append asset_id _
            (hex_path asset_id ((then-ok _ _ (then-ok _ _ (then-ok _ _ p).0).0).0))
            (path_append hash_str _
              (hex_path hash_str ((then-ok _ _ (then-ok _ _ (then-ok _ _ p).0).0).1))
              (path_append index _ (integer_path index ((then-ok _ _ (then-ok _ _ p).0).1))
                (hex_path script_key ((then-ok _ _ p).1)))),
      ))
universe_service-Confines (to_roots query) g client =
    answered-Confines g (universe_place (to_roots query)) (get_roots g query) _ client
      (ask-sent g _ client) (refl, refl, refl, refl)
universe_service-Confines (to_asset_roots asset_id query) g client =
    guarded-Confines g (universe_place (to_asset_roots asset_id query))
      (UniverseAcceptable (to_asset_roots asset_id query)) (validate_hex_param asset_id) _ client
      (validate_hex_param-IsCheck asset_id) (λ a. IsHexParam-ok asset_id a)
      (λ p. (refl, refl, refl, hex_path asset_id p))
universe_service-Confines to_stats g client =
    answered-Confines g (universe_place to_stats) (get_stats g) _ client (ask-sent g _ client)
      (refl, refl, refl, refl)
universe_service-Confines (to_asset_stats query) g client =
    answered-Confines g (universe_place (to_asset_stats query)) (get_asset_stats g query) _ client
      (ask-sent g _ client) (refl, refl, refl, refl)
universe_service-Confines (to_event_stats query) g client =
    answered-Confines g (universe_place (to_event_stats query)) (get_event_stats g query) _ client
      (ask-sent g _ client) (refl, refl, refl, refl)
universe_service-Confines (to_sync request) g client =
    answered-Confines g (universe_place (to_sync request)) (sync_universe g request) _ client
      (ask-sent g _ client) (refl, refl, refl, refl)
universe_service-Confines (to_set_sync_config request) g client =
    answered-Confines g (universe_place (to_set_sync_config request)) (set_sync_config g request) _
      client (ask-sent g _ client) (refl, refl, refl, refl)
universe_service-Confines to_get_sync_config g client =
    answered-Confines g (universe_place to_get_sync_config) (get_sync_config g) _ client
      (ask-sent g _ client) (refl, refl, refl, refl)
