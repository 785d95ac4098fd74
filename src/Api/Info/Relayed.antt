-- ===== src/Api/Info/Relayed.antt =====
-- The requests of the routes of src/api/info.rs stay below the prefix of tapd.
use taproot_assets_rest_gate.Prelude.{all, refl}
use taproot_assets_rest_gate.Api.Upstream.{Client, with_query}
use taproot_assets_rest_gate.Api.Endpoint.{Gateway, ask-sent}
use taproot_assets_rest_gate.Api.Confined.{Confines, answered-Confines}
use taproot_assets_rest_gate.Api.Info.{get_info}
use taproot_assets_rest_gate.Api.Info.Handlers.{get_info_handler}
use taproot_assets_rest_gate.Api.Info.Routes.{
  InfoRoute, info_service, info_place, InfoAcceptable, to_get_info,
}

pub info_service-Confines :
    (r : InfoRoute) (g : Gateway) (client : Client)
    → Confines g (info_place r) (InfoAcceptable r) (info_service r g client)
unfolding info_service get_info_handler get_info with_query all
info_service-Confines to_get_info g client =
    answered-Confines g (info_place to_get_info) (get_info g) _ client (ask-sent g _ client)
      (refl, refl, refl, refl)
