-- ===== src/Api/Info/Routes.antt =====
-- The routes of src/api/info.rs with their inputs.
use taproot_assets_rest_gate.Prelude.{ascii, []}
use taproot_assets_rest_gate.Api.Upstream.{method_get}
use taproot_assets_rest_gate.Api.Endpoint.{Handler}
use taproot_assets_rest_gate.Api.Confined.{Place}
use taproot_assets_rest_gate.Api.Info.Handlers.{get_info_handler}

pub data InfoRoute : Type 0 where
  to_get_info : InfoRoute

unfoldable pub info_service : InfoRoute → Handler
info_service to_get_info = get_info_handler

abbrev pub info_place : InfoRoute → Place
info_place to_get_info = record { method = method_get; path = ascii "/getinfo"; query = [] }

-- The parameters that the route takes.
abbrev pub InfoAcceptable : InfoRoute → Type 0
InfoAcceptable _ = Unit
