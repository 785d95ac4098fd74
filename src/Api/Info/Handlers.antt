-- ===== src/Api/Info/Handlers.antt =====
-- src/api/info.rs: the handlers, which check what stands in the path.
use taproot_assets_rest_gate.Api.Endpoint.{Handler, answered}
use taproot_assets_rest_gate.Api.Info.{get_info}

unfoldable pub get_info_handler : Handler
get_info_handler g = answered (get_info g) g
