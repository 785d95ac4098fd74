-- ===== src/Api/Info.antt =====
-- src/api/info.rs: the calls of tapd about the state of tapd.
pub mod Handlers
pub mod Routes
pub mod Relayed
use taproot_assets_rest_gate.Prelude.{Text, ascii, ◌++◌}
use taproot_assets_rest_gate.Json.{Value, object, end}
use taproot_assets_rest_gate.Api.Upstream.{Call, with_query}
use taproot_assets_rest_gate.Api.Endpoint.{
  Gateway, endpoint, get_request, post_request, delete_request, ask,
}

unfoldable pub get_info : Gateway → Call Value
get_info g = ask g (get_request g (endpoint g (ascii "getinfo")))
