-- ===== src/Api/Burn.antt =====
-- src/api/burn.rs: burning assets.
pub mod Guard
use taproot_assets_rest_gate.Prelude.{Text, ascii, Option, none, some, List, ◌++◌}
use taproot_assets_rest_gate.Json.{Value, Fields, string, object, null, field, end, Serde}
use taproot_assets_rest_gate.Error.{Result, err, AppError, invalid_input, Http, HttpResponse}
use taproot_assets_rest_gate.Api.Params.{validate_asset_id, validate_group_key}
use taproot_assets_rest_gate.Api.Upstream.{
  Request, method_get, method_post, Call, Client, ◌>>=◌, ◌>>◌, lift, send, parse_upstream,
  with_query, handle_result,
}

pub record AssetSpecifier : Type 0 where
  pub asset_id_str : Option Text
  pub group_key_str : Option Text

pub record BurnRequest : Type 0 where
  pub asset_specifier : AssetSpecifier
  pub amount_to_burn : Text
  pub confirmation_text : Text
  pub note : Option Text

abbrev pub both_set : AppError
both_set =
    invalid_input (ascii "asset_specifier must set exactly one of asset_id_str or group_key_str")

abbrev pub none_set : AppError
none_set = invalid_input (ascii "asset_specifier must set either asset_id_str or group_key_str")

unfoldable pub validate_fields : Option Text → Option Text → Result (Unit {0})
validate_fields (some asset_id) (some group_key) = err both_set
validate_fields none none = err none_set
validate_fields (some asset_id) none = validate_asset_id asset_id
validate_fields none (some group_key) = validate_group_key group_key

unfoldable pub validate : AssetSpecifier → Result (Unit {0})
unfolding validate_fields
validate spec = validate_fields spec.asset_id_str spec.group_key_str

-- `skip_serializing_if = "Option::is_none"`, and a field that is written as `null`.
abbrev optional : Text → Option Text → Fields → Fields
optional k none r = r
optional k (some v) r = field k (string v) r

abbrev or_null : Option Text → Value
or_null none = null
or_null (some v) = string v

unfoldable pub burn_body : BurnRequest → Value
burn_body r = object (
    field (ascii "asset_specifier")
      (object (
        optional (ascii "asset_id_str") r.asset_specifier.asset_id_str
          (optional (ascii "group_key_str") r.asset_specifier.group_key_str end)))
      (field (ascii "amount_to_burn") (string r.amount_to_burn) (
        field (ascii "confirmation_text") (string r.confirmation_text)
          (field (ascii "note") (or_null r.note) end))))

unfoldable pub burn_post : Text → Text → BurnRequest → Request
burn_post base_url macaroon_hex request = record {
  method = method_post;
  url = base_url ++ ascii "/v1/taproot-assets/burn";
  macaroon = macaroon_hex;
  body = some (burn_body request);
}

unfoldable pub burn_assets : Http → Text → Text → BurnRequest → Call Value
burn_assets h base_url macaroon_hex request = do
  lift (validate request.asset_specifier)
  response ← send (burn_post base_url macaroon_hex request)
  lift (parse_upstream h response)

unfoldable pub burns_get : Text → Text → Text → Request
unfolding with_query
burns_get base_url macaroon_hex query = record {
  method = method_get;
  url = with_query (base_url ++ ascii "/v1/taproot-assets/burns") query;
  macaroon = macaroon_hex;
  body = none;
}

unfoldable pub list_burns : Http → Text → Text → Text → Call Value
list_burns h base_url macaroon_hex query = do
  response ← send (burns_get base_url macaroon_hex query)
  lift (parse_upstream h response)

-- The handlers `burn` and `list`.
unfoldable pub respond : Http → Serde → Call Value → Client → List Request × HttpResponse
respond h s call client = let (sent, r) = call client in (sent, handle_result h s r)

unfoldable pub burn :
    Http → Serde → Text → Text → BurnRequest → Client → List Request × HttpResponse
unfolding respond burn_assets
burn h s base_url macaroon_hex request = respond h s (burn_assets h base_url macaroon_hex request)

unfoldable pub list : Http → Serde → Text → Text → Text → Client → List Request × HttpResponse
unfolding respond list_burns
list h s base_url macaroon_hex query = respond h s (list_burns h base_url macaroon_hex query)
