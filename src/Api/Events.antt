-- ===== src/Api/Events.antt =====
-- src/api/events.rs: the debug level, and subscriptions to events by a client of their own, which
-- waits for five minutes. What such a client answers is a parameter.
use taproot_assets_rest_gate.Prelude.{
  Text, ascii, Bool, Option, none, some, [], ◌∷◌, ◌++◌, List, if◌then◌else◌,
}
use taproot_assets_rest_gate.Json.{Value, string, boolean, array, nil, object, field, end}
use taproot_assets_rest_gate.Error.{Result, ok, err, request_error, validation_error}
use taproot_assets_rest_gate.Crypto.{Parsed, parsed, rejected}
use taproot_assets_rest_gate.Api.Upstream.{
  Request, Reply, Attempt, done, failed, Call, Client, json_result, handle_result,
}
use taproot_assets_rest_gate.Api.Endpoint.{
  Gateway, Handler, endpoint, post_request, ask, answered, nullable,
}

pub record DebugLevelRequest : Type 0 where
  pub show : Bool
  pub level_spec : Text

abbrev pub debug_level_request_value : DebugLevelRequest → Value
debug_level_request_value r =
    object
      (field (ascii "show") (boolean r.show) (field (ascii "level_spec") (string r.level_spec) end))

pub record AssetMintRequest : Type 0 where
  pub short_response : Bool

abbrev pub asset_mint_request_value : AssetMintRequest → Value
asset_mint_request_value r = object (field (ascii "short_response") (boolean r.short_response) end)

pub record AssetReceiveRequest : Type 0 where
  pub filter_addr : Option Text
  pub start_timestamp : Option Text

abbrev pub asset_receive_request_value : AssetReceiveRequest → Value
asset_receive_request_value r = object (
    field (ascii "filter_addr") (nullable string r.filter_addr)
      (field (ascii "start_timestamp") (nullable string r.start_timestamp) end))

pub record AssetSendRequest : Type 0 where
  pub filter_script_key : Option Text
  pub filter_label : Option Text

abbrev pub asset_send_request_value : AssetSendRequest → Value
asset_send_request_value r = object (
    field (ascii "filter_script_key") (nullable string r.filter_script_key)
      (field (ascii "filter_label") (nullable string r.filter_label) end))

-- What the builder of the client returns, and `StatusCode`'s `Display`.
pub record Subscriber : Type 0 where
  pub built : Parsed Client
  pub shown_status : Reply → Text

abbrev pub create_event_client : Subscriber → Result Client
create_event_client b = elim b.built [
  | parsed client ↦ ok client
  | rejected e ↦ err (validation_error (ascii "Failed to create event client: " ++ e))
]

unfoldable pub set_debug_level : Gateway → DebugLevelRequest → Call Value
set_debug_level g request =
    ask g (post_request g (endpoint g (ascii "debuglevel")) (debug_level_request_value request))

abbrev pub unknown_error : Option Text → Text
unknown_error none = ascii "Unknown error"
unknown_error (some text) = text

abbrev pub no_events : Value
no_events = object (
    field (ascii "events") (array nil) (
      field (ascii "timeout") (boolean Bool.true)
        (field (ascii "message") (string (ascii "No events received within timeout period")) end)))

-- A timeout of the request is answered as if there were no events.
unfoldable pub subscribed : Gateway → Subscriber → Attempt Reply → Result Value
subscribed g b (done reply) =
    if g.http.is_success reply.status
    then json_result reply.json
    else err (
        validation_error (
          ascii "Event subscription failed with status "
          ++ (b.shown_status reply ++ (ascii ": " ++ unknown_error reply.text))))
subscribed g b (failed e) = if e.is_timeout then ok no_events else err (request_error e)

abbrev pub subscribe_with :
    Gateway → Subscriber → Request → Result Client → List Request × Result Value
subscribe_with g b request (err e) = ([], err e)
subscribe_with g b request (ok client) = (request ∷ [], subscribed g b (client request))

unfoldable pub asset_mint_events :
    Subscriber → Gateway → AssetMintRequest → List Request × Result Value
unfolding subscribed
asset_mint_events b g request =
    subscribe_with g b
      (post_request g (endpoint g (ascii "events/asset-mint")) (asset_mint_request_value request))
      (create_event_client b)

unfoldable pub asset_receive_events :
    Subscriber → Gateway → AssetReceiveRequest → List Request × Result Value
unfolding subscribed
asset_receive_events b g request =
    subscribe_with g b
      (post_request g (endpoint g (ascii "events/asset-receive"))
        (asset_receive_request_value request))
      (create_event_client b)

unfoldable pub asset_send_events :
    Subscriber → Gateway → AssetSendRequest → List Request × Result Value
unfolding subscribed
asset_send_events b g request =
    subscribe_with g b
      (post_request g (endpoint g (ascii "events/asset-send")) (asset_send_request_value request))
      (create_event_client b)

unfoldable pub set_debug_level_handler : DebugLevelRequest → Handler
set_debug_level_handler request g = answered (set_debug_level g request) g

-- The handlers of subscriptions do not use the gateway's client.
unfoldable pub asset_mint_handler : Subscriber → AssetMintRequest → Handler
asset_mint_handler b request g client =
    let (sent, result) = asset_mint_events b g request in
    (sent, handle_result g.http g.serde result)

unfoldable pub asset_receive_handler : Subscriber → AssetReceiveRequest → Handler
asset_receive_handler b request g client =
    let (sent, result) = asset_receive_events b g request in
    (sent, handle_result g.http g.serde result)

unfoldable pub asset_send_handler : Subscriber → AssetSendRequest → Handler
asset_send_handler b request g client =
    let (sent, result) = asset_send_events b g request in
    (sent, handle_result g.http g.serde result)
