-- ===== src/Api/Stop.antt =====
-- src/api/stop.rs and src/api/health.rs: stopping tapd, and the state of the gateway.
use taproot_assets_rest_gate.Prelude.{Text, ascii, Option, none, some, ◌++◌, if◌then◌else◌}
use taproot_assets_rest_gate.Json.{Value, string, object, field, end}
use taproot_assets_rest_gate.Error.{
  Result, ok, err, ReqwestError, request_error, validation_error, Http, HttpResponse, status_code,
  display, error_object,
}
use taproot_assets_rest_gate.Api.Upstream.{Reply, Call, ◌>>=◌, lift, send}
use taproot_assets_rest_gate.Api.Endpoint.{Gateway, Handler, endpoint, post_request}
use taproot_assets_rest_gate.Api.Info.{get_info}

-- `StatusCode`'s `Display`, and the error of a body that cannot be read.
pub record StopReader : Type 0 where
  pub shown_status : Reply → Text
  pub unreadable : ReqwestError

abbrev pub stop_failure : StopReader → Reply → Option Text → Result Value
stop_failure r reply none = err (request_error r.unreadable)
stop_failure r reply (some text) = err (
    validation_error
      (ascii "Stop daemon failed with status " ++ (r.shown_status reply ++ (ascii ": " ++ text))))

unfoldable pub stop_result : StopReader → Http → Reply → Result Value
stop_result r h reply =
    if h.is_success reply.status then ok (object end) else stop_failure r reply reply.text

unfoldable pub stop_daemon : StopReader → Gateway → Call Value
unfolding stop_result
stop_daemon r g = do
  response ← send (post_request g (endpoint g (ascii "stop")) (object end))
  lift (stop_result r g.http response)

abbrev pub stop_response : Gateway → Result Value → HttpResponse
stop_response g (ok response) = record { status = 200; body = response }
stop_response g (err e) = record { status = status_code g.http e; body = error_object (display e) }

unfoldable pub stop_handler : StopReader → Handler
stop_handler r g client =
    let (sent, result) = stop_daemon r g client in (sent, stop_response g result)

-- `timestamp` is the time in the notation of RFC 3339.
abbrev pub health : Text → HttpResponse
health timestamp = record {
  status = 200;
  body = object (
      field (ascii "status") (string (ascii "healthy"))
        (field (ascii "timestamp") (string timestamp) end));
}

abbrev pub services : Text → Text → Value
services status state = object (
    field (ascii "status") (string status)
      (field (ascii "services") (object (field (ascii "taproot_assets") (string state) end)) end))

abbrev pub readiness_response : Result Value → HttpResponse
readiness_response (ok v) = record { status = 200; body = services (ascii "ready") (ascii "up") }
readiness_response (err e) = record {
  status = 503;
  body = services (ascii "not_ready") (ascii "down");
}

unfoldable pub readiness : Handler
readiness g client = let (sent, r) = get_info g client in (sent, readiness_response r)
