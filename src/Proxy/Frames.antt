-- ===== src/Proxy/Frames.antt =====
-- The frames of both sides of the proxy, and what the proxy does to a text of either side.
use taproot_assets_rest_gate.Prelude.{ℕ, Text, Option, none, some, if◌then◌else◌}
use taproot_assets_rest_gate.Json.{Serde}
use taproot_assets_rest_gate.Correlation.{
  CorrelationTracker, generate_correlation_id, add_pending_request, remove_pending_request,
  inject_correlation_id, extract_correlation_id, is_request_message,
}
use taproot_assets_rest_gate.Proxy.{Moment, epoch_millis}

pub record CloseFrame : Type 0 where
  pub code : ℕ
  pub reason : Text

-- `actix_ws::Message`.
pub data ClientMessage : Type 0 where
  text binary ping pong continuation : Text → ClientMessage
  close : Option CloseFrame → ClientMessage
  nop : ClientMessage

-- `tungstenite::Message`.
pub data BackendMessage : Type 0 where
  text binary ping pong frame : Text → BackendMessage
  close : Option CloseFrame → BackendMessage

-- An item of a stream: a frame, or an error of the protocol.
pub data Event (A : Type 0) : Type 0 where
  received : A → Event A
  failed : Event A

-- The end of `timeout(MESSAGE_TIMEOUT, sink.send(…))`: sent, an error of the sink, or the timeout.
pub data Outcome : Type 0 where
  sent refused timed_out : Outcome

abbrev pub max_message_size : ℕ
max_message_size = 10485760

-- The request is noted under its identifier before it is sent.
unfoldable pub note_request :
    Moment → Text → Text → Option Text → CorrelationTracker → CorrelationTracker × Text
note_request at id message none t = (t, message)
note_request at id message (some modified) t =
    (add_pending_request at.instant id message t, modified)

unfoldable pub correlate_request :
    Serde → Moment → Text → CorrelationTracker → CorrelationTracker × Text
unfolding note_request
correlate_request s at message t =
    let (t', id) = generate_correlation_id (epoch_millis at) t in
    note_request at id message (inject_correlation_id s message id) t'

-- A text of the client with the tracker of the session.
unfoldable pub outgoing : Serde → Moment → Text → CorrelationTracker → CorrelationTracker × Text
unfolding correlate_request
outgoing s at message t =
    if is_request_message s message then correlate_request s at message t else (t, message)

abbrev pub final_message :
    Serde → Moment → Text → Option CorrelationTracker → Option CorrelationTracker × Text
final_message s at message none = (none, message)
final_message s at message (some t) = let (t', m) = outgoing s at message t in (some t', m)

-- A text of tapd settles the request whose identifier it carries, and stays as it is.
abbrev pub settle : Option Text → CorrelationTracker → CorrelationTracker
settle none t = t
settle (some id) t = (remove_pending_request id t).0

abbrev pub match_response : Serde → Text → Option CorrelationTracker → Option CorrelationTracker
match_response s message none = none
match_response s message (some t) = some (settle (extract_correlation_id s message) t)
