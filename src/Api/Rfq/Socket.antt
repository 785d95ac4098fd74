-- ===== src/Api/Rfq/Socket.antt =====
-- src/api/rfq.rs: the WebSocket of RFQ events. Its task reads the client's frames and sends pings,
-- and a second task polls tapd. A step runs one of them up to its next send or pause: a request to
-- tapd and its answer are one step, and one that is aborted in between is a poll whose text is never
-- sent.
pub mod Feed
use taproot_assets_rest_gate.Prelude.{
  Text, ascii, Bool, true, false, Option, none, some, List, [], ◌∷◌, ◌++◌, if◌then◌else◌,
}
use taproot_assets_rest_gate.Json.{Value, string, object, field, end}
use taproot_assets_rest_gate.Error.{Result, ok, err, AppError, display}
use taproot_assets_rest_gate.Api.Upstream.{Request, Client}
use taproot_assets_rest_gate.Api.Endpoint.{Gateway}
use taproot_assets_rest_gate.Api.Rfq.{get_notifications}
use taproot_assets_rest_gate.Proxy.Frames.{ClientMessage, Event, received, failed}

-- Where `poll_rfq_events` stands: before a poll, before a send, in its sleep, or it is over.
pub data PollTask : Type 0 where
  polling sleeping stopped : PollTask
  telling : Text → PollTask

-- What the session took, the requests that were sent and what they returned, each oldest first.
pub record RfqSocket : Type 0 where
  pub live : Bool
  pub poll_task : PollTask
  pub handed : List ClientMessage
  pub requests : List Request
  pub fetched : List (Result Value)

-- The loop is left, and the polling task is aborted.
abbrev pub leave : RfqSocket → RfqSocket
leave s = record s { live = false; poll_task = stopped }

-- `taken` says whether the session takes the frame.
abbrev pub hand : ClientMessage → Bool → RfqSocket → RfqSocket
hand m taken s = if taken then record s { handed = s.handed ++ m ∷ [] } else leave s

-- The tasks start when the first text is sent.
unfoldable pub opened : Bool → RfqSocket
opened taken =
    if taken
    then record {
      live = true;
      poll_task = polling;
      handed = ClientMessage.text (ascii "{}") ∷ [];
      requests = [];
      fetched = [];
    }
    else record { live = false; poll_task = stopped; handed = []; requests = []; fetched = [] }

unfoldable pub on_message : ClientMessage → Bool → RfqSocket → RfqSocket
on_message (ClientMessage.close reason) taken s = leave s
on_message (ClientMessage.ping bytes) taken s = hand (ClientMessage.pong bytes) taken s
on_message (ClientMessage.text t) taken s = s
on_message (ClientMessage.binary d) taken s = s
on_message (ClientMessage.pong d) taken s = s
on_message (ClientMessage.continuation d) taken s = s
on_message ClientMessage.nop taken s = s

unfoldable pub on_event : Option (Event ClientMessage) → Bool → RfqSocket → RfqSocket
unfolding on_message
on_event none taken s = leave s
on_event (some failed) taken s = leave s
on_event (some (received m)) taken s = on_message m taken s

abbrev pub error_value : AppError → Value
error_value e = object (
    field (ascii "error") (string (display e))
      (field (ascii "type") (string (ascii "rfq_notification_error")) end))

abbrev pub or_braces : Option Text → Text
or_braces none = ascii "{}"
or_braces (some t) = t

-- The text that the client is sent after a poll. An error is written by `Display`, which is
-- serde_json's writer and does not fail.
unfoldable pub told : Gateway → Result Value → Text
told g (ok events) = or_braces (g.serde.to_string events)
told g (err e) = or_braces (g.serde.to_string (error_value e))

-- A text that is not taken ends the polling, and not the connection.
unfoldable pub poll_turn : Gateway → PollTask → Client → Bool → RfqSocket → RfqSocket
unfolding told
poll_turn g polling client taken s =
    let (sent, result) = get_notifications g client in
    record s {
      poll_task = telling (told g result);
      requests = s.requests ++ sent;
      fetched = s.fetched ++ result ∷ [];
    }
poll_turn g (telling t) client taken s =
    if taken
    then record s { poll_task = sleeping; handed = s.handed ++ ClientMessage.text t ∷ [] }
    else record s { poll_task = stopped }
poll_turn g sleeping client taken s = record s { poll_task = polling }
poll_turn g stopped client taken s = s

-- Which task runs next, with what it meets: an item of the stream or its end, tapd as it then is,
-- and whether the session takes a frame.
pub data Action : Type 0 where
  client : Option (Event ClientMessage) → (taken : Bool) → Action
  tick : (taken : Bool) → Action
  poll : Client → (taken : Bool) → Action

unfoldable pub step : Gateway → Action → RfqSocket → RfqSocket
unfolding on_event poll_turn
step g (client e taken) s = if s.live then on_event e taken s else s
step g (tick taken) s = if s.live then hand (ClientMessage.ping (ascii "ping")) taken s else s
step g (poll tapd taken) s = poll_turn g s.poll_task tapd taken s

unfoldable pub run : Gateway → List Action → RfqSocket → RfqSocket
unfolding step
run g [] s = s
run g (a ∷ actions) s = run g actions (step g a s)
