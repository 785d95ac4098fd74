-- ===== src/Mailbox/Loop.antt =====
-- `handle_mailbox_websocket_connection`: the frames of a client, one after the other.
pub mod Guarded
use taproot_assets_rest_gate.Prelude.{
  ℕ, ◌*◌, Text, ascii, Bool, true, false, Option, none, some, List, [], ◌∷◌, length, if◌then◌else◌,
  ltb,
}
use taproot_assets_rest_gate.Monitoring.{
  MonitoringService, record_message_received, record_rate_limit_hit, record_connection_closed,
}
use taproot_assets_rest_gate.MailboxAuth.Flow.{State}
use taproot_assets_rest_gate.Mailbox.{
  ConnectionLimits, check_rate_limit, MailboxResponse, response_value, Frame, text_frame, pong,
  close, put,
}
use taproot_assets_rest_gate.Mailbox.Session.{
  Session, Surroundings, WebSocketMailboxMessage, Handled, goes_on, ends, still_streaming, errs,
  auth_response, handle_mailbox_message,
}

abbrev pub max_message_size_bytes : ℕ
max_message_size_bytes = 64 * 1024

-- What the wait for the next frame brings: a frame, the end of the stream, or its five minutes are
-- over.
pub data Event : Type 0 where
  text : Text → Event
  ping_frame : Text → Event
  close_frame other failed stream_ended timed_out : Event

-- An event with what it meets: the shared state as it then is, and serde's reader of messages.
pub record Arrival : Type 1 where
  pub event : Event
  pub surroundings : Surroundings
  pub shared : State
  pub parse : Text → Option WebSocketMailboxMessage

pub record Connection : Type 0 where
  pub session : Session
  pub limits : ConnectionLimits

-- The loop goes on, or was left; `hangs` is a stream that has not ended.
pub data Progress : Type 0 where
  loops leaves hangs : Connection → Progress

abbrev pub monitored :
    (MonitoringService → MonitoringService) → Option MonitoringService → Option MonitoringService
monitored f none = none
monitored f (some mon) = some (f mon)

abbrev pub with_session : Session → Connection → Connection
with_session s c = record c { session = s }

abbrev pub say : Frame → Connection → Connection
say frame c = record c { session = record c.session { sent = put frame c.session.sent } }

abbrev pub observe : (MonitoringService → MonitoringService) → Connection → Connection
observe f c = record c {
  session = record c.session { monitoring = monitored f c.session.monitoring };
}

-- An error is answered by a failed authentication, if that can be written.
unfoldable pub report_error : Surroundings → Connection → Connection
report_error r c = elim (r.world.serde.to_string (response_value (auth_response false))) [
  | none ↦ c
  | some t ↦ say (text_frame t) c
]

abbrev pub after_handled : Surroundings → Connection → Handled → Progress
after_handled r c (goes_on s) = loops (with_session s c)
after_handled r c (ends s) = leaves (with_session s c)
after_handled r c (still_streaming s) = hangs (with_session s c)
after_handled r c (errs s e) = leaves (report_error r (with_session s c))

abbrev pub on_parsed : Surroundings → Connection → Option WebSocketMailboxMessage → Progress
on_parsed r c none = leaves c
on_parsed r c (some msg) = after_handled r c (handle_mailbox_message r msg c.session)

unfoldable pub on_text : Arrival → Text → Connection → Progress
on_text a t c =
    if ltb max_message_size_bytes (length t)
    then leaves (say (close (ascii "Size") (ascii "Message too large")) c)
    else on_parsed a.surroundings
        (observe
          (record_message_received a.surroundings.connection_id (length t) a.surroundings.now) c)
        (a.parse t)

unfoldable pub on_frame : Arrival → Connection → Event → Progress
on_frame a c (text t) = on_text a t c
on_frame a c (ping_frame bytes) =
    if a.surroundings.accepts (length c.session.sent)
    then loops (say (pong bytes) c)
    else leaves (say (pong bytes) c)
on_frame a c other = loops c
on_frame a c _ = leaves c

-- Every frame is counted, of whatever kind, and an error in place of one too.
unfoldable pub counted : Arrival → Connection → Progress
counted a c =
    let (limits, passed) = check_rate_limit a.surroundings.now c.limits in
    let c' : Connection = record c { limits = limits } in
    if passed
    then on_frame a c' a.event
    else leaves (
        say (close (ascii "Policy") (ascii "Rate limit exceeded"))
          (observe (record_rate_limit_hit a.surroundings.connection_id) c'))

abbrev pub in_event : Event → Arrival → Connection → Progress
in_event stream_ended a c = leaves c
in_event timed_out a c = leaves (say (close (ascii "Normal") (ascii "Connection idle timeout")) c)
in_event _ a c = counted a c

unfoldable pub advance : Arrival → Connection → Progress
advance a c = in_event a.event a (record c { session = record c.session { shared = a.shared } })

-- What follows the loop.
unfoldable pub close_connection : Surroundings → Connection → Connection
close_connection r c = observe (record_connection_closed r.connection_id r.end) c

abbrev pub proceed : Surroundings → (Connection → Progress) → Progress → Progress
proceed r next (loops c) = next c
proceed r next (leaves c) = leaves (close_connection r c)
proceed r next (hangs c) = hangs c

unfoldable pub run_loop : List Arrival → Connection → Progress
run_loop [] c = loops c
run_loop (a ∷ rest) c = proceed a.surroundings (λ c'. run_loop rest c') (advance a c)
