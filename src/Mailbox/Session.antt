-- ===== src/Mailbox/Session.antt =====
-- `handle_mailbox_message`: the states of a mailbox's session. The shared table of challenges and
-- the database are found as other sessions left them.
pub mod States
pub mod Order
use taproot_assets_rest_gate.Prelude.{
  ℕ, Text, ascii, Bool, true, false, Option, none, some, List, [], ◌∷◌, ◌++◌, length, if◌then◌else◌,
}
use taproot_assets_rest_gate.Json.{Value, at, as_str, ◌and_then◌}
use taproot_assets_rest_gate.Error.{
  Result, ok, err, AppError, invalid_input, serialization_error, web_socket_error,
}
use taproot_assets_rest_gate.Api.Upstream.{Request, Client}
use taproot_assets_rest_gate.Monitoring.{MonitoringService, update_receiver_id, record_auth_failure}
use taproot_assets_rest_gate.MailboxAuth.Challenges.{ChallengeData, generate_challenge}
use taproot_assets_rest_gate.MailboxAuth.Flow.{World, State, validate_authentication}
use taproot_assets_rest_gate.Mailbox.{
  MailboxResponse, response_value, Frame, text_frame, Accepts, put,
}
use taproot_assets_rest_gate.Mailbox.Stream.{
  Subscription, Stream, Poll, Turn, continues, breaks, fails, count_sent, poll_all, start, finish,
}

pub data MailboxState : Type 0 where
  awaiting_init challenge_sent authenticated streaming closed : MailboxState

pub record WebSocketMailboxMessage : Type 0 where
  pub init : Option Value
  pub auth_sig : Option Value

-- What is the session's own, and the shared state.
pub record Session : Type 0 where
  pub state : MailboxState
  pub pending_init : Option Value
  pub sent : List Frame
  pub requests : List Request
  pub monitoring : Option MonitoringService
  pub shared : State

-- What one message meets: the surroundings of a validation, tapd's answers to it, the fresh
-- challenge, the answers to the polls after it, and the time at which the stream ends.
pub record Surroundings : Type 1 where
  pub world : World
  pub client : Client
  pub fresh : ChallengeData
  pub connection_id : Text
  pub accepts : Accepts
  pub polls : List Poll
  pub now : ℕ
  pub end : ℕ

-- `Ok(true)`, `Ok(false)`, an error, or a stream that has not ended after the polls.
pub data Handled : Type 0 where
  goes_on ends still_streaming : Session → Handled
  errs : Session → AppError → Handled

-- Serialize, count and send one response. The texts of the libraries' two errors are not modelled.
unfoldable pub respond : Surroundings → MailboxResponse → Session → Session × Result (Unit {0})
respond r response s = elim (r.world.serde.to_string (response_value response)) [
  | none ↦ (s, err (serialization_error (ascii "response")))
  | some t ↦ (
    record s {
      sent = put (text_frame t) s.sent;
      monitoring = count_sent r.connection_id t r.now s.monitoring;
    },
    if r.accepts (length s.sent) then ok tt else err (web_socket_error (ascii "Closed")),
  )
]

abbrev pub challenge_response : Value → MailboxResponse
challenge_response v = record {
  challenge = some v;
  auth_success = none;
  messages = none;
  eos = none;
}

abbrev pub auth_response : Bool → MailboxResponse
auth_response b = record { challenge = none; auth_success = some b; messages = none; eos = none }

abbrev pub handled : (Session → Handled) → Session × Result (Unit {0}) → Handled
handled next (s, ok u) = next s
handled next (s, err e) = errs s e

abbrev pub challenged : Surroundings → Session → Result Value → Handled
challenged r s (err e) = errs s e
challenged r s (ok challenge) = handled goes_on (respond r (challenge_response challenge) s)

-- The state changes before the challenge is made, which may fail.
unfoldable pub on_init : Surroundings → Value → Session → Handled
on_init r init s =
    let (table, made) = generate_challenge r.fresh r.now s.shared.challenges in
    challenged r
      (record s {
        state = challenge_sent;
        pending_init = some init;
        shared = record s.shared { challenges = table };
      })
      made

abbrev pub receiver_of : Value → Option Text
receiver_of init = at (ascii "receiver_id") init and_then as_str

abbrev pub name_receiver : Text → Option Text → Option MonitoringService → Option MonitoringService
name_receiver connection_id (some receiver_id) (some mon) =
    some (update_receiver_id connection_id receiver_id mon)
name_receiver connection_id _ monitoring = monitoring

abbrev pub auth_failed : Text → Option MonitoringService → Option MonitoringService
auth_failed connection_id none = none
auth_failed connection_id (some mon) = some (record_auth_failure connection_id mon)

abbrev pub streamed : Stream → Session → Session
streamed t s = record s {
  sent = t.sent;
  requests = s.requests ++ t.requests;
  monitoring = t.monitoring;
}

abbrev pub finished : Session → Stream × Result (Unit {0}) → Handled
finished s (t, ok u) = ends (record (streamed t s) { state = closed })
finished s (t, err e) = errs (streamed t s) e

abbrev pub end_of : Surroundings → Subscription → Session → Turn → Handled
end_of r sub s (continues t) = still_streaming (streamed t s)
end_of r sub s (fails t e) = errs (streamed t s) e
end_of r sub s (breaks t) = finished s (finish sub r.end t)

abbrev pub subscription : Surroundings → Value → Value → Subscription
subscription r init auth_sig = record {
  http = r.world.backend.http;
  serde = r.world.serde;
  base_url = r.world.backend.base_url;
  macaroon_hex = r.world.backend.macaroon_hex;
  init = init;
  auth_sig = auth_sig;
  connection_id = r.connection_id;
  accepts = r.accepts;
}

abbrev pub stream_to : Surroundings → Value → Value → Session → Option Text → Handled
stream_to r init auth_sig s none = errs s (invalid_input (ascii "Missing receiver_id"))
stream_to r init auth_sig s (some receiver_id) =
    let sub = subscription r init auth_sig in
    end_of r sub s (poll_all sub r.polls (start s.sent s.monitoring))

-- `stream_mailbox_messages`.
unfoldable pub stream_mailbox_messages : Surroundings → Value → Value → Session → Handled
stream_mailbox_messages r init auth_sig s =
    stream_to r init auth_sig (record s { state = streaming }) (receiver_of init)

abbrev pub after_response : Surroundings → Value → Value → Bool → Session → Handled
after_response r init auth_sig true s = stream_mailbox_messages r init auth_sig (record s {
  state = authenticated;
  monitoring = name_receiver r.connection_id (receiver_of init) s.monitoring;
})
after_response r init auth_sig false s =
    ends (record s { monitoring = auth_failed r.connection_id s.monitoring })

abbrev pub judged : Surroundings → Value → Value → Session → Result Bool → Handled
judged r init auth_sig s (err e) = errs s e
judged r init auth_sig s (ok auth_result) =
    handled (after_response r init auth_sig auth_result) (respond r (auth_response auth_result) s)

unfoldable pub on_auth_sig : Surroundings → Value → Value → Session → Handled
on_auth_sig r init auth_sig s =
    let (made, (shared, verdict)) =
      validate_authentication r.world init auth_sig s.shared r.client in
    judged r init auth_sig
      (record s { pending_init = none; requests = s.requests ++ made; shared = shared }) verdict

abbrev pub with_init : Surroundings → Session → Option Value → Handled
with_init r s none = errs s (invalid_input (ascii "Expected init message"))
with_init r s (some init) = on_init r init s

abbrev pub with_auth_sig : Surroundings → Session → Option Value → Option Value → Handled
with_auth_sig r s pending none = errs s (invalid_input (ascii "Expected auth signature"))
with_auth_sig r s none (some auth_sig) = errs s (invalid_input (ascii "No pending init message"))
with_auth_sig r s (some init) (some auth_sig) = on_auth_sig r init auth_sig s

abbrev pub in_state : MailboxState → Surroundings → WebSocketMailboxMessage → Session → Handled
in_state awaiting_init r msg s = with_init r s msg.init
in_state challenge_sent r msg s = with_auth_sig r s s.pending_init msg.auth_sig
in_state _ r msg s = errs s (invalid_input (ascii "Unexpected state"))

unfoldable pub handle_mailbox_message : Surroundings → WebSocketMailboxMessage → Session → Handled
handle_mailbox_message r msg s = in_state s.state r msg s
