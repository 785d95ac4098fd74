-- ===== src/Mailbox/Stream.antt =====
-- `stream_mailbox_messages`: tapd is polled until the client goes, an error comes, or five minutes
-- pass without a message.
pub mod Ends
use taproot_assets_rest_gate.Prelude.{
  ℕ, ◌+◌, ◌%◌, ◌^◌, Text, ascii, Bool, true, false, not, ◌||◌, Option, none, some, List, [], ◌∷◌,
  ◌++◌, length, is_empty, if◌then◌else◌, leb, nat_eq, add_u64,
}
use taproot_assets_rest_gate.Prelude.Int.{pos}
use taproot_assets_rest_gate.Json
use taproot_assets_rest_gate.Json.{
  Value, string, boolean, integer, array, object, field, end, of_list, at, as_array, as_str,
  ◌and_then◌, Serde,
}
use taproot_assets_rest_gate.Error.{
  Result, ok, err, AppError, request_error, invalid_input, serialization_error, Http, display,
}
use taproot_assets_rest_gate.Api.Upstream.{
  Method, method_post, Request, Client, Call, send, lift, parse_upstream, ◌>>=◌,
}
use taproot_assets_rest_gate.Monitoring.{MonitoringService, record_message_sent}
use taproot_assets_rest_gate.Mailbox.{
  MailboxResponse, response_value, Frame, text_frame, ping, Accepts, put,
}

unfoldable pub receive_mail : Http → Text → Text → Value → Value → Call Value
receive_mail h base_url macaroon_hex init auth_sig = do
  response ← send (record {
    method = method_post;
    url = base_url ++ ascii "/v1/taproot-assets/mailbox/receive";
    macaroon = macaroon_hex;
    body = some (object (field (ascii "init") init (field (ascii "auth_sig") auth_sig end)));
  })
  lift (parse_upstream h response)

-- What the stream is started with.
pub record Subscription : Type 0 where
  pub http : Http
  pub serde : Serde
  pub base_url : Text
  pub macaroon_hex : Text
  pub init : Value
  pub auth_sig : Value
  pub connection_id : Text
  pub accepts : Accepts

-- The local variables of the loop, and what it has done: frames, requests and counts.
pub record Stream : Type 0 where
  pub sent : List Frame
  pub requests : List Request
  pub monitoring : Option MonitoringService
  pub message_count : ℕ
  pub empty_polls : ℕ
  pub last_message_id : Option Text

-- The answers that tapd gives at one turn, and the time.
pub record Poll : Type 0 where
  pub client : Client
  pub now : ℕ

-- How a turn of the loop ends: with the next turn, with `break`, or with an error.
pub data Turn : Type 0 where
  continues breaks : Stream → Turn
  fails : Stream → AppError → Turn

abbrev pub max_empty_polls : ℕ
max_empty_polls = 300

-- `after_message_id` is added where `init` is an object.
abbrev pub after_id : Option Text → Value → Value
after_id (some id) (object fields) =
    object (Json.insert (ascii "after_message_id") (string id) fields)
after_id _ init = init

abbrev pub listed : Value → Option (List Value) → List Value
listed answer (some messages) = messages
listed (array items) none = Json.items items
listed answer none = []

unfoldable pub messages_of : Value → List Value
messages_of answer = listed answer (at (ascii "messages") answer and_then as_array)

-- `messages.last()` with its `id`, or what was there.
abbrev pub last_id : Option Text → List Value → Option Text
last_id old [] = old
last_id old (m ∷ []) = elim (at (ascii "id") m and_then as_str) [ some id ↦ some id | none ↦ old ]
last_id old (m ∷ n ∷ ms) = last_id old (n ∷ ms)

abbrev pub count_sent : Text → Text → ℕ → Option MonitoringService → Option MonitoringService
count_sent connection_id t now none = none
count_sent connection_id t now (some mon) =
    some (record_message_sent connection_id (length t) now mon)

abbrev pub accepted : Subscription → Stream → Bool
accepted sub s = sub.accepts (length s.sent)

abbrev pub with_frame : Frame → Stream → Stream
with_frame frame s = record s { sent = put frame s.sent }

-- The ping at the end of a turn.
unfoldable pub end_turn : Subscription → Stream → Turn
end_turn sub s =
    if accepted sub s then continues (with_frame (ping []) s) else breaks (with_frame (ping []) s)

abbrev pub messages_value : List Value → Value
messages_value messages = response_value (record {
  challenge = none;
  auth_success = none;
  messages = some (array (of_list messages));
  eos = none;
})

-- The messages go to the client as the text that serde_json made of them.
unfoldable pub deliver : Subscription → ℕ → Stream → Option Text → Turn
deliver sub now s none = fails s (serialization_error (ascii "response"))
deliver sub now s (some t) =
    let s' : Stream = record s {
      sent = put (text_frame t) s.sent;
      monitoring = count_sent sub.connection_id t now s.monitoring;
    } in
    if accepted sub s then end_turn sub s' else breaks s'

unfoldable pub on_messages : Subscription → ℕ → List Value → Stream → Turn
on_messages sub now messages s =
    deliver sub now
      (record s {
        empty_polls = 0;
        message_count = add_u64 s.message_count (length messages);
        last_message_id = last_id s.last_message_id messages;
      })
      (sub.serde.to_string (messages_value messages))

-- After the heartbeat, if there was one.
unfoldable pub after_heartbeat : Subscription → Stream → Turn
after_heartbeat sub s = if leb max_empty_polls s.empty_polls then breaks s else end_turn sub s

-- A heartbeat every ten empty polls.
unfoldable pub on_empty : Subscription → Stream → Turn
on_empty sub s =
    let s' : Stream = record s { empty_polls = (s.empty_polls + 1) % 2 ^ 32 } in
    if nat_eq (s'.empty_polls % 10) 0
    then (if accepted sub s'
        then after_heartbeat sub (with_frame (ping (ascii "heartbeat")) s')
        else breaks (with_frame (ping (ascii "heartbeat")) s'))
    else after_heartbeat sub s'

abbrev pub is_network_error : AppError → Bool
is_network_error (request_error e) = e.is_timeout || e.is_connect
is_network_error e = false

abbrev pub error_value : AppError → Value
error_value e = response_value (record {
  challenge = none;
  auth_success = none;
  messages = none;
  eos = some (
      object (
        field (ascii "completed") (boolean false)
          (field (ascii "error") (string (display e)) end)));
})

unfoldable pub on_error : Subscription → AppError → Stream → Turn
on_error sub e s =
    if is_network_error e then breaks s else elim (sub.serde.to_string (error_value e)) [
      | none ↦ fails s e
      | some t ↦ fails (with_frame (text_frame t) s) e
    ]

abbrev pub ask : Subscription → Stream → Call Value
ask sub s =
    receive_mail sub.http sub.base_url sub.macaroon_hex (after_id s.last_message_id sub.init)
      sub.auth_sig

abbrev pub on_answer : Subscription → ℕ → List Value → Stream → Turn
on_answer sub now [] s = on_empty sub s
on_answer sub now (m ∷ ms) s = on_messages sub now (m ∷ ms) s

unfoldable pub answered : Subscription → ℕ → Stream → Result Value → Turn
answered sub now s (ok v) = on_answer sub now (messages_of v) s
answered sub now s (err e) = on_error sub e s

-- One turn of the loop.
unfoldable pub turn : Subscription → Poll → Stream → Turn
turn sub poll s =
    let (made, answer) = ask sub s poll.client in
    answered sub poll.now (record s { requests = s.requests ++ made }) answer

infixl 5 ◌and_next◌
abbrev pub ◌and_next◌ : Turn → (Stream → Turn) → Turn
continues s and_next f = f s
breaks s and_next f = breaks s
fails s e and_next f = fails s e

-- As many turns as there are polls: after them the loop goes on, or has ended.
unfoldable pub poll_all : Subscription → List Poll → Stream → Turn
poll_all sub [] s = continues s
poll_all sub (poll ∷ polls) s = turn sub poll s and_next λ s'. poll_all sub polls s'

abbrev pub start : List Frame → Option MonitoringService → Stream
start sent monitoring = record {
  sent = sent;
  requests = [];
  monitoring = monitoring;
  message_count = 0;
  empty_polls = 0;
  last_message_id = none;
}

-- The last message, with the count of messages, and as its duration the sum of the two counters.
unfoldable pub eos_value : Stream → Value
eos_value s = response_value (record {
  challenge = none;
  auth_success = none;
  messages = none;
  eos = some (
      object (
        field (ascii "completed") (boolean true) (
          field (ascii "duration_seconds")
            (integer (pos ((s.empty_polls + s.message_count % 2 ^ 32) % 2 ^ 32)))
            (field (ascii "message_count") (integer (pos s.message_count)) end))));
})

unfoldable pub finish : Subscription → ℕ → Stream → Stream × Result (Unit {0})
finish sub now s = elim (sub.serde.to_string (eos_value s)) [
  | none ↦ (s, err (serialization_error (ascii "response")))
  | some t ↦ (
    record s {
      sent = put (text_frame t) s.sent;
      monitoring = count_sent sub.connection_id t now s.monitoring;
    },
    ok tt,
  )
]
