-- ===== src/Mailbox.antt =====
-- src/api/mailbox.rs: the mailbox's WebSocket sessions. Here are the limit of messages, the responses
-- and the frames.
pub mod Limits
pub mod Stream
pub mod Session
pub mod Loop
pub mod Mail
pub mod Entrance
use taproot_assets_rest_gate.Prelude.{
  ℕ, ◌+◌, ◌-◌, ◌%◌, ◌^◌, Text, ascii, Bool, true, false, Option, none, some, List, [], ◌∷◌, ◌++◌,
  length, if◌then◌else◌, leb, ltb, secs,
}
use taproot_assets_rest_gate.Json
use taproot_assets_rest_gate.Json.{
  Value, string, boolean, object, Fields, field, end, at, as_array, as_str, ◌and_then◌,
}

pub record ConnectionLimits : Type 0 where
  pub message_count : ℕ
  pub last_reset : ℕ

abbrev pub rate_limit_messages_per_minute : ℕ
rate_limit_messages_per_minute = 60

-- The counter starts anew when a minute has passed since it did so before.
abbrev pub reset_limits : ℕ → ConnectionLimits → ConnectionLimits
reset_limits now limits =
    if leb (secs 60) (now - limits.last_reset)
    then record { message_count = 0; last_reset = now }
    else limits

abbrev pub count_message : ConnectionLimits → ConnectionLimits
count_message limits = record limits { message_count = (limits.message_count + 1) % 2 ^ 32 }

unfoldable pub check_rate_limit : ℕ → ConnectionLimits → ConnectionLimits × Bool
check_rate_limit now limits =
    let counted = count_message (reset_limits now limits) in
    (counted, leb counted.message_count rate_limit_messages_per_minute)

pub record MailboxResponse : Type 0 where
  pub challenge : Option Value
  pub auth_success : Option Bool
  pub messages : Option Value
  pub eos : Option Value

-- `skip_serializing_if = "Option::is_none"`.
abbrev pub optional : Text → Option Value → Fields → Fields
optional k none r = r
optional k (some v) r = field k v r

abbrev pub boolean_value : Option Bool → Option Value
boolean_value none = none
boolean_value (some b) = some (boolean b)

unfoldable pub response_value : MailboxResponse → Value
response_value r = object (
    optional (ascii "challenge") r.challenge (
      optional (ascii "auth_success") (boolean_value r.auth_success)
        (optional (ascii "messages") r.messages (optional (ascii "eos") r.eos end))))

-- What is sent to the client of the session.
pub data Frame : Type 0 where
  text_frame : Text → Frame
  ping : Text → Frame
  pong : Text → Frame
  close : Text → Text → Frame

-- Whether the client still takes a frame, by the number of frames before it.
abbrev pub Accepts : Type 0
Accepts = ℕ → Bool

abbrev pub put : Frame → List Frame → List Frame
put frame sent = sent ++ frame ∷ []
