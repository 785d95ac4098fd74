-- ===== src/Examples/Mailboxes.antt =====
-- A session of a mailbox, and its stream.
use taproot_assets_rest_gate.Prelude.{
  ℕ, ◌≡◌, ascii, true, none, some, List, [], ◌∷◌, ◌++◌, All, length, refl, arith, get, retain, all,
  any, text_eq,
}
use taproot_assets_rest_gate.Prelude.Int.{wrap_i64, sub_i64, abs_i64, ◌-ℤ◌}
use taproot_assets_rest_gate.Prelude.Decimal.{decimal, digits}
use taproot_assets_rest_gate.Json.{array, nil, lookup}
use taproot_assets_rest_gate.Api.Upstream.{Client, done, send, parse_upstream, ◌>>=◌}
use taproot_assets_rest_gate.Crypto.{
  derive_public_key_from_receiver_id, verify_with_key, verify_schnorr_signature, signature_bytes,
}
use taproot_assets_rest_gate.MailboxAuth.Challenges.{
  challenge_message, prune, find_challenge, consume_challenge, out_of_tolerance, timestamps_ok,
  generate_challenge,
}
use taproot_assets_rest_gate.MailboxAuth.Receivers.{
  validate_macaroon_permissions, probe_receive, validate_receiver_id, is_bech32_char,
}
use taproot_assets_rest_gate.MailboxAuth.Credentials.{
  read_credentials, is_plausible, verify_signature_with_receiver,
}
use taproot_assets_rest_gate.MailboxAuth.Flow.{
  judge, settle, resume, look_up, validate_authentication,
}
use taproot_assets_rest_gate.Mailbox.{ConnectionLimits, check_rate_limit}
use taproot_assets_rest_gate.Mailbox.Stream.{
  Subscription, Poll, receive_mail, messages_of, poll_all, start,
}
use taproot_assets_rest_gate.Mailbox.Stream.Ends.{IsIdle, is_over, poll_all-ends}
use taproot_assets_rest_gate.Mailbox.Session.{
  Session, Surroundings, WebSocketMailboxMessage, awaiting_init, challenge_sent, respond, on_init,
  on_auth_sig, stream_mailbox_messages, handle_mailbox_message, subscription,
}
use taproot_assets_rest_gate.Mailbox.Session.States.{
  is_open, session_of, continues_with, IsAuthenticatedBy, open-authenticated,
}
use taproot_assets_rest_gate.Mailbox.Session.Order.{IsChallenged, goes_on-awaiting_init}
use taproot_assets_rest_gate.Mailbox.Loop.{
  Arrival, Connection, text, run_loop, advance, counted, on_frame, on_text,
}
use taproot_assets_rest_gate.Mailbox.Loop.Guarded.{
  IsAnsweredBy, connection_of, opens, run_loop-IsAnsweredBy,
}
use taproot_assets_rest_gate.Examples.Auth.{world, init, auth_sig, state, client, challenge}

abbrev limits : ConnectionLimits
limits = record { message_count = 58; last_reset = 0 }

abbrev surroundings : Surroundings
surroundings = record {
  world = world;
  client = client;
  fresh = challenge;
  connection_id = ascii "c";
  accepts = λ k. true;
  polls = [];
  now = 0;
  end = 0;
}

abbrev waiting : Session
waiting = record {
  state = challenge_sent;
  pending_init = some init;
  sent = [];
  requests = [];
  monitoring = none;
  shared = state;
}

abbrev answer : WebSocketMailboxMessage
answer = record { init = none; auth_sig = some auth_sig }

opened : is_open (session_of (handle_mailbox_message surroundings answer waiting)).state ≡ true
unfolding handle_mailbox_message on_auth_sig respond stream_mailbox_messages poll_all
    validate_authentication read_credentials is_plausible look_up find_challenge prune retain get
    resume judge settle verify_signature_with_receiver derive_public_key_from_receiver_id
    verify_with_key verify_schnorr_signature signature_bytes validate_macaroon_permissions
    probe_receive validate_receiver_id ◌>>=◌ send lookup all any is_bech32_char text_eq
    timestamps_ok out_of_tolerance sub_i64 abs_i64 wrap_i64 ◌-ℤ◌ challenge_message decimal digits
    consume_challenge
opened = refl

open-authenticated_example :
    (challenge_sent ≡ challenge_sent) × IsAuthenticatedBy surroundings answer waiting
open-authenticated_example = open-authenticated surroundings answer waiting refl opened

abbrev fresh_session : Session
fresh_session = record waiting { state = awaiting_init; pending_init = none }

abbrev opening : WebSocketMailboxMessage
opening = record { init = some init; auth_sig = none }

abbrev after_opening : Session
after_opening = session_of (handle_mailbox_message surroundings opening fresh_session)

opening_goes_on :
    continues_with (handle_mailbox_message surroundings opening fresh_session) ≡ some after_opening
unfolding handle_mailbox_message on_init respond generate_challenge prune retain
opening_goes_on = refl

goes_on-awaiting_init_example :
    (awaiting_init ≡ awaiting_init)
    × (after_opening.state ≡ challenge_sent)
    × (after_opening.pending_init ≡ some init)
    × IsChallenged surroundings fresh_session after_opening
goes_on-awaiting_init_example =
    goes_on-awaiting_init surroundings opening fresh_session after_opening opening_goes_on

-- A tapd without messages.
abbrev quiet : Client
quiet request = done (record { status = 200; text = none; json = done (array nil) })

abbrev idle_poll : Poll
idle_poll = record { client = quiet; now = 0 }

abbrev to_receiver : Subscription
to_receiver = subscription surroundings init auth_sig

idle : IsIdle to_receiver idle_poll
unfolding receive_mail messages_of parse_upstream ◌>>=◌ send
idle s = (array nil, refl, refl)

abbrev many : ℕ → List Poll
many ℕ.zero = []
many (ℕ.suc n) = idle_poll ∷ many n

many-idle : (n : ℕ) → All (IsIdle to_receiver) (many n)
many-idle ℕ.zero = tt
many-idle (ℕ.suc n) = (idle, many-idle n)

length-many : (n : ℕ) → length (many n) ≡ n
length-many ℕ.zero = refl
length-many (ℕ.suc n) = omega (arith, length-many n)

poll_all-ends_example : is_over (poll_all to_receiver ([] ++ many 300) (start [] none)) ≡ true
poll_all-ends_example =
    poll_all-ends to_receiver [] (many 300) (start [] none) (omega arith) (many-idle 300)
      (omega (arith, length-many 300))

-- The two messages of a client, in two frames.
abbrev arrivals : List Arrival
arrivals =
    record {
      event = text (ascii "{init}");
      surroundings = surroundings;
      shared = state;
      parse = λ t. some opening;
    }
    ∷ record {
      event = text (ascii "{auth_sig}");
      surroundings = surroundings;
      shared = state;
      parse = λ t. some answer;
    }
    ∷ []

abbrev connected : Connection
connected = record {
  session = fresh_session;
  limits = record { message_count = 0; last_reset = 0 };
}

connection_opened : opens (connection_of (run_loop arrivals connected)) ≡ true
unfolding run_loop advance counted on_frame on_text check_rate_limit on_init generate_challenge
    handle_mailbox_message on_auth_sig respond stream_mailbox_messages poll_all
    validate_authentication read_credentials is_plausible look_up find_challenge prune retain get
    resume judge settle verify_signature_with_receiver derive_public_key_from_receiver_id
    verify_with_key verify_schnorr_signature signature_bytes validate_macaroon_permissions
    probe_receive validate_receiver_id ◌>>=◌ send lookup all any is_bech32_char text_eq
    timestamps_ok out_of_tolerance sub_i64 abs_i64 wrap_i64 ◌-ℤ◌ challenge_message decimal digits
    consume_challenge
connection_opened = refl

run_loop-IsAnsweredBy_example : IsAnsweredBy arrivals connected
run_loop-IsAnsweredBy_example = run_loop-IsAnsweredBy arrivals connected refl connection_opened
