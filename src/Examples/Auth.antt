-- ===== src/Examples/Auth.antt =====
-- An authentication that succeeds, and what the theorems say of it and around it.
use taproot_assets_rest_gate.Prelude.{
  ◌+◌, ◌^◌, ◌<◌, ◌≡◌, ◌≢◌, ◌-◌, ◌⊎◌, ◌↔◌, Text, ascii, true, false, none, some, [], ◌∷◌, ◌++◌, get,
  retain, IsMap, any, all, secs, refl, arith, inr, text_eq, text_key,
}
use taproot_assets_rest_gate.Prelude.Int.{pos, negsuc, wrap_i64, sub_i64, abs_i64, ◌-ℤ◌}
use taproot_assets_rest_gate.Prelude.Decimal.{decimal, digits}
use taproot_assets_rest_gate.Json.{Value, string, integer, object, field, end, lookup}
use taproot_assets_rest_gate.Error.{ok}
use taproot_assets_rest_gate.Api.Upstream.{Client, done, send, ◌>>=◌}
use taproot_assets_rest_gate.Crypto.{
  derive_public_key_from_receiver_id, verify_with_key, verify_schnorr_signature, signature_bytes,
}
use taproot_assets_rest_gate.Crypto.Keys.{IsSigned, verify_with_key_iff}
use taproot_assets_rest_gate.Database.{Conditions}
use taproot_assets_rest_gate.MailboxAuth.Challenges.{
  ChallengeData, challenge_message, prune, find_challenge, consume_challenge, out_of_tolerance,
  timestamps_ok,
}
use taproot_assets_rest_gate.MailboxAuth.Challenges.Table.{find_challenge_iff}
use taproot_assets_rest_gate.MailboxAuth.Challenges.Tolerance.{
  out_of_tolerance_iff, WithinTolerance, IsApart,
}
use taproot_assets_rest_gate.MailboxAuth.Receivers.{
  validate_macaroon_permissions, probe_receive, validate_receiver_id, is_bech32_char, digit_refused,
  validate_taproot_address_format,
}
use taproot_assets_rest_gate.MailboxAuth.Credentials.{
  Credentials, read_credentials, is_plausible, verify_signature_with_receiver,
}
use taproot_assets_rest_gate.MailboxAuth.Flow.{
  World, State, judge, settle, resume, look_up, validate_authentication,
}
use taproot_assets_rest_gate.MailboxAuth.Flow.Accepted.{IsAnswered, authenticated}
use taproot_assets_rest_gate.MailboxAuth.Flow.Races.{replay_refused, race}
use taproot_assets_rest_gate.Examples.Parts.{http, serde, library}

abbrev key : Text
key = ascii "0123456789abcdef0123456789abcdef0123456789abcdef0123456789abcdef"

abbrev pub challenge : ChallengeData
challenge = record {
  challenge_id = ascii "c1";
  timestamp = pos 1000;
  nonce = ascii "n";
  issued_at = 0;
}

abbrev pub init : Value
init = object (field (ascii "receiver_id") (string key) end)

abbrev message : Text
message = ascii "Sign this challenge: c1-1000-n"

abbrev pub auth_sig : Value
auth_sig = object (
    field (ascii "signature") (string (key ++ message)) (
      field (ascii "challenge_id") (string (ascii "c1"))
        (field (ascii "timestamp") (integer (pos 1010)) end)))

abbrev conditions : Conditions
conditions = record {
  now = secs 10;
  sqlite_up = true;
  redis_receivers_up = true;
  redis_pubkeys_up = true;
  key_conflict_fails = true;
  sqlite_error = [];
}

abbrev pub world : World
world = record {
  library = library;
  serde = serde;
  decode = λ address. none;
  backend = record { http = http; base_url = ascii "https://tapd"; macaroon_hex = ascii "00" };
  conditions = conditions;
  now = secs 10;
  unix_time = some 1020;
  utc_timestamp = pos 1020;
}

abbrev pub client : Client
client request = done (record { status = 200; text = none; json = done (object end) })

abbrev pub state : State
state = record { challenges = (ascii "c1", challenge) ∷ []; database = none }

state-IsMap : IsMap state.challenges
unfolding get
state-IsMap = (refl, tt)

-- The message as it is written.
message_text : challenge_message challenge ≡ message
unfolding challenge_message decimal digits
message_text = refl

accepted : (validate_authentication world init auth_sig state client).1.1 ≡ ok true
unfolding validate_authentication read_credentials is_plausible look_up find_challenge prune retain
    get resume judge settle verify_signature_with_receiver derive_public_key_from_receiver_id
    verify_with_key verify_schnorr_signature signature_bytes validate_macaroon_permissions
    probe_receive validate_receiver_id ◌>>=◌ send lookup all any is_bech32_char text_eq
    timestamps_ok out_of_tolerance sub_i64 abs_i64 wrap_i64 ◌-ℤ◌ challenge_message decimal digits
    consume_challenge
accepted = refl

authenticated_example :
    (cred : Credentials) × (c : ChallengeData) × (read_credentials init auth_sig ≡ ok cred)
    × (get cred.challenge_id state.challenges ≡ some c)
    × (secs 10 < c.issued_at + secs 300)
    × IsAnswered world cred c none
    × (get cred.challenge_id
          (validate_authentication world init auth_sig state client).1.0.challenges
        ≡ none)
authenticated_example = authenticated world init auth_sig state client state-IsMap accepted

-- A minute later the same `auth_sig` comes with another `init`.
replay_refused_example :
    (validate_authentication
      (record world { now = secs 70 })
      (object end)
      auth_sig
      (validate_authentication world init auth_sig state client).1.0
      client).1.1
    ≢ ok true
replay_refused_example =
    replay_refused world (record world { now = secs 70 }) init (object end) auth_sig state client
      client state-IsMap accepted

abbrev credentials : Credentials
credentials = record {
  receiver_id = key;
  signature = key ++ message;
  challenge_id = ascii "c1";
  timestamp = pos 1010;
}

challenge_found : (find_challenge (secs 10) (ascii "c1") state.challenges).1 ≡ ok challenge
unfolding find_challenge prune retain get text_eq
challenge_found = refl

race_example :
    let first = (find_challenge (secs 10) (ascii "c1") state.challenges).0 in
    let second = (find_challenge (secs 10) (ascii "c1") first).0 in
    ((find_challenge (secs 10) (ascii "c1") first).1 ≡ ok challenge)
    × ((resume world init auth_sig credentials challenge
          (record { challenges = consume_challenge (ascii "c1") second; database = none })
          client).1.1
        ≡ (look_up world init auth_sig credentials
            (record { challenges = first; database = none })
            client).1.1)
race_example =
    race world world init auth_sig credentials challenge state client state-IsMap (omega arith)
      challenge_found

find_challenge_iff_example :
    ((find_challenge (secs 10) (ascii "c1") state.challenges).1 ≡ ok challenge)
    ↔ ((get (ascii "c1") state.challenges ≡ some challenge) × (secs 10 < 0 + secs 300))
find_challenge_iff_example =
    find_challenge_iff (secs 10) (ascii "c1") state.challenges challenge state-IsMap

-- The difference of 2^63 that passes.
out_of_tolerance_iff_example : (out_of_tolerance (pos 1020) (negsuc (2 ^ 63 - 1021)) ≡ false) ↔ (
    WithinTolerance (pos 1020) (negsuc (2 ^ 63 - 1021))
    ⊎ IsApart (pos 1020) (negsuc (2 ^ 63 - 1021)))
out_of_tolerance_iff_example =
    out_of_tolerance_iff 1020 (negsuc (2 ^ 63 - 1021)) (omega arith) (omega arith, omega arith)

overflow_passes : out_of_tolerance (pos 1020) (negsuc (2 ^ 63 - 1021)) ≡ false
overflow_passes =
    (out_of_tolerance_iff 1020 (negsuc (2 ^ 63 - 1021)) (omega arith) (omega arith, omega arith)).1
      (inr (omega arith))

digit_refused_example :
    validate_taproot_address_format
      (λ address. some (ascii "taprt", 1 ∷ []))
      (ascii "taprt1" ++ ascii "q9")
    ≡ false
unfolding any
digit_refused_example = digit_refused (λ address. some (ascii "taprt", 1 ∷ [])) (ascii "q9") refl

verify_with_key_iff_example :
    (verify_with_key library message (key ++ message) key ≡ ok true)
    ↔ IsSigned library message (key ++ message) key
verify_with_key_iff_example = verify_with_key_iff library message (key ++ message) key
