-- ===== src/MailboxAuth/Flow.antt =====
-- `validate_authentication`, from the two messages of the receiver to its row in the database.
pub mod Accepted
pub mod Races
use taproot_assets_rest_gate.Prelude.{
  ℕ, Text, ascii, Bool, true, false, not, Option, none, some, List, [], ◌∷◌, ◌++◌, if◌then◌else◌,
}
use taproot_assets_rest_gate.Prelude.Int.{ℤ, pos, wrap_i64}
use taproot_assets_rest_gate.Json.{Value, string, object, field, end, at, as_str, ◌and_then◌, Serde}
use taproot_assets_rest_gate.Error.{Result, ok, err, AppError, invalid_input, ok_or}
use taproot_assets_rest_gate.Api.Upstream.{Request, Client, Call, lift, ◌>>=◌}
use taproot_assets_rest_gate.Crypto.{Library, derive_public_key_from_receiver_id}
use taproot_assets_rest_gate.Database.{Database, Conditions, ReceiverInfo, store_receiver_info}
use taproot_assets_rest_gate.MailboxAuth.Challenges.{
  ChallengeData, Challenges, challenge_message, find_challenge, consume_challenge, timestamps_ok,
}
use taproot_assets_rest_gate.MailboxAuth.Receivers.{
  Bech32, Backend, validate_macaroon_permissions, validate_receiver_id,
}
use taproot_assets_rest_gate.MailboxAuth.Credentials.{
  Credentials, read_credentials, is_plausible, verify_signature_with_receiver,
}

-- What surrounds a validation: the libraries, tapd, the conditions of the database, the monotonic
-- clock, and the system's time in seconds, which is missing before 1970.
pub record World : Type 1 where
  pub library : Library
  pub serde : Serde
  pub decode : Bech32
  pub backend : Backend
  pub conditions : Conditions
  pub now : ℕ
  pub unix_time : Option ℕ
  pub utc_timestamp : ℤ

pub record State : Type 0 where
  pub challenges : Challenges
  pub database : Option Database

-- `as_secs() as i64`.
abbrev pub current_time : World → Result ℤ
current_time w = elim w.unix_time [
  | none ↦ err (invalid_input (ascii "System time error"))
  | some secs ↦ ok (wrap_i64 (pos secs))
]

-- A test that ends the validation with `Ok(false)`.
infixr 4 ◌and_also◌
abbrev pub ◌and_also◌ : Call Bool → Call Bool → Call Bool
a and_also b = a >>= λ passed. if passed then b else lift (ok false)

abbrev pub check_times : World → Credentials → ChallengeData → Result Bool
check_times w cred c = elim (current_time w) [
  | err e ↦ err e
  | ok t ↦ ok (timestamps_ok t c.timestamp cred.timestamp)
]

abbrev pub check_signature : World → Credentials → ChallengeData → Option Database → Result Bool
check_signature w cred c database =
    verify_signature_with_receiver w.library w.serde w.conditions (challenge_message c)
      cred.signature cred.receiver_id database

-- What is checked between the two critical sections.
unfoldable pub judge : World → Credentials → ChallengeData → Option Database → Call Bool
judge w cred c database =
    lift (check_times w cred c)
    and_also lift (check_signature w cred c database)
    and_also validate_macaroon_permissions w.backend cred.receiver_id
    and_also validate_receiver_id w.library w.serde w.decode w.backend w.conditions cred.receiver_id
        database

abbrev pub key_or_unknown : Text → Option Text → Text
key_or_unknown receiver_id none = ascii "unknown_" ++ receiver_id
key_or_unknown receiver_id (some key) = key

abbrev pub presented_key : Library → Value → Text → Result Text
presented_key lib auth_sig receiver_id = elim (at (ascii "public_key") auth_sig and_then as_str) [
  | some key ↦ ok key
  | none ↦ elim (derive_public_key_from_receiver_id lib receiver_id) [
    | ok derived ↦ ok (key_or_unknown receiver_id derived)
    | err e ↦ err e
  ]
]

abbrev pub new_receiver : World → Value → Credentials → Text → ReceiverInfo
new_receiver w init cred public_key = record {
  receiver_id = cred.receiver_id;
  public_key = public_key;
  address = at (ascii "address") init and_then as_str;
  created_at = w.utc_timestamp;
  last_seen = w.utc_timestamp;
  is_active = true;
  metadata = some (
      object (
        field (ascii "auth_method") (string (ascii "mailbox"))
          (field (ascii "last_challenge_id") (string cred.challenge_id) end)));
}

-- A failure to store is only logged.
abbrev pub or_unchanged : Database → Result Database → Database
or_unchanged db (ok db') = db'
or_unchanged db (err e) = db

abbrev pub store_in : World → Value → Credentials → Option Database → Result Text → Option Database
store_in w init cred (some db) (ok key) =
    some
      (or_unchanged db (store_receiver_info w.serde w.conditions (new_receiver w init cred key) db))
store_in w init cred database key = database

abbrev pub verdict : Option Database → Result Text → Result Bool
verdict (some db) (err e) = err e
verdict _ _ = ok true

-- The second critical section, and the row of the receiver.
unfoldable pub settle : World → Value → Value → Credentials → State → State × Result Bool
settle w init auth_sig cred s =
    let key = presented_key w.library auth_sig cred.receiver_id in
    (
      record {
        challenges = consume_challenge cred.challenge_id s.challenges;
        database = store_in w init cred s.database key;
      },
      verdict s.database key,
    )

-- What follows the lookup of the challenge.
unfoldable pub resume :
    World
    → Value
    → Value
    → Credentials
    → ChallengeData
    → State
    → Client
    → List Request × (State × Result Bool)
resume w init auth_sig cred c s client =
    let (sent, judged) = judge w cred c s.database client in
    (
      sent,
      elim judged [
        | err e ↦ (s, err e)
        | ok false ↦ (s, ok false)
        | ok true ↦ settle w init auth_sig cred s
      ],
    )

unfoldable pub look_up :
    World → Value → Value → Credentials → State → Client → List Request × (State × Result Bool)
look_up w init auth_sig cred s client =
    let (left, found) = find_challenge w.now cred.challenge_id s.challenges in
    let s' : State = record s { challenges = left } in
    elim found [ err e ↦ ([], (s', err e)) | ok c ↦ resume w init auth_sig cred c s' client ]

unfoldable pub validate_authentication :
    World → Value → Value → State → Client → List Request × (State × Result Bool)
validate_authentication w init auth_sig s client = elim (read_credentials init auth_sig) [
  | err e ↦ ([], (s, err e))
  | ok cred ↦
      if is_plausible w.library cred
      then look_up w init auth_sig cred s client
      else ([], (s, ok false))
]
