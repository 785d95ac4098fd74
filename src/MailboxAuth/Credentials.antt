-- ===== src/MailboxAuth/Credentials.antt =====
-- What a receiver presents: the fields of `init` and `auth_sig`, and whose signature it must be.
use taproot_assets_rest_gate.Prelude.{
  Text, ascii, Bool, false, not, ◌&&◌, ◌||◌, Option, none, some, length, all, is_hex, is_empty, ltb,
}
use taproot_assets_rest_gate.Prelude.Int.{ℤ}
use taproot_assets_rest_gate.Json.{Value, at, as_str, as_i64, ◌and_then◌, Serde}
use taproot_assets_rest_gate.Error.{Result, ok, invalid_input, ok_or, ◌>>=◌}
use taproot_assets_rest_gate.Crypto.{
  Library, is_parsed, derive_public_key_from_receiver_id, verify_with_key,
}
use taproot_assets_rest_gate.Database.{Database, Conditions, ReceiverInfo}
use taproot_assets_rest_gate.MailboxAuth.Receivers.{lookup_receiver}

pub record Credentials : Type 0 where
  pub receiver_id : Text
  pub signature : Text
  pub challenge_id : Text
  pub timestamp : ℤ

abbrev pub text_field : Text → Value → Text → Result Text
text_field k v message = ok_or (at k v and_then as_str) (invalid_input message)

abbrev pub i64_field : Text → Value → Text → Result ℤ
i64_field k v message = ok_or (at k v and_then as_i64) (invalid_input message)

unfoldable pub read_credentials : Value → Value → Result Credentials
read_credentials init auth_sig = do
  receiver_id ← text_field (ascii "receiver_id") init (ascii "Missing receiver_id in init data")
  signature ← text_field (ascii "signature") auth_sig (ascii "Missing signature in auth_sig")
  challenge_id ←
      text_field (ascii "challenge_id") auth_sig (ascii "Missing challenge_id in auth_sig")
  timestamp ← i64_field (ascii "timestamp") auth_sig (ascii "Missing timestamp in auth_sig")
  ok (record {
    receiver_id = receiver_id;
    signature = signature;
    challenge_id = challenge_id;
    timestamp = timestamp;
  })

-- The three tests before the challenge is looked up.
unfoldable pub is_plausible : Library → Credentials → Bool
is_plausible lib c =
    not (is_empty c.signature || ltb (length c.signature) 32)
    && not (is_empty c.receiver_id)
    && (all is_hex c.signature || is_parsed (lib.base64_decode c.signature))

abbrev pub verify_stored : Library → Text → Text → Option ReceiverInfo → Result Bool
verify_stored lib message signature none = ok false
verify_stored lib message signature (some info) =
    verify_with_key lib message signature info.public_key

abbrev pub verify_derived :
    Library → Serde → Conditions → Text → Text → Text → Option Database → Option Text → Result Bool
verify_derived lib s c message signature receiver_id database (some public_key) =
    verify_with_key lib message signature public_key
verify_derived lib s c message signature receiver_id database none = do
  info ← lookup_receiver s c receiver_id database
  verify_stored lib message signature info

-- Under the key that the receiver's identifier is, or under the one that the database has for it.
unfoldable pub verify_signature_with_receiver :
    Library → Serde → Conditions → Text → Text → Text → Option Database → Result Bool
verify_signature_with_receiver lib s c message signature receiver_id database = do
  derived ← derive_public_key_from_receiver_id lib receiver_id
  verify_derived lib s c message signature receiver_id database derived
