-- ===== src/Crypto.antt =====
-- src/crypto.rs: signatures of the mailbox's receivers. The curve, the hash and the two decoders
-- are those of libraries, taken as parameters.
pub mod Keys
use taproot_assets_rest_gate.Prelude.{
  ℕ, Text, ascii, Bool, true, false, ◌&&◌, ◌||◌, Option, none, some, ◌++◌, if◌then◌else◌, length,
  all, is_hex, ◌==◌, nat_key,
}
use taproot_assets_rest_gate.Error.{Result, ok, err, AppError, invalid_input, ◌>>=◌}

-- A library's parser: a value, or the text of its error.
pub data Parsed (A : Type 0) : Type 0 where
  parsed : A → Parsed A
  rejected : Text → Parsed A

-- secp256k1, sha2, hex and base64.
pub record Library : Type 1 where
  pub PublicKey : Type 0
  pub XOnlyPublicKey : Type 0
  pub Signature : Type 0
  pub SchnorrSignature : Type 0
  pub Message : Type 0
  pub public_key : Text → Parsed PublicKey
  pub x_only_public_key : Text → Parsed XOnlyPublicKey
  pub hex_decode : Text → Parsed Text
  pub base64_decode : Text → Parsed Text
  pub signature : Text → Parsed Signature
  pub schnorr_signature : Text → Parsed SchnorrSignature
  pub sha256 : Text → Text
  pub from_digest_slice : Text → Parsed Message
  pub from_digest : Text → Message
  pub verify_ecdsa : Message → Signature → PublicKey → Bool
  pub verify_schnorr : SchnorrSignature → Message → XOnlyPublicKey → Bool

-- `map_err(|e| AppError::InvalidInput(format!("…{e}")))`.
abbrev pub or_invalid : {A : Type 0} → Parsed A → Text → Result A
or_invalid (parsed a) m = ok a
or_invalid (rejected e) m = err (invalid_input (m ++ e))

abbrev pub is_parsed : {A : Type 0} → Parsed A → Bool
is_parsed (parsed a) = true
is_parsed (rejected e) = false

-- 128 hexadecimal digits are read as such, anything else as base64.
unfoldable pub signature_bytes : Library → Text → Result Text
signature_bytes lib s =
    if length s == 128 && all is_hex s
    then or_invalid (lib.hex_decode s) (ascii "Invalid hex signature: ")
    else or_invalid (lib.base64_decode s) (ascii "Invalid base64 signature: ")

unfoldable pub verify_signature : Library → Text → Text → Text → Result Bool
verify_signature lib message signature_str public_key_str = do
  key ← or_invalid (lib.public_key public_key_str) (ascii "Invalid public key format: ")
  bytes ← signature_bytes lib signature_str
  signature ← or_invalid (lib.signature bytes) (ascii "Invalid signature format: ")
  msg ← or_invalid (lib.from_digest_slice (lib.sha256 message)) (ascii "Failed to create message: ")
  ok (lib.verify_ecdsa msg signature key)

unfoldable pub verify_schnorr_signature : Library → Text → Text → Text → Result Bool
verify_schnorr_signature lib message signature_str public_key_str = do
  key ←
      or_invalid (lib.x_only_public_key public_key_str) (ascii "Invalid x-only public key format: ")
  bytes ← signature_bytes lib signature_str
  signature ← or_invalid (lib.schnorr_signature bytes) (ascii "Invalid Schnorr signature format: ")
  ok (lib.verify_schnorr signature (lib.from_digest (lib.sha256 message)) key)

unfoldable pub derive_public_key_from_receiver_id : Library → Text → Result (Option Text)
derive_public_key_from_receiver_id lib receiver_id =
    if (length receiver_id == 66 || length receiver_id == 130)
      && all is_hex receiver_id
      && is_parsed (lib.public_key receiver_id)
    then ok (some receiver_id)
    else if length receiver_id == 64
        && all is_hex receiver_id
        && is_parsed (lib.x_only_public_key receiver_id)
    then ok (some receiver_id)
    else ok none

-- The `if key.len() == 64` of src/api/mailbox_auth.rs.
unfoldable pub verify_with_key : Library → Text → Text → Text → Result Bool
verify_with_key lib message signature key =
    if length key == 64
    then verify_schnorr_signature lib message signature key
    else verify_signature lib message signature key
