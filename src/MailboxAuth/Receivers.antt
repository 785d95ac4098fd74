-- ===== src/MailboxAuth/Receivers.antt =====
-- Whether the identifier of a receiver, and the macaroon that is presented for it, are good: the
-- shape of a Taproot address, and what tapd answers. `bech32::decode` is a parameter.
use taproot_assets_rest_gate.Prelude.{
  ℕ, Text, ascii, Bool, true, false, not, ◌&&◌, ◌||◌, Option, none, some, List, [], ◌∷◌, ◌++◌,
  length, all, any, is_empty, is_lower, is_digit, is_alphanumeric, nat_eq, ltb, if◌then◌else◌,
  starts_with, ◌==◌, text_key, nat_key, is_some, ◌≡◌, refl, arith, inl, inr, Bool-cases,
}
use taproot_assets_rest_gate.Json.{
  Value, string, boolean, object, field, end, at, as_bool, ◌and_then◌, Serde,
}
use taproot_assets_rest_gate.Error.{Result, ok, Http}
use taproot_assets_rest_gate.Api.Upstream.{
  method_get, method_post, Request, Reply, Attempt, done, failed, Call, send, lift, json_result,
  ◌>>=◌,
}
use taproot_assets_rest_gate.Crypto.{Library, derive_public_key_from_receiver_id}
use taproot_assets_rest_gate.Database.{Database, Conditions, ReceiverInfo, get_receiver_info}

-- The human-readable part and the data of an address.
abbrev pub Bech32 : Type 0
Bech32 = Text → Option (Text × List ℕ)

abbrev pub bech32_charset : Text
bech32_charset = ascii "qpzry9x8gf2tvdw0s3jn54khce6mua7l"

unfoldable pub is_bech32_char : ℕ → Bool
is_bech32_char c = is_lower c && any (nat_eq c) bech32_charset

abbrev pub is_valid_bech32_chars : Text → Bool
is_valid_bech32_chars s = all is_bech32_char s

-- `&address[6..]`.
abbrev pub drop_prefix : ℕ → Text → Text
drop_prefix ℕ.zero s = s
drop_prefix (ℕ.suc n) [] = []
drop_prefix (ℕ.suc n) (c ∷ s) = drop_prefix n s

abbrev pub decoded_ok : Option (Text × List ℕ) → Bool
decoded_ok none = false
decoded_ok (some (hrp, payload)) = hrp == ascii "taprt" && not (is_empty payload)

-- The source wraps the answer in a `Result` that is never an error.
unfoldable pub validate_taproot_address_format : Bech32 → Text → Bool
validate_taproot_address_format decode address =
    if not (starts_with (ascii "taprt1") address)
    then false
    else if not (is_valid_bech32_chars (drop_prefix 6 address))
    then false
    else decoded_ok (decode address)

-- What the calls of tapd are made with.
pub record Backend : Type 0 where
  pub http : Http
  pub base_url : Text
  pub macaroon_hex : Text

abbrev pub info_request : Backend → Request
info_request b = record {
  method = method_get;
  url = b.base_url ++ ascii "/v1/taproot-assets/mailbox/info";
  macaroon = b.macaroon_hex;
  body = none;
}

abbrev pub test_receive : Text → Value
test_receive receiver_id = object (
    field (ascii "init")
      (object (
        field (ascii "receiver_id") (string receiver_id) (field (ascii "test") (boolean true) end)))
      (field (ascii "auth_sig") (object (field (ascii "test") (boolean true) end)) end))

abbrev pub receive_request : Backend → Text → Request
receive_request b receiver_id = record {
  method = method_post;
  url = b.base_url ++ ascii "/v1/taproot-assets/mailbox/receive";
  macaroon = b.macaroon_hex;
  body = some (test_receive receiver_id);
}

abbrev pub forbidden : ℕ
forbidden = 403

-- Only a 403 refuses: a timeout, or another failure, counts as permission.
abbrev pub may_receive : Attempt Reply → Bool
may_receive (done reply) = not (nat_eq reply.status forbidden)
may_receive (failed e) = true

abbrev pub is_disabled : Option Bool → Bool
is_disabled (some false) = true
is_disabled _ = false

abbrev pub mailbox_enabled : Value → Option Bool
mailbox_enabled info = at (ascii "mailbox_enabled") info and_then as_bool

unfoldable pub probe_receive : Backend → Text → Call Bool
probe_receive b receiver_id client =
    (receive_request b receiver_id ∷ [], ok (may_receive (client (receive_request b receiver_id))))

unfoldable pub validate_macaroon_permissions : Backend → Text → Call Bool
validate_macaroon_permissions b receiver_id = do
  info_response ← send (info_request b)
  if b.http.is_success info_response.status
      then (do
        info_json ← lift (json_result info_response.json)
        if is_disabled (mailbox_enabled info_json)
            then lift (ok false)
            else probe_receive b receiver_id)
      else lift (ok false)

abbrev pub is_id_char : ℕ → Bool
is_id_char c = is_alphanumeric c || nat_eq c b'_' || nat_eq c b'-' || nat_eq c b'.'

abbrev pub decode_request : Backend → Text → Request
decode_request b address = record {
  method = method_post;
  url = b.base_url ++ ascii "/v1/taproot-assets/addrs/decode";
  macaroon = b.macaroon_hex;
  body = some (object (field (ascii "addr") (string address) end));
}

abbrev pub is_decoded : Http → Attempt Reply → Bool
is_decoded h (done reply) = h.is_success reply.status
is_decoded h (failed e) = false

unfoldable pub ask_backend : Backend → Bech32 → Text → Call Bool
ask_backend b decode receiver_id client =
    let address = ascii "taprt1" ++ receiver_id in
    if validate_taproot_address_format decode address
    then (decode_request b address ∷ [], ok (is_decoded b.http (client (decode_request b address))))
    else ([], ok false)

abbrev pub lookup_receiver :
    Serde → Conditions → Text → Option Database → Result (Option ReceiverInfo)
lookup_receiver s c id none = ok none
lookup_receiver s c id (some db) = get_receiver_info s c id db

-- A receiver of the database is answered from there, whether active or not.
unfoldable pub known_or_ask : Backend → Bech32 → Text → Option ReceiverInfo → Call Bool
known_or_ask b decode receiver_id (some info) = lift (ok info.is_active)
known_or_ask b decode receiver_id none = ask_backend b decode receiver_id

unfoldable pub validate_receiver_id :
    Library → Serde → Bech32 → Backend → Conditions → Text → Option Database → Call Bool
validate_receiver_id lib s decode b c receiver_id database =
    if ltb (length receiver_id) 8
    then lift (ok false)
    else if not (is_valid_bech32_chars receiver_id) && not (all is_id_char receiver_id)
    then lift (ok false)
    else (do
      key ← lift (derive_public_key_from_receiver_id lib receiver_id)
      if is_some key then lift (ok true) else (do
        info ← lift (lookup_receiver s c receiver_id database)
        known_or_ask b decode receiver_id info))

lower-not_digit : (c : ℕ) → is_digit c ≡ true → is_lower c ≡ false
lower-not_digit c h = ground arith

bech32_char-not_digit : (c : ℕ) → is_digit c ≡ true → is_bech32_char c ≡ false
unfolding is_bech32_char
bech32_char-not_digit c h = rw (lower-not_digit c h) refl

and_false : (b : Bool) → (b && false) ≡ false
and_false b = ground arith

or_right : (a b : Bool) → a ≡ false → (a || b) ≡ true → b ≡ true
or_right a b e h = ground arith

digit-refused : (s : Text) → any is_digit s ≡ true → is_valid_bech32_chars s ≡ false
unfolding all any
digit-refused [] h = ground arith
digit-refused (c ∷ s) h = elim (Bool-cases (is_digit c)) [
  | inl e ↦ rw (bech32_char-not_digit c e) refl
  | inr e ↦ rw (digit-refused s (or_right _ _ e h)) (and_false (is_bech32_char c))
]

-- An address whose part after `taprt1` contains a digit is refused, whatever `bech32::decode` says
-- of it, although nine of the 32 characters of the alphabet of bech32 are digits.
pub digit_refused :
    (decode : Bech32) (payload : Text)
    → any is_digit payload ≡ true
    → validate_taproot_address_format decode (ascii "taprt1" ++ payload) ≡ false
unfolding validate_taproot_address_format
digit_refused decode payload h = rw (digit-refused payload h) (unfold starts_with in refl)
