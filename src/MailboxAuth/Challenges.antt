-- ===== src/MailboxAuth/Challenges.antt =====
-- The table ACTIVE_CHALLENGES and the tests on times. The lookup and the removal of a challenge are
-- two critical sections, with awaits between them.
pub mod Table
pub mod Tolerance
use taproot_assets_rest_gate.Prelude.{
  ℕ, suc, ◌+◌, ◌-◌, Text, ascii, Bool, true, false, not, ◌&&◌, ◌||◌, Option, none, some, List, [],
  ◌∷◌, ◌++◌, Map, get, insert, remove, retain, length, if◌then◌else◌, ltb, leb, as_secs, text_key,
}
use taproot_assets_rest_gate.Prelude.Int.{
  ℤ, pos, negsuc, sub_i64, abs_i64, ltb_ℤ, pos_part, neg_part,
}
use taproot_assets_rest_gate.Prelude.Decimal.{decimal}
use taproot_assets_rest_gate.Json.{Value, string, integer, object, field, end}
use taproot_assets_rest_gate.Error.{
  Result, ok, err, AppError, validation_error, invalid_input, ok_or, ◌>>=◌,
}

abbrev pub challenge_expiry_secs : ℕ
challenge_expiry_secs = 300

abbrev pub timestamp_tolerance_secs : ℤ
timestamp_tolerance_secs = pos 30

abbrev pub max_active_challenges : ℕ
max_active_challenges = 10000

pub record ChallengeData : Type 0 where
  pub challenge_id : Text
  pub timestamp : ℤ
  pub nonce : Text
  pub issued_at : ℕ

abbrev pub Challenges : Type 0
Challenges = Map Text ChallengeData

-- `issued_at.elapsed().as_secs() < CHALLENGE_EXPIRY_SECS`.
abbrev pub is_live : ℕ → ChallengeData → Bool
is_live now data' = ltb (as_secs (now - data'.issued_at)) challenge_expiry_secs

unfoldable pub prune : ℕ → Challenges → Challenges
prune now challenges = retain (λ id data'. is_live now data') challenges

-- `{}` of an `i64`.
abbrev pub decimal_i64 : ℤ → Text
decimal_i64 (pos n) = decimal n
decimal_i64 (negsuc n) = ascii "-" ++ decimal (suc n)

-- The text that the receiver signs.
unfoldable pub challenge_message : ChallengeData → Text
challenge_message c =
    ascii "Sign this challenge: "
    ++ (c.challenge_id ++ (ascii "-" ++ (decimal_i64 c.timestamp ++ (ascii "-" ++ c.nonce))))

unfoldable pub challenge_json : ChallengeData → Value
challenge_json c = object (
    field (ascii "challenge_id") (string c.challenge_id) (
      field (ascii "timestamp") (integer c.timestamp) (
        field (ascii "nonce") (string c.nonce)
          (field (ascii "message") (string (challenge_message c)) end))))

abbrev pub too_many : AppError
too_many = validation_error (ascii "Too many pending challenges. Please try again later.")

-- The identifier, the time and the nonce of `fresh` are those that the libraries give.
unfoldable pub generate_challenge : ChallengeData → ℕ → Challenges → Challenges × Result Value
generate_challenge fresh now challenges =
    let left = prune now challenges in
    if leb max_active_challenges (length left)
    then (left, err too_many)
    else (insert fresh.challenge_id fresh left, ok (challenge_json fresh))

abbrev pub invalid_challenge : AppError
invalid_challenge = invalid_input (ascii "Invalid or expired challenge")

-- The first critical section of `validate_authentication`: the challenge stays in the table.
unfoldable pub find_challenge : ℕ → Text → Challenges → Challenges × Result ChallengeData
find_challenge now id challenges =
    let left = prune now challenges in (left, ok_or (get id left) invalid_challenge)

-- The second one.
unfoldable pub consume_challenge : Text → Challenges → Challenges
consume_challenge id challenges = remove id challenges

-- `(a - b).abs() > TIMESTAMP_TOLERANCE_SECS`, as a release build computes it.
unfoldable pub out_of_tolerance : ℤ → ℤ → Bool
out_of_tolerance a b = ltb_ℤ timestamp_tolerance_secs (abs_i64 (sub_i64 a b))

unfoldable pub timestamps_ok : ℤ → ℤ → ℤ → Bool
timestamps_ok current_time challenge_time signed =
    not (out_of_tolerance current_time signed) && not (out_of_tolerance challenge_time signed)
