-- ===== src/MailboxAuth/Flow/Accepted.antt =====
-- What a successful authentication rests on, and that its challenge is spent.
use taproot_assets_rest_gate.Prelude.{
  ℕ, ◌+◌, ◌<◌, Text, Bool, true, false, Option, none, some, get, IsMap, get-remove, secs, text_key,
  text_eq_iff, if◌then◌else◌, ◌≡◌, ◌⊎◌, inl, inr, refl, ap, arith, ◌∙◌, sym, Bool-cases,
}
use taproot_assets_rest_gate.Prelude.Int.{ℤ}
use taproot_assets_rest_gate.Json.{Value}
use taproot_assets_rest_gate.Error.{Result, ok, err, AppError, Result-cases}
use taproot_assets_rest_gate.Api.Upstream.{Client, Call, lift, ◌>>=◌}
use taproot_assets_rest_gate.Crypto.{derive_public_key_from_receiver_id, verify_with_key}
use taproot_assets_rest_gate.Crypto.Keys.{IsSigned, verify_with_key_iff}
use taproot_assets_rest_gate.Database.{Database, ReceiverInfo}
use taproot_assets_rest_gate.MailboxAuth.Challenges.{
  ChallengeData, Challenges, challenge_message, find_challenge, consume_challenge, timestamps_ok,
  prune,
}
use taproot_assets_rest_gate.MailboxAuth.Challenges.Table.{find_challenge_iff}
use taproot_assets_rest_gate.MailboxAuth.Receivers.{lookup_receiver}
use taproot_assets_rest_gate.MailboxAuth.Credentials.{
  Credentials, read_credentials, is_plausible, verify_signature_with_receiver, verify_stored,
}
use taproot_assets_rest_gate.MailboxAuth.Flow.{
  World, State, current_time, ◌and_also◌, check_times, check_signature, judge, settle, resume,
  look_up, validate_authentication,
}

-- The key under which a receiver's signature counts: its identifier, where that is a key, and
-- otherwise the one that the database has.
abbrev pub IsKeyOf : World → Text → Option Database → Text → Type 0
IsKeyOf w receiver_id database key =
    (derive_public_key_from_receiver_id w.library receiver_id ≡ ok (some key))
    ⊎ ((derive_public_key_from_receiver_id w.library receiver_id ≡ ok none)
        × ((info : ReceiverInfo) × (lookup_receiver w.serde w.conditions receiver_id database
              ≡ ok (some info))
            × (key ≡ info.public_key)))

-- The challenge is fresh, and the receiver has signed it in time under its key.
abbrev pub IsAnswered : World → Credentials → ChallengeData → Option Database → Type 0
IsAnswered w cred c database =
    ((t : ℤ) × (current_time w ≡ ok t) × (timestamps_ok t c.timestamp cred.timestamp ≡ true))
    × ((key : Text) × IsKeyOf w cred.receiver_id database key
        × IsSigned w.library (challenge_message c) cred.signature key)

bind_inv :
    (a : Call Bool) (f : Bool → Call Bool) (client : Client)
    → ((a >>= f) client).1 ≡ ok true
    → (b : Bool) × ((a client).1 ≡ ok b) × ((f b client).1 ≡ ok true)
unfolding ◌>>=◌
bind_inv a f client h = elim (Result-cases (a client).1) [
  | inl (b, e) ↦ (b, e, ground arith)
  | inr (x, e) ↦ absurd (ground arith)
]

and_also_inv :
    (a b : Call Bool) (client : Client)
    → ((a and_also b) client).1 ≡ ok true
    → ((a client).1 ≡ ok true) × ((b client).1 ≡ ok true)
and_also_inv a b client h =
    let (passed, e, k) = bind_inv a (λ passed. if passed then b else lift (ok false)) client h in
    go passed e k
  where
    go :
        (passed : Bool)
        → (a client).1 ≡ ok passed
        → ((if passed then b else lift (ok false)) client).1 ≡ ok true
        → ((a client).1 ≡ ok true) × ((b client).1 ≡ ok true)
    go true e k = (e, k)
    go false e k = absurd (ground arith)

check_times_inv :
    (w : World) (cred : Credentials) (c : ChallengeData)
    → check_times w cred c ≡ ok true
    → (t : ℤ) × (current_time w ≡ ok t) × (timestamps_ok t c.timestamp cred.timestamp ≡ true)
check_times_inv w cred c h = elim (Result-cases (current_time w)) [
  | inl (t, e) ↦ (t, e, ground arith)
  | inr (x, e) ↦ absurd (ground arith)
]

verify_stored_inv :
    (w : World) (message signature : Text) (found : Option ReceiverInfo)
    → verify_stored w.library message signature found ≡ ok true
    → (info : ReceiverInfo) × (found ≡ some info)
      × (verify_with_key w.library message signature info.public_key ≡ ok true)
verify_stored_inv w message signature none h = absurd (ground arith)
verify_stored_inv w message signature (some info) h = (info, refl, h)

signed_under_key :
    (w : World) (cred : Credentials) (c : ChallengeData) (database : Option Database)
    → check_signature w cred c database ≡ ok true
    → (key : Text) × IsKeyOf w cred.receiver_id database key
      × (verify_with_key w.library (challenge_message c) cred.signature key ≡ ok true)
unfolding verify_signature_with_receiver
signed_under_key w cred c database h =
    elim (Result-cases (derive_public_key_from_receiver_id w.library cred.receiver_id)) [
      | inr (x, e) ↦ absurd (ground arith)
      | inl (some key, e) ↦ (key, inl e, ground arith)
      | inl (none, e) ↦
          elim (Result-cases (lookup_receiver w.serde w.conditions cred.receiver_id database)) [
            | inr (x, l) ↦ absurd (ground arith)
            | inl (found, l) ↦
                let (info, p, v) =
                  verify_stored_inv w (challenge_message c) cred.signature found (ground arith) in
                (info.public_key, inr (e, (info, l ∙ ap ok p, refl)), v)
          ]
    ]

judge_inv :
    (w : World) (cred : Credentials) (c : ChallengeData) (database : Option Database)
    (client : Client)
    → (judge w cred c database client).1 ≡ ok true
    → IsAnswered w cred c database
unfolding judge
judge_inv w cred c database client h =
    let (times, rest) = and_also_inv (lift (check_times w cred c)) _ client h in
    let (signature, _) = and_also_inv (lift (check_signature w cred c database)) _ client rest in
    let (key, k, v) = signed_under_key w cred c database signature in
    (
      check_times_inv w cred c times,
      (key, k, (verify_with_key_iff w.library (challenge_message c) cred.signature key).0 v),
    )

not_refused : (x : AppError) → ¬ (err x ≡ ok true)
not_refused x p = ground arith

not_denied : ¬ (Result.ok false ≡ ok true)
not_denied p = ground arith

resume_inv :
    (w : World) (init auth_sig : Value) (cred : Credentials) (c : ChallengeData) (s : State)
    (client : Client)
    → (resume w init auth_sig cred c s client).1.1 ≡ ok true
    → ((judge w cred c s.database client).1 ≡ ok true)
      × ((resume w init auth_sig cred c s client).1.0.challenges
          ≡ consume_challenge cred.challenge_id s.challenges)
unfolding resume settle
resume_inv w init auth_sig cred c s client h =
    elim (Result-cases (judge w cred c s.database client).1) [
      | inr (x, e) ↦ absurd (not_refused x (ground arith))
      | inl (false, e) ↦ absurd (not_denied (ground arith))
      | inl (true, e) ↦ (e, ground arith)
    ]

pub look_up_inv :
    (w : World) (init auth_sig : Value) (cred : Credentials) (s : State) (client : Client)
    → (look_up w init auth_sig cred s client).1.1 ≡ ok true
    → (c : ChallengeData) × ((find_challenge w.now cred.challenge_id s.challenges).1 ≡ ok c)
      × ((judge w cred c s.database client).1 ≡ ok true)
      × ((look_up w init auth_sig cred s client).1.0.challenges
          ≡ consume_challenge cred.challenge_id
              (find_challenge w.now cred.challenge_id s.challenges).0)
unfolding look_up
look_up_inv w init auth_sig cred s client h =
    elim (Result-cases (find_challenge w.now cred.challenge_id s.challenges).1) [
      | inr (x, e) ↦ absurd (not_refused x (ground arith))
      | inl (c, e) ↦
          let left : State = record s {
            challenges = (find_challenge w.now cred.challenge_id s.challenges).0;
          } in
          let (j, t) = resume_inv w init auth_sig cred c left client (ground arith) in
          (c, e, j, ground arith)
    ]

pub validate_inv :
    (w : World) (init auth_sig : Value) (s : State) (client : Client)
    → (validate_authentication w init auth_sig s client).1.1 ≡ ok true
    → (cred : Credentials) × (read_credentials init auth_sig ≡ ok cred)
      × (validate_authentication w init auth_sig s client ≡ look_up w init auth_sig cred s client)
unfolding validate_authentication
validate_inv w init auth_sig s client h = elim (Result-cases (read_credentials init auth_sig)) [
  | inr (x, e) ↦ absurd (not_refused x (ground arith))
  | inl (cred, e) ↦ elim (Bool-cases (is_plausible w.library cred)) [
    | inl p ↦ (cred, e, ground arith)
    | inr p ↦ absurd (not_denied (ground arith))
  ]
]

found-consumed :
    (now : ℕ) (id : Text) (cs : Challenges)
    → get id (consume_challenge id (find_challenge now id cs).0) ≡ none
unfolding find_challenge consume_challenge
found-consumed now id cs = ground (arith, get-remove id id (prune now cs), text_eq_iff id id)

-- From a table of challenges with distinct identifiers, an authentication that returns `Ok(true)`
-- read its credentials from the two messages, and its challenge was in the table and less than 300
-- seconds old. The time that the receiver signed agrees with the clock and the challenge, and the
-- message of the challenge is signed under the key of the receiver. The challenge is no longer in
-- the table afterwards.
pub authenticated :
    (w : World) (init auth_sig : Value) (s : State) (client : Client)
    → IsMap s.challenges
    → (validate_authentication w init auth_sig s client).1.1 ≡ ok true
    → (cred : Credentials) × (c : ChallengeData) × (read_credentials init auth_sig ≡ ok cred)
      × (get cred.challenge_id s.challenges ≡ some c)
      × (w.now < c.issued_at + secs 300)
      × IsAnswered w cred c s.database
      × (get cred.challenge_id (validate_authentication w init auth_sig s client).1.0.challenges
          ≡ none)
authenticated w init auth_sig s client d h =
    let (cred, r, v) = validate_inv w init auth_sig s client h in
    let (c, f, j, t) =
      look_up_inv w init auth_sig cred s client (sym (ap (λ out. out.1.1) v) ∙ h) in
    let (stored, fresh) = (find_challenge_iff w.now cred.challenge_id s.challenges c d).0 f in
    (
      cred,
      c,
      r,
      stored,
      fresh,
      judge_inv w cred c s.database client j,
      ap (λ out. get cred.challenge_id out.1.0.challenges) v
          ∙ ap (get cred.challenge_id) t
          ∙ found-consumed w.now cred.challenge_id s.challenges,
    )
