-- ===== src/MailboxAuth/Flow/Races.antt =====
-- The same answer presented twice: one validation after the other, and two at once.
use taproot_assets_rest_gate.Prelude.{
  ℕ, ◌+◌, ◌<◌, Text, true, false, Option, none, some, get, IsMap, IsMap-remove, IsMap-retain,
  get-retain, secs, text_key, ◌≡◌, inl, inr, ap, arith, subst, ◌≢◌, ◌∙◌, sym,
}
use taproot_assets_rest_gate.Json.{Value}
use taproot_assets_rest_gate.Error.{ok, Result-cases}
use taproot_assets_rest_gate.Api.Upstream.{Client}
use taproot_assets_rest_gate.Database.{Database}
use taproot_assets_rest_gate.MailboxAuth.Challenges.{
  ChallengeData, Challenges, find_challenge, consume_challenge, prune, is_live,
}
use taproot_assets_rest_gate.MailboxAuth.Challenges.Table.{find_challenge_iff}
use taproot_assets_rest_gate.MailboxAuth.Flow.Accepted.{look_up_inv, validate_inv, authenticated}
use taproot_assets_rest_gate.MailboxAuth.Credentials.{Credentials, read_credentials}
use taproot_assets_rest_gate.MailboxAuth.Flow.{
  World, State, judge, settle, resume, look_up, validate_authentication,
}

look_up-IsMap :
    (w : World) (init auth_sig : Value) (cred : Credentials) (s : State) (client : Client)
    → IsMap s.challenges
    → (look_up w init auth_sig cred s client).1.1 ≡ ok true
    → IsMap (look_up w init auth_sig cred s client).1.0.challenges
unfolding find_challenge consume_challenge prune
look_up-IsMap w init auth_sig cred s client d h =
    let (c, f, j, t) = look_up_inv w init auth_sig cred s client h in
    subst IsMap (sym t) (IsMap-remove cred.challenge_id _ (IsMap-retain _ s.challenges d))

same_credentials :
    (init auth_sig init' : Value) (cred cred' : Credentials)
    → read_credentials init auth_sig ≡ ok cred
    → read_credentials init' auth_sig ≡ ok cred'
    → cred'.challenge_id ≡ cred.challenge_id
unfolding read_credentials
same_credentials init auth_sig init' cred cred' p q = ground arith

-- Once an `auth_sig` was accepted, from a table with distinct identifiers, it is not accepted
-- again in the state that is left, whatever the `init` beside it, the time, and the answers of
-- tapd.
pub replay_refused :
    (w w' : World) (init init' auth_sig : Value) (s : State) (client client' : Client)
    → IsMap s.challenges
    → (validate_authentication w init auth_sig s client).1.1 ≡ ok true
    → (validate_authentication w' init' auth_sig
        (validate_authentication w init auth_sig s client).1.0
        client').1.1
      ≢ ok true
replay_refused w w' init init' auth_sig s client client' d h again =
    let after = (validate_authentication w init auth_sig s client).1.0 in
    let (cred, r, v) = validate_inv w init auth_sig s client h in
    let d' : IsMap after.challenges =
      subst (λ out. IsMap out.1.0.challenges) (sym v)
        (look_up-IsMap w init auth_sig cred s client d (sym (ap (λ out. out.1.1) v) ∙ h)) in
    let (cred₁, c₁, r₁, _, _, _, gone) = authenticated w init auth_sig s client d h in
    let (cred₂, c₂, r₂, there, _, _, _) = authenticated w' init' auth_sig after client' d' again in
    let same = same_credentials init auth_sig init' cred₁ cred₂ r₁ r₂ in
    none-some (sym gone ∙ ap (λ id. get id after.challenges) (sym same) ∙ there)
  where
    none-some : {c : ChallengeData} → ¬ (none ≡ some c)
    none-some p = ground arith

-- While the removal of a challenge has not come, a second validation finds it too.
find-find :
    (now now' : ℕ) (id : Text) (cs : Challenges) (c : ChallengeData)
    → IsMap cs
    → now' < c.issued_at + secs 300
    → (find_challenge now id cs).1 ≡ ok c
    → (find_challenge now' id (find_challenge now id cs).0).1 ≡ ok c
unfolding find_challenge prune
find-find now now' id cs c d soon h =
    let left : Challenges = prune now cs in
    let (stored, fresh) = (find_challenge_iff now id cs c d).0 h in
    let kept : get id left ≡ some c = ground (arith, get-retain (λ i x. is_live now x) id cs d) in
    (find_challenge_iff now' id left c (IsMap-retain _ cs d)).1 (kept, soon)

resume-verdict :
    (w : World) (init auth_sig : Value) (cred : Credentials) (c : ChallengeData)
    (cs cs' : Challenges) (db : Option Database) (client : Client)
    → (resume w init auth_sig cred c (record { challenges = cs; database = db }) client).1.1
      ≡ (resume w init auth_sig cred c (record { challenges = cs'; database = db }) client).1.1
unfolding resume settle
resume-verdict w init auth_sig cred c cs cs' db client =
    elim (Result-cases (judge w cred c db client).1) [
      | inr (x, e) ↦ ground arith
      | inl (false, e) ↦ ground arith
      | inl (true, e) ↦ ground arith
    ]

look_up-found :
    (w : World) (init auth_sig : Value) (cred : Credentials) (c : ChallengeData) (s : State)
    (client : Client)
    → (find_challenge w.now cred.challenge_id s.challenges).1 ≡ ok c
    → look_up w init auth_sig cred s client
      ≡ resume w init auth_sig cred c
          (record s { challenges = (find_challenge w.now cred.challenge_id s.challenges).0 })
          client
unfolding look_up
look_up-found w init auth_sig cred c s client h = ground arith

-- Two validations of one challenge that both look it up, in a table with distinct identifiers,
-- before either removes it are judged alike: while the challenge is fresh, the second finds it in
-- the table that the first lookup left, and returns what it would have returned had the first not
-- removed the challenge in the meantime.
pub race :
    (w w' : World) (init auth_sig : Value) (cred : Credentials) (c : ChallengeData) (s : State)
    (client : Client)
    → IsMap s.challenges
    → w'.now < c.issued_at + secs 300
    → (find_challenge w.now cred.challenge_id s.challenges).1 ≡ ok c
    → let first = (find_challenge w.now cred.challenge_id s.challenges).0 in
      let second = (find_challenge w'.now cred.challenge_id first).0 in
      ((find_challenge w'.now cred.challenge_id first).1 ≡ ok c)
      × ((resume w' init auth_sig cred c
            (record s { challenges = consume_challenge cred.challenge_id second })
            client).1.1
          ≡ (look_up w' init auth_sig cred (record s { challenges = first }) client).1.1)
race w w' init auth_sig cred c s client d soon h =
    let first = (find_challenge w.now cred.challenge_id s.challenges).0 in
    let again = find-find w.now w'.now cred.challenge_id s.challenges c d soon h in
    (
      again,
      resume-verdict w' init auth_sig cred c _ _ s.database client
          ∙ sym (
              ap (λ out. out.1.1)
                (look_up-found w' init auth_sig cred c (record s { challenges = first }) client
                  again)),
    )
