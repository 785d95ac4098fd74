-- ===== src/MailboxAuth/Challenges/Table.antt =====
-- The table of challenges is bounded, and what is found in it was issued in the last five minutes.
use taproot_assets_rest_gate.Prelude.{
  ℕ, ◌+◌, ◌≤◌, ◌<◌, Text, some, get, insert, remove, IsMap, IsMap-insert, IsMap-remove,
  IsMap-retain, get-remove, get-retain, length, length-insert_new, length-insert_old,
  length-retain-le, leb, secs, text_key, text_eq_iff, ◌≡◌, ◌↔◌, arith, inl, inr, Bool-cases,
  Option-cases,
}
use taproot_assets_rest_gate.Error.{ok, err}
use taproot_assets_rest_gate.MailboxAuth.Challenges.{
  ChallengeData, Challenges, is_live, prune, generate_challenge, find_challenge, consume_challenge,
  invalid_challenge, max_active_challenges,
}

pub record IsTable (challenges : Challenges) : Type 0 where
  pub distinct : IsMap challenges
  pub few : length challenges ≤ 10000

prune-IsTable : (now : ℕ) (cs : Challenges) → IsTable cs → IsTable (prune now cs)
unfolding prune
prune-IsTable now cs t = record {
  distinct = IsMap-retain _ cs t.distinct;
  few = omega (arith, length-retain-le (λ id c. is_live now c) cs, t.few);
}

insert-few :
    (c : ChallengeData) (cs : Challenges)
    → IsMap cs
    → length cs < 10000
    → length (insert c.challenge_id c cs) ≤ 10000
insert-few c cs d h = elim (Option-cases (get c.challenge_id cs)) [
  | inl e ↦ omega (arith, length-insert_new c.challenge_id c cs e)
  | inr (old, e) ↦ omega (arith, length-insert_old c.challenge_id c old cs d e)
]

-- A challenge that is issued, or refused because of the limit, keeps the table within 10,000.
generate-IsTable :
    (c : ChallengeData) (now : ℕ) (cs : Challenges)
    → IsTable cs
    → IsTable (generate_challenge c now cs).0
unfolding generate_challenge
generate-IsTable c now cs t =
    let p = prune-IsTable now cs t in
    elim (Bool-cases (leb max_active_challenges (length (prune now cs)))) [
      | inl full ↦ rw full p
      | inr room ↦ rw room (record {
        distinct = IsMap-insert c.challenge_id c (prune now cs) p.distinct;
        few = insert-few c (prune now cs) p.distinct (ground arith);
      })
    ]

pub find-IsTable :
    (now : ℕ) (id : Text) (cs : Challenges) → IsTable cs → IsTable (find_challenge now id cs).0
unfolding find_challenge
find-IsTable now id cs t = prune-IsTable now cs t

consume-IsMap : (id : Text) (cs : Challenges) → IsMap cs → IsMap (consume_challenge id cs)
unfolding consume_challenge
consume-IsMap id cs d = IsMap-remove id cs d

-- In a table with distinct identifiers, a lookup finds a challenge exactly when it is in the table
-- and less than 300 seconds old.
pub find_challenge_iff :
    (now : ℕ) (id : Text) (cs : Challenges) (c : ChallengeData)
    → IsMap cs
    → ((find_challenge now id cs).1 ≡ ok c)
      ↔ ((get id cs ≡ some c) × (now < c.issued_at + secs 300))
unfolding find_challenge prune
find_challenge_iff now id cs c d = elim (Option-cases (get id cs)) [
  | inl e ↦ ground (arith, get-retain (λ i x. is_live now x) id cs d)
  | inr (x, e) ↦ ground (arith, get-retain (λ i x. is_live now x) id cs d)
]

-- A challenge that was consumed is not found again, whatever the time, until it is issued anew.
pub find-consume :
    (now : ℕ) (id : Text) (cs : Challenges)
    → IsMap cs
    → (find_challenge now id (consume_challenge id cs)).1 ≡ err invalid_challenge
unfolding find_challenge prune consume_challenge
find-consume now id cs d = ground (
  arith,
  get-retain (λ i x. is_live now x) id (remove id cs) (IsMap-remove id cs d),
  get-remove id id cs,
  text_eq_iff id id,
)
