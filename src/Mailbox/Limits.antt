-- ===== src/Mailbox/Limits.antt =====
-- No client of a session sends more than sixty messages in a minute.
use taproot_assets_rest_gate.Prelude.{
  ℕ, suc, ◌+◌, ◌≤◌, ◌<◌, Bool, true, false, List, [], ◌∷◌, length, if◌then◌else◌, leb, secs, ◌≡◌,
  arith, Bool-cases, inl, inr,
}
use taproot_assets_rest_gate.Mailbox.{ConnectionLimits, check_rate_limit}

-- Whether all messages of a list of times pass; the session ends with the first that does not.
unfoldable pub all_pass : List ℕ → ConnectionLimits → Bool
all_pass [] limits = true
all_pass (now ∷ times) limits =
    let (limits', passed) = check_rate_limit now limits in
    let rest = all_pass times limits' in if passed then rest else false

abbrev pub IsWithinMinute : ConnectionLimits → List ℕ → Type 0
IsWithinMinute limits [] = Unit
IsWithinMinute limits (now ∷ times) =
    (now < limits.last_reset + secs 60) × IsWithinMinute limits times

within_same :
    (l l' : ConnectionLimits) (times : List ℕ)
    → l'.last_reset ≡ l.last_reset
    → IsWithinMinute l times
    → IsWithinMinute l' times
within_same l l' [] e w = tt
within_same l l' (now ∷ times) e w = (omega (arith, e, w.0), within_same l l' times e w.1)

-- Where at most sixty messages are counted, messages that come within a minute of the last reset
-- all pass exactly when they are, with those counted before, at most sixty.
all_pass_lem :
    (times : List ℕ) (limits : ConnectionLimits)
    → limits.message_count ≤ 60
    → IsWithinMinute limits times
    → all_pass times limits ≡ leb (limits.message_count + length times) 60
unfolding all_pass check_rate_limit
all_pass_lem [] limits few w = ground arith
all_pass_lem (now ∷ times) limits few w =
    let counted = (check_rate_limit now limits).0 in
    let same : counted.last_reset ≡ limits.last_reset = ground arith in
    let more : counted.message_count ≡ suc limits.message_count = ground arith in
    elim (Bool-cases (leb counted.message_count 60)) [
      | inl e ↦ ground (
        arith,
        more,
        all_pass_lem times counted (ground arith) (within_same limits counted times same w.1),
      )
      | inr e ↦ ground (arith, more)
    ]
