-- ===== src/Correlation/Unique.antt =====
-- A tracker never gives the same identifier twice, until its 64-bit counter has come round.
use taproot_assets_rest_gate.Prelude.{
  ℕ, suc, ◌+◌, ◌%◌, ◌^◌, ◌≤◌, ◌<◌, Text, List, [], ◌∷◌, ◌++◌, length, All, next_u64, ◌≡◌, ◌≢◌, refl,
  arith,
}
use taproot_assets_rest_gate.Prelude.Decimal.{decimal_injective}
use taproot_assets_rest_gate.Correlation.{
  CorrelationTracker, correlation_id_text, generate_correlation_id, new,
}

-- The identifiers of successive calls, at the given times.
unfoldable pub generated : List ℕ → CorrelationTracker → List Text
generated [] t = []
generated (time ∷ times) t =
    let (t', id) = generate_correlation_id time t in id ∷ generated times t'

abbrev pub Distinct : List Text → Type 0
Distinct [] = Unit
Distinct (x ∷ xs) = All (λ y. x ≢ y) xs × Distinct xs

append_cancel : (p s t : Text) → p ++ s ≡ p ++ t → s ≡ t
append_cancel [] s t h = h
append_cancel (c ∷ p) s t h = append_cancel p s t (tail h)
  where
    tail : {c : ℕ} {s t : Text} → c ∷ s ≡ c ∷ t → s ≡ t
    tail h = cc

correlation_id_text_injective :
    (session_id : Text) (m n s t : ℕ)
    → correlation_id_text session_id m s ≡ correlation_id_text session_id n t
    → m ≡ n
unfolding correlation_id_text
correlation_id_text_injective session_id m n s t h =
    let after_prefix = append_cancel (b'c' ∷ b'o' ∷ b'r' ∷ b'r' ∷ b'_' ∷ []) _ _ h in
    let after_session = append_cancel session_id _ _ after_prefix in
    decimal_injective m n _ _ (append_cancel (b'_' ∷ []) _ _ after_session)

-- A later identifier carries the counter as it stands `offset` or more calls later.
later :
    (times : List ℕ) (t : CorrelationTracker) (start : ℕ)
    → start < 2 ^ 64
    → (offset : ℕ) → 1 ≤ offset
    → offset + length times ≤ 2 ^ 64
    → t.next_correlation_id ≡ (start + offset) % 2 ^ 64
    → (s : ℕ) → All (λ id. correlation_id_text t.session_id start s ≢ id) (generated times t)
unfolding generated generate_correlation_id
later [] t start h offset p le e s = tt
later (time ∷ times) t start h offset p le e s = (
  (λ same.
      let eq = correlation_id_text_injective t.session_id start t.next_correlation_id s time same in
      omega (arith, eq, e, h, p, le)),
  later times (record t { next_correlation_id = next_u64 t.next_correlation_id }) start h
      (suc offset) (omega arith) (omega (arith, le)) (omega (arith, e)) s,
)

generated-Distinct_from :
    (times : List ℕ) (t : CorrelationTracker)
    → t.next_correlation_id < 2 ^ 64
    → length times ≤ 2 ^ 64
    → Distinct (generated times t)
unfolding generated generate_correlation_id
generated-Distinct_from [] t h le = tt
generated-Distinct_from (time ∷ times) t h le =
    let t' : CorrelationTracker = record t {
      next_correlation_id = next_u64 t.next_correlation_id;
    } in
    (
      later times t' t.next_correlation_id h 1 (omega arith) (omega (arith, le)) refl time,
      generated-Distinct_from times t' (omega arith) (omega (arith, le)),
    )

-- The first 2^64 identifiers of a new tracker are different, whatever the clock says.
pub generated-Distinct :
    (session_id : Text) (times : List ℕ)
    → length times ≤ 2 ^ 64
    → Distinct (generated times (new session_id))
generated-Distinct session_id times le =
    generated-Distinct_from times (new session_id) (omega arith) le
