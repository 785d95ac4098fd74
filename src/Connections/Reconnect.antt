-- ===== src/Connections/Reconnect.antt =====
-- Reconnection: three attempts, pauses between them, and what is tracked afterwards.
use taproot_assets_rest_gate.Prelude.{
  ℕ, zero, suc, ◌*◌, min, Text, Bool, true, false, ◌||◌, none, some, List, [], ◌∷◌, get, remove,
  IsMap, get-remove, length-insert_new, length-remove, if◌then◌else◌, secs, nat_key, ◌≡◌, refl, ap,
  arith, ◌∙◌, sym, inl, inr,
}
use taproot_assets_rest_gate.Error.{is_ok, Result-cases}
use taproot_assets_rest_gate.Connections.{
  BackendConnection, WebSocketConnectionManager, Network, Attempts, dial, track, tracked,
  connect_to_backend, remove_connection, retry, reconnect, connection_count, handshake,
  max_reconnect_delay,
}

-- The outcome of an attempt with `k` more to come.
abbrev pub opens : Network → Attempts → Text → WebSocketConnectionManager → ℕ → Bool
opens n attempts endpoint m k = is_ok (dial n (attempts k).1 endpoint m)

retry_last :
    (n : Network) (attempts : Attempts) (endpoint : Text) (delay : ℕ)
    (m : WebSocketConnectionManager)
    → let r = retry n attempts endpoint 0 delay m in
      (is_ok r.result ≡ opens n attempts endpoint m 0) × (r.sleeps ≡ [])
unfolding retry connect_to_backend
retry_last n attempts endpoint delay m = elim (Result-cases (dial n (attempts 0).1 endpoint m)) [
  | inl (u, e) ↦ ground arith
  | inr (x, e) ↦ ground arith
]

retry_next :
    (n : Network) (attempts : Attempts) (endpoint : Text) (more delay : ℕ)
    (m : WebSocketConnectionManager)
    → let r = retry n attempts endpoint (suc more) delay m in
      let next = retry n attempts endpoint more (min (delay * 2) max_reconnect_delay) m in
      let now = opens n attempts endpoint m (suc more) in
      (is_ok r.result ≡ (now || is_ok next.result))
      × (r.sleeps ≡ (if now then [] else delay ∷ next.sleeps))
unfolding retry connect_to_backend
retry_next n attempts endpoint more delay m =
    elim (Result-cases (dial n (attempts (suc more)).1 endpoint m)) [
      | inl (u, e) ↦ ground arith
      | inr (x, e) ↦ ground arith
    ]

abbrev three_sleeps : Bool → Bool → List ℕ
three_sleeps first second =
    if first then [] else if second then secs 1 ∷ [] else secs 1 ∷ secs 2 ∷ []

retry_three :
    (n : Network) (attempts : Attempts) (endpoint : Text) (m : WebSocketConnectionManager)
    → let r = retry n attempts endpoint 2 (secs 1) m in
      let opened = opens n attempts endpoint m in
      (is_ok r.result ≡ (opened 2 || (opened 1 || opened 0)))
      × (r.sleeps ≡ three_sleeps (opened 2) (opened 1))
retry_three n attempts endpoint m =
    let (r₂, s₂) = retry_next n attempts endpoint 1 (secs 1) m in
    let (r₁, s₁) = retry_next n attempts endpoint 0 (secs 2) m in
    let (r₀, s₀) = retry_last n attempts endpoint (secs 4) m in
    (
      r₂
          ∙ ap (λ b. opens n attempts endpoint m 2 || b)
              (r₁ ∙ ap (λ b. opens n attempts endpoint m 1 || b) r₀),
      s₂
          ∙ ap (λ l. if opens n attempts endpoint m 2 then [] else secs 1 ∷ l)
              (s₁ ∙ ap (λ l. if opens n attempts endpoint m 1 then [] else secs 2 ∷ l) s₀)
          ∙ pushed (opens n attempts endpoint m 2) (opens n attempts endpoint m 1),
    )
  where
    pushed :
        (a b : Bool)
        → (if a then [] else secs 1 ∷ (if b then [] else secs 2 ∷ [])) ≡ three_sleeps a b
    pushed true b = refl
    pushed false true = refl
    pushed false false = refl

opens-removed :
    (n : Network) (attempts : Attempts) (endpoint : Text) (id k : ℕ)
    (m : WebSocketConnectionManager)
    → opens n attempts endpoint (remove_connection id m).0 k ≡ opens n attempts endpoint m k
unfolding dial handshake remove_connection
opens-removed n attempts endpoint id k m = refl

reconnect_found :
    (n : Network) (attempts : Attempts) (id : ℕ) (c : BackendConnection)
    (m : WebSocketConnectionManager)
    → get id m.connections ≡ some c
    → reconnect n attempts id m ≡ retry n attempts c.endpoint 2 (secs 1) (remove_connection id m).0
unfolding reconnect
reconnect_found n attempts id c m h = rw (h, reconnect) refl

-- A reconnection of a tracked connection makes up to three attempts and ends with the first that
-- succeeds: it succeeds exactly when one of the three does, and pauses for one second after the first
-- failure and two after the second.
pub reconnect_attempts :
    (n : Network) (attempts : Attempts) (id : ℕ) (c : BackendConnection)
    (m : WebSocketConnectionManager)
    → get id m.connections ≡ some c
    → let r = reconnect n attempts id m in
      let opened = opens n attempts c.endpoint m in
      (is_ok r.result ≡ (opened 2 || (opened 1 || opened 0)))
      × (r.sleeps
          ≡ (if opened 2 then [] else if opened 1 then secs 1 ∷ [] else secs 1 ∷ secs 2 ∷ []))
reconnect_attempts n attempts id c m h =
    let three = retry_three n attempts c.endpoint (remove_connection id m).0 in
    let same : (k : ℕ)
        → opens n attempts c.endpoint (remove_connection id m).0 k
          ≡ opens n attempts c.endpoint m k =
      λ k. opens-removed n attempts c.endpoint id k m in
    let found = reconnect_found n attempts id c m h in
    (
      ap (λ r. is_ok r.result) found
          ∙ three.0
          ∙ ap (λ (f : ℕ → Bool). f 2 || (f 1 || f 0)) (λ i k. same k i),
      ap (λ r. r.sleeps) found
          ∙ three.1
          ∙ ap (λ (f : ℕ → Bool). three_sleeps (f 2) (f 1)) (λ i k. same k i),
    )

retry-count :
    (n : Network) (attempts : Attempts) (endpoint : Text) (more delay : ℕ)
    (m : WebSocketConnectionManager)
    → ((k : ℕ) → get (attempts k).0 m.connections ≡ none)
    → let r = retry n attempts endpoint more delay m in
      connection_count r.manager
      ≡ (if is_ok r.result then suc (connection_count m) else connection_count m)
unfolding retry connect_to_backend track
retry-count n attempts endpoint zero delay m fresh =
    elim (Result-cases (dial n (attempts 0).1 endpoint m)) [
      | inl (u, e) ↦ ground (
        arith,
        length-insert_new (attempts 0).0 (tracked (attempts 0).0 (attempts 0).1 endpoint)
            m.connections (fresh 0),
      )
      | inr (x, e) ↦ ground arith
    ]
retry-count n attempts endpoint (suc more) delay m fresh =
    let later =
      retry-count n attempts endpoint more (min (delay * 2) max_reconnect_delay) m fresh in
    elim (Result-cases (dial n (attempts (suc more)).1 endpoint m)) [
      | inl (u, e) ↦ ground (
        arith,
        length-insert_new (attempts (suc more)).0
            (tracked (attempts (suc more)).0 (attempts (suc more)).1 endpoint) m.connections
            (fresh (suc more)),
      )
      | inr (x, e) ↦ ground (arith, later)
    ]

-- After a reconnection of a tracked connection, in a table with distinct identifiers of which none
-- is one of the new ones, as many connections are tracked as before if it succeeds, and one less
-- if it fails.
count-reconnect :
    (n : Network) (attempts : Attempts) (id : ℕ) (c : BackendConnection)
    (m : WebSocketConnectionManager)
    → IsMap m.connections
    → ((k : ℕ) → get (attempts k).0 m.connections ≡ none)
    → get id m.connections ≡ some c
    → let r = reconnect n attempts id m in
      suc (connection_count r.manager)
      ≡ (if is_ok r.result then suc (connection_count m) else connection_count m)
unfolding remove_connection
count-reconnect n attempts id c m d fresh h =
    let m' = (remove_connection id m).0 in
    let absent : (k : ℕ) → get (attempts k).0 m'.connections ≡ none =
      λ k. still_absent (attempts k).0 (fresh k) in
    let counted = retry-count n attempts c.endpoint 2 (secs 1) m' absent in
    let one_less = length-remove id m.connections c d h in
    let found = reconnect_found n attempts id c m h in
    ap (λ r. suc (connection_count r.manager)) found
    ∙ ap suc counted
    ∙ shifted (is_ok (retry n attempts c.endpoint 2 (secs 1) m').result) one_less
    ∙ ap (λ r. if is_ok r.result then suc (connection_count m) else connection_count m) (sym found)
  where
    still_absent : (j : ℕ) → get j m.connections ≡ none → get j (remove id m.connections) ≡ none
    still_absent j e = ground (arith, get-remove id j m.connections)

    shifted :
        (b : Bool) {x y : ℕ} → suc x ≡ y → suc (if b then suc x else x) ≡ (if b then suc y else y)
    shifted b e = ground arith
