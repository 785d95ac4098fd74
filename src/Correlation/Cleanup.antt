-- ===== src/Correlation/Cleanup.antt =====
-- The table of pending requests: what is added can be taken out once, and a cleanup takes out the
-- requests that waited for more than a minute, and no others.
use taproot_assets_rest_gate.Prelude.{
  ℕ, ◌+◌, ◌≤◌, ◌<◌, Text, Bool, true, not, none, some, [], ◌∷◌, Map, get, insert, remove, retain,
  values, length, All, IsMap, IsMap-insert, IsMap-remove, IsMap-retain, get-retain, get-insert,
  get-remove, if◌then◌else◌, secs, ◌==◌, text_key, text_eq_iff, ◌≡◌, ◌↔◌, refl, ap, ◌∙◌, arith, inl,
  inr, Option-cases, Bool-cases,
}
use taproot_assets_rest_gate.Correlation.{
  PendingRequest, CorrelationTracker, add_pending_request, remove_pending_request, is_expired,
  cleanup_expired_requests, pending_count,
}

-- A request that is added under an identifier is taken out by it once, with what was sent with it,
-- and the requests under other identifiers stay.
remove-add :
    (now : ℕ) (id message other : Text) (t : CorrelationTracker)
    → let (t', taken) = remove_pending_request id (add_pending_request now id message t) in
      (taken
        ≡ some (record {
          correlation_id = id;
          original_message = message;
          sent_at = now;
          client_session_id = t.session_id;
        }))
      × ((remove_pending_request id t').1 ≡ none)
      × (get other t'.pending_requests
          ≡ (if id == other then none else get other t.pending_requests))
unfolding remove_pending_request add_pending_request
remove-add now id message other t =
    let request : PendingRequest = record {
      correlation_id = id;
      original_message = message;
      sent_at = now;
      client_session_id = t.session_id;
    } in
    let m = insert id request t.pending_requests in
    let same = (text_eq_iff id id).1 refl in
    (
      get-insert id id request t.pending_requests
          ∙ ap (λ b. if b then some request else get id t.pending_requests) same,
      get-remove id id m ∙ ap (λ b. if b then none else get id m) same,
      ground (
        arith,
        get-remove id other m,
        get-insert id other request t.pending_requests,
        text_eq_iff id other,
      ),
    )

-- Every request stands under its own identifier, and no identifier occurs twice.
abbrev pub IsKeyed : Map Text PendingRequest → Type 0
IsKeyed [] = Unit
IsKeyed ((id, r) ∷ m) = (id ≡ r.correlation_id) × IsKeyed m

pub record IsTracked (t : CorrelationTracker) : Type 0 where
  pub distinct : IsMap t.pending_requests
  pub keyed : IsKeyed t.pending_requests

IsKeyed-remove : (id : Text) (m : Map Text PendingRequest) → IsKeyed m → IsKeyed (remove id m)
unfolding remove
IsKeyed-remove id [] k = tt
IsKeyed-remove id ((j, r) ∷ m) k = ground (arith, IsKeyed-remove id m k.1)

IsKeyed-retain :
    (p : Text → PendingRequest → Bool) (m : Map Text PendingRequest)
    → IsKeyed m
    → IsKeyed (retain p m)
unfolding retain
IsKeyed-retain p [] k = tt
IsKeyed-retain p ((j, r) ∷ m) k = ground (arith, IsKeyed-retain p m k.1)

-- Adding, taking out and cleaning up keep every request under its own identifier.
tracker-IsTracked :
    (now : ℕ) (id message : Text) (t : CorrelationTracker)
    → IsTracked t
    → IsTracked (add_pending_request now id message t)
      × IsTracked (remove_pending_request id t).0
      × IsTracked (cleanup_expired_requests now t).0
unfolding add_pending_request remove_pending_request cleanup_expired_requests insert
tracker-IsTracked now id message t h =
    let m = t.pending_requests in
    let request : PendingRequest = record {
      correlation_id = id;
      original_message = message;
      sent_at = now;
      client_session_id = t.session_id;
    } in
    (
      record {
        distinct = IsMap-insert id request m h.distinct;
        keyed = (refl, IsKeyed-remove id m h.keyed);
      },
      record { distinct = IsMap-remove id m h.distinct; keyed = IsKeyed-remove id m h.keyed },
      record { distinct = IsMap-retain _ m h.distinct; keyed = IsKeyed-retain _ m h.keyed },
    )

parts-length :
    (p : PendingRequest → Bool) (m : Map Text PendingRequest)
    → length (values (retain (λ id r. p r) m)) + length (retain (λ id r. not (p r)) m) ≡ length m
unfolding retain
parts-length p [] = refl
parts-length p ((id, r) ∷ m) = ground (arith, parts-length p m)

All-values-retain :
    (p : PendingRequest → Bool) (P : PendingRequest → Type 0) (m : Map Text PendingRequest)
    → All (λ r. p r ≡ true → P r) (values m)
    → All P (values (retain (λ id r. p r) m))
unfolding retain
All-values-retain p P [] h = tt
All-values-retain p P ((id, r) ∷ m) h = elim (Bool-cases (p r)) [
  | inl e ↦ rw e (h.0 e, All-values-retain p P m h.1)
  | inr e ↦ rw e (All-values-retain p P m h.1)
]

All-true :
    (P : PendingRequest → Type 0) (m : Map Text PendingRequest)
    → ((r : PendingRequest) → P r)
    → All P (values m)
All-true P [] h = tt
All-true P ((id, r) ∷ m) h = (h r, All-true P m h)

-- Where every request stands under its own identifier, and none twice, a cleanup keeps a request
-- exactly when it was sent at most 60 seconds ago. It returns the others: each that it returns is
-- older, and the numbers of those kept and returned make up all of them.
pub cleanup_splits :
    (now : ℕ) (id : Text) (r : PendingRequest) (t : CorrelationTracker)
    → IsTracked t
    → let (t', expired) = cleanup_expired_requests now t in
      ((get id t'.pending_requests ≡ some r)
        ↔ ((get id t.pending_requests ≡ some r) × (now ≤ r.sent_at + secs 60)))
      × All (λ old. old.sent_at + secs 60 < now) expired
      × (length expired + pending_count t' ≡ pending_count t)
unfolding cleanup_expired_requests
cleanup_splits now id r t h =
    let m = t.pending_requests in
    let kept = get-retain (λ id r. not (is_expired now r)) id m h.distinct in
    (
      elim (Option-cases (get id m)) [
        | inl e ↦ ground (arith, kept)
        | inr (x, e) ↦ ground (arith, kept)
      ],
      All-values-retain (is_expired now) _ m (All-true _ m (λ old e. ground arith)),
      parts-length (is_expired now) m,
    )
