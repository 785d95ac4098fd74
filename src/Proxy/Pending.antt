-- ===== src/Proxy/Pending.antt =====
-- Requests that await an answer: predicates on their table, and messages on their way to tapd.
pub mod Notes
pub mod Sent
use taproot_assets_rest_gate.Prelude.{
  ℕ, Text, Bool, true, false, Option, none, some, List, [], ◌∷◌, ◌++◌, Map, get, insert, remove,
  retain, get-insert, get-remove, map_laws, is_some, if◌then◌else◌, text_key, ◌==◌, ==_iff, ◌≡◌,
  ◌⊎◌, inl, inr, ◌≢◌, refl, arith, sym, subst, Bool-cases, Option-cases,
}
use taproot_assets_rest_gate.Json.{Serde, SerdeLaws}
use taproot_assets_rest_gate.Correlation
use taproot_assets_rest_gate.Correlation.{
  CorrelationTracker, PendingRequest, inject_correlation_id, is_request_message,
  extract_correlation_id, generate_correlation_id, add_pending_request, remove_pending_request,
  cleanup_expired_requests,
}
use taproot_assets_rest_gate.Proxy.{WebSocketProxyHandler, Moment, epoch_millis}
use taproot_assets_rest_gate.Proxy.Frames.{
  ClientMessage, BackendMessage, Event, received, failed, Outcome, sent, refused, timed_out,
  outgoing, correlate_request, note_request, final_message, match_response, settle,
}
use taproot_assets_rest_gate.Proxy.Forward.{
  ClientTask, BackendTask, Forwarding, begin, Turn, correlating, matching, relaying, closing,
  on_client_event, read_client, after_send, client_turn, Action, client, backend, tick, main, step,
  run, backend_turn, read_backend, tick_turn, main_turn, hand_to_backend, expire, MainTask,
  selecting, returned, cleaned,
}
use taproot_assets_rest_gate.Correlation.Messages.{extract-inject}

abbrev pub Among : BackendMessage → List BackendMessage → Type 0
Among m [] = ⊥
Among m (x ∷ xs) = (x ≡ m) ⊎ Among m xs

pub Among-append :
    (m : BackendMessage) (xs ys : List BackendMessage) → Among m xs → Among m (xs ++ ys)
Among-append m [] ys h = elim h [ ]
Among-append m (x ∷ xs) ys (inl e) = inl e
Among-append m (x ∷ xs) ys (inr h) = inr (Among-append m xs ys h)

pub Among-last : (m : BackendMessage) (xs : List BackendMessage) → Among m (xs ++ m ∷ [])
Among-last m [] = inl refl
Among-last m (x ∷ xs) = inr (Among-last m xs)

-- The message was handed to the sink, or the task holds it ready to be sent.
abbrev pub InFlight : BackendMessage → ClientTask → List BackendMessage → Type 0
InFlight m task log = Among m log ⊎ (task ≡ ClientTask.sending m)

-- A predicate on every entry of a table of requests.
abbrev pub Entries : (Text → PendingRequest → Type 0) → Map Text PendingRequest → Type 0
Entries P [] = Unit
Entries P ((id, r) ∷ m) = P id r × Entries P m

pub Entries-remove :
    (P : Text → PendingRequest → Type 0) (id : Text) (m : Map Text PendingRequest)
    → Entries P m
    → Entries P (remove id m)
unfolding remove
Entries-remove P id [] h = tt
Entries-remove P id ((j, r) ∷ m) h = elim (Bool-cases (j == id)) [
  | inl y ↦ rw y (Entries-remove P id m h.1)
  | inr n ↦ rw n (h.0, Entries-remove P id m h.1)
]

pub Entries-retain :
    (P : Text → PendingRequest → Type 0) (p : Text → PendingRequest → Bool)
    → (m : Map Text PendingRequest) → Entries P m
    → Entries P (retain p m)
unfolding retain
Entries-retain P p [] h = tt
Entries-retain P p ((j, r) ∷ m) h = elim (Bool-cases (p j r)) [
  | inl y ↦ rw y (h.0, Entries-retain P p m h.1)
  | inr n ↦ rw n (Entries-retain P p m h.1)
]

pub Entries-mono :
    (P Q : Text → PendingRequest → Type 0)
    → ((id : Text) (r : PendingRequest) → P id r → Q id r)
    → (m : Map Text PendingRequest) → Entries P m
    → Entries Q m
Entries-mono P Q f [] h = tt
Entries-mono P Q f ((id, r) ∷ m) h = (f id r h.0, Entries-mono P Q f m h.1)

pub Entries-get :
    (P : Text → PendingRequest → Type 0) (id : Text) (r : PendingRequest)
    → (m : Map Text PendingRequest) → Entries P m
    → get id m ≡ some r
    → P id r
unfolding get
Entries-get P id r [] h e = cc
Entries-get P id r ((j, q) ∷ m) h e = elim (Bool-cases (j == id)) [
  | inl y ↦
      let same : q ≡ r = ground arith in
      subst (λ i. P i r) ((==_iff j id).0 y) (subst (P j) same h.0)
  | inr n ↦ Entries-get P id r m h.1 (rw n at e)
]
