-- ===== src/Proxy/Pending/Notes.antt =====
-- The notes of requests: what a tracker's entries say, and that the tracker's uses keep it.
use taproot_assets_rest_gate.Proxy.Pending.{
  Among, Among-append, Among-last, InFlight, Entries, Entries-remove, Entries-retain, Entries-mono,
}
use taproot_assets_rest_gate.Prelude.{
  ℕ, Text, Option, none, some, List, [], ◌∷◌, ◌++◌, insert, remove, text_key, ◌≡◌, inl, inr, ◌≢◌,
  refl, sym, subst, Bool-cases, Option-cases,
}
use taproot_assets_rest_gate.Json.{Serde}
use taproot_assets_rest_gate.Correlation.{
  CorrelationTracker, inject_correlation_id, is_request_message, extract_correlation_id,
  generate_correlation_id, add_pending_request, remove_pending_request, cleanup_expired_requests,
}
use taproot_assets_rest_gate.Proxy.{Moment, epoch_millis}
use taproot_assets_rest_gate.Proxy.Frames.{
  BackendMessage, outgoing, correlate_request, note_request, final_message, match_response, settle,
}
use taproot_assets_rest_gate.Proxy.Forward.{ClientTask, correlating, expire}

module _ (s : Serde) where
  abbrev pub WasSent : Text → Text → ClientTask → List BackendMessage → Type 0
  WasSent id original task log =
      (modified : Text) × (inject_correlation_id s original id ≡ some modified)
      × InFlight (BackendMessage.text modified) task log

  abbrev pub AllSent : Option CorrelationTracker → ClientTask → List BackendMessage → Type 0
  AllSent none task log = Unit
  AllSent (some c) task log =
      Entries (λ id r. WasSent id r.original_message task log) c.pending_requests

  pub AllSent-mono :
      (task task' : ClientTask) (log log' : List BackendMessage)
      → ((m : BackendMessage) → InFlight m task log → InFlight m task' log')
      → (c : Option CorrelationTracker) → AllSent c task log
      → AllSent c task' log'
  AllSent-mono task task' log log' f none h = tt
  AllSent-mono task task' log log' f (some c) h =
      Entries-mono (λ id r. WasSent id r.original_message task log)
        (λ id r. WasSent id r.original_message task' log') (λ id r w. (w.0, w.1, f _ w.2))
        c.pending_requests h

  -- A task that is not at a send has nothing in flight.
  pub only_log :
      (task task' : ClientTask) (log more : List BackendMessage)
      → ((n : BackendMessage) → task ≢ ClientTask.sending n)
      → (m : BackendMessage) → InFlight m task log
      → InFlight m task' (log ++ more)
  only_log task task' log more other m (inl h) = inl (Among-append m log more h)
  only_log task task' log more other m (inr e) = absurd (other m e)

  pub sent_on :
      (n : BackendMessage) (task' : ClientTask) (log : List BackendMessage) (m : BackendMessage)
      → InFlight m (ClientTask.sending n) log
      → InFlight m task' (log ++ n ∷ [])
  sent_on n task' log m (inl h) = inl (Among-append m log (n ∷ []) h)
  sent_on n task' log m (inr e) =
      let same : n ≡ m = cc in
      inl (subst (λ x. Among m (log ++ x ∷ [])) (sym same) (Among-last m log))

  pub kept :
      (task task' : ClientTask) (log : List BackendMessage)
      → ((n : BackendMessage) → task ≢ ClientTask.sending n)
      → (c : Option CorrelationTracker) → AllSent c task log
      → AllSent c task' log
  kept task task' log other c h = AllSent-mono task task' log log f c h
    where
      f : (m : BackendMessage) → InFlight m task log → InFlight m task' log
      f m (inl h) = inl h
      f m (inr e) = absurd (other m e)

  correlate_request-AllSent :
      (at : Moment) (t : Text) (c : CorrelationTracker) (log : List BackendMessage)
      → AllSent (some c) (correlating t) log
      → let (c', m) = correlate_request s at t c in
        AllSent (some c') (ClientTask.sending (BackendMessage.text m)) log
  unfolding correlate_request note_request generate_correlation_id add_pending_request insert
  correlate_request-AllSent at t c log h =
      let id : Text = (generate_correlation_id (epoch_millis at) c).1 in
      elim (Option-cases (inject_correlation_id s t id)) [
        | inl e ↦ rw e (kept (correlating t) _ log (λ n e. cc) (some c) h)
        | inr (m, e) ↦ rw e (
          (m, e, inr refl),
          Entries-remove
              (λ id r.
                WasSent id r.original_message (ClientTask.sending (BackendMessage.text m)) log)
              id c.pending_requests (kept (correlating t) _ log (λ n e. cc) (some c) h),
        )
      ]

  pub final_message-AllSent :
      (at : Moment) (t : Text) (c : Option CorrelationTracker) (log : List BackendMessage)
      → AllSent c (correlating t) log
      → let (c', m) = final_message s at t c in
        AllSent c' (ClientTask.sending (BackendMessage.text m)) log
  unfolding outgoing
  final_message-AllSent at t none log h = tt
  final_message-AllSent at t (some c) log h = elim (Bool-cases (is_request_message s t)) [
    | inl y ↦ rw y (correlate_request-AllSent at t c log h)
    | inr n ↦ rw n (kept (correlating t) _ log (λ n e. cc) (some c) h)
  ]

  pub match_response-AllSent :
      (t : Text) (c : Option CorrelationTracker) (task : ClientTask) (log : List BackendMessage)
      → AllSent c task log
      → AllSent (match_response s t c) task log
  unfolding remove_pending_request remove
  match_response-AllSent t none task log h = tt
  match_response-AllSent t (some c) task log h = settled (extract_correlation_id s t)
    where
      settled : (id : Option Text) → AllSent (some (settle id c)) task log
      settled none = h
      settled (some id) =
          Entries-remove (λ id r. WasSent id r.original_message task log) id c.pending_requests h

  pub expire-AllSent :
      (now : ℕ) (c : Option CorrelationTracker) (task : ClientTask) (log : List BackendMessage)
      → AllSent c task log
      → AllSent (expire now c) task log
  unfolding cleanup_expired_requests
  expire-AllSent now none task log h = tt
  expire-AllSent now (some c) task log h =
      Entries-retain (λ id r. WasSent id r.original_message task log) _ c.pending_requests h
