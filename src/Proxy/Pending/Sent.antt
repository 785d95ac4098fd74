-- ===== src/Proxy/Pending/Sent.antt =====
-- Every request that awaits an answer went to tapd, or is about to, with its identifier.
use taproot_assets_rest_gate.Proxy.Pending.{InFlight, Entries-get}
use taproot_assets_rest_gate.Prelude.{
  ℕ, Text, none, some, List, [], ◌∷◌, ◌++◌, get, text_key, ◌≡◌, refl, arith, sym, subst,
}
use taproot_assets_rest_gate.Json.{Serde, SerdeLaws}
use taproot_assets_rest_gate.Correlation
use taproot_assets_rest_gate.Correlation.{
  CorrelationTracker, PendingRequest, inject_correlation_id, is_request_message,
  extract_correlation_id, generate_correlation_id, add_pending_request, remove_pending_request,
  cleanup_expired_requests,
}
use taproot_assets_rest_gate.Proxy.{WebSocketProxyHandler, Moment}
use taproot_assets_rest_gate.Proxy.Frames.{
  ClientMessage, BackendMessage, Event, received, failed, Outcome, sent, refused, timed_out,
}
use taproot_assets_rest_gate.Proxy.Forward.{
  ClientTask, BackendTask, Forwarding, begin, Turn, correlating, matching, relaying, closing,
  read_client, after_send, client_turn, Action, client, backend, tick, main, step, run,
  backend_turn, read_backend, tick_turn, main_turn, hand_to_backend, MainTask, selecting, returned,
  cleaned,
}
use taproot_assets_rest_gate.Correlation.Messages.{extract-inject}
use taproot_assets_rest_gate.Proxy.Pending.Notes.{
  WasSent, AllSent, AllSent-mono, only_log, sent_on, kept, final_message-AllSent,
  match_response-AllSent, expire-AllSent,
}

module _ (s : Serde) where
  abbrev pub Holds : Forwarding → Type 0
  Holds f = AllSent s f.tracker f.client_task f.to_backend

  read_client-Holds :
      (es : List (Event ClientMessage)) (turn : Turn) (f : Forwarding)
      → AllSent s f.tracker ClientTask.reading f.to_backend
      → Holds (read_client es turn f)
  unfolding read_client
  read_client-Holds [] turn f h = kept s ClientTask.reading _ f.to_backend (λ n e. cc) f.tracker h
  read_client-Holds (e ∷ es) turn f h =
      kept s ClientTask.reading _ f.to_backend (λ n e. cc) f.tracker h

  client_turn-Holds :
      (turn : Turn) (task : ClientTask) (f : Forwarding)
      → f.client_task ≡ task
      → AllSent s f.tracker task f.to_backend
      → Holds (client_turn s task turn f)
  unfolding client_turn
  client_turn-Holds turn ClientTask.reading f e h = read_client-Holds f.client_stream turn f h
  client_turn-Holds turn (correlating t) f e h =
      final_message-AllSent s turn.at t f.tracker f.to_backend h
  client_turn-Holds turn (ClientTask.sending m) f e h = after turn.outcome
    where
      gone : (task' : ClientTask) → AllSent s f.tracker task' (f.to_backend ++ m ∷ [])
      gone task' =
          AllSent-mono s (ClientTask.sending m) task' f.to_backend (f.to_backend ++ m ∷ [])
            (sent_on s m task' f.to_backend) f.tracker h

      after : (o : Outcome) → Holds (after_send o (hand_to_backend m f))
      after sent = gone ClientTask.refreshing
      after refused = gone ClientTask.refreshing
      after timed_out = gone ClientTask.ended
  client_turn-Holds turn (relaying m) f e h =
      AllSent-mono s (relaying m) _ f.to_backend _
        (only_log s (relaying m) _ f.to_backend (m ∷ []) (λ n e. cc)) f.tracker h
  client_turn-Holds turn closing f e h =
      AllSent-mono s closing _ f.to_backend _
        (only_log s closing _ f.to_backend (BackendMessage.close none ∷ []) (λ n e. cc)) f.tracker h
  client_turn-Holds turn ClientTask.refreshing f e h =
      kept s ClientTask.refreshing _ f.to_backend (λ n e. cc) f.tracker h
  client_turn-Holds turn ClientTask.ended f e h =
      subst (λ t. AllSent s f.tracker t f.to_backend) (sym e) h

  backend_turn-Holds :
      (turn : Turn) (task : BackendTask) (f : Forwarding)
      → Holds f
      → Holds (backend_turn s task turn f)
  unfolding backend_turn
  backend_turn-Holds turn BackendTask.reading f h = read_backend-Holds f.backend_stream f h
    where
      read_backend-Holds :
          (es : List (Event BackendMessage)) (f : Forwarding)
          → Holds f
          → Holds (read_backend es turn f)
      read_backend-Holds [] f h = h
      read_backend-Holds (failed ∷ es) f h = h
      read_backend-Holds (received m ∷ es) f h = h
  backend_turn-Holds turn (matching t) f h =
      match_response-AllSent s t f.tracker f.client_task f.to_backend h
  backend_turn-Holds turn (BackendTask.sending m) f h = h
  backend_turn-Holds turn BackendTask.refreshing f h = h
  backend_turn-Holds turn BackendTask.ended f h = h

  tick_turn-Holds :
      (t : MainTask) (at : Moment) (f : Forwarding) → Holds f → Holds (tick_turn t at f)
  unfolding tick_turn
  tick_turn-Holds selecting at f h =
      expire-AllSent s at.instant f.tracker f.client_task f.to_backend h
  tick_turn-Holds returned at f h = h
  tick_turn-Holds cleaned at f h = h

  main_turn-Holds : (t : MainTask) (f : Forwarding) → Holds f → Holds (main_turn t f)
  unfolding main_turn
  main_turn-Holds selecting f h = ground arith
  main_turn-Holds returned f h = h
  main_turn-Holds cleaned f h = h

  step-Holds : (a : Action) (f : Forwarding) → Holds f → Holds (step s a f)
  unfolding step
  step-Holds (client turn) f h = client_turn-Holds turn f.client_task f refl h
  step-Holds (backend turn) f h = backend_turn-Holds turn f.backend_task f h
  step-Holds (tick at) f h = tick_turn-Holds f.main_task at f h
  step-Holds main f h = main_turn-Holds f.main_task f h

  run-Holds : (actions : List Action) (f : Forwarding) → Holds f → Holds (run s actions f)
  unfolding run
  run-Holds [] f h = h
  run-Holds (a ∷ actions) f h = run-Holds actions (step s a f) (step-Holds a f h)

  pending_sent :
      (f : Forwarding) (c : CorrelationTracker) (id : Text) (r : PendingRequest)
      → Holds f
      → f.tracker ≡ some c
      → get id c.pending_requests ≡ some r
      → WasSent s id r.original_message f.client_task f.to_backend
  pending_sent f c id r h e found =
      Entries-get (λ id r. WasSent s id r.original_message f.client_task f.to_backend) id r
        c.pending_requests (subst (λ o. AllSent s o f.client_task f.to_backend) e h) found

-- However the tasks are scheduled, a request that awaits an answer in the session's tracker, new at
-- the start, was put together with its identifier into a text that was handed to the sink of tapd
-- or that the task is about to hand to it, and for a reader that reads back what the writer wrote
-- this identifier is the one that is read from the text.
pub pending-WasSent :
    (s : Serde) (laws : SerdeLaws s) (h : WebSocketProxyHandler) (session_id : Text)
    → (backend_conn_id : ℕ)
    → (from_client : List (Event ClientMessage)) (from_backend : List (Event BackendMessage))
    → (actions : List Action) (c : CorrelationTracker) (id : Text) (r : PendingRequest)
    → let f = run s actions (
        begin h session_id backend_conn_id
          (some (Correlation.new session_id))
          from_client
          from_backend) in
      f.tracker ≡ some c
      → get id c.pending_requests ≡ some r
      → (modified : Text) × (inject_correlation_id s r.original_message id ≡ some modified)
        × (extract_correlation_id s modified ≡ some id)
        × InFlight (BackendMessage.text modified) f.client_task f.to_backend
pending-WasSent s laws h session_id conn_id from_client from_backend actions c id r e found =
    let f =
      begin h session_id conn_id (some (Correlation.new session_id)) from_client from_backend in
    let w = pending_sent s (run s actions f) c id r (run-Holds s actions f tt) e found in
    (w.0, w.1, extract-inject s laws r.original_message id w.0 w.1, w.2)
