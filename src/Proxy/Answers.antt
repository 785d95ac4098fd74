-- ===== src/Proxy/Answers.antt =====
-- What the client receives: the messages of tapd, unchanged and in order.
use taproot_assets_rest_gate.Prelude.{
  ℕ, Text, Bool, true, false, Option, List, [], ◌∷◌, ◌++◌, is_some, ◌≡◌, refl, arith, ◌∙◌, ap,
}
use taproot_assets_rest_gate.Json.{Serde}
use taproot_assets_rest_gate.Correlation.{CorrelationTracker}
use taproot_assets_rest_gate.Proxy.{WebSocketProxyHandler}
use taproot_assets_rest_gate.Proxy.Frames.{
  ClientMessage, BackendMessage, Event, received, failed, Outcome, sent, refused, timed_out,
}
use taproot_assets_rest_gate.Proxy.Forward.{
  ClientTask, BackendTask, Forwarding, begin, Turn, correlating, matching, relaying, closing,
  on_backend_message, read_client, after_send, client_turn, Action, client, backend, tick, main,
  step, run, backend_turn, read_backend, tick_turn, main_turn, after_answer,
}
use taproot_assets_rest_gate.Proxy.Spec.{for_client}

append_one {ℓ} :
    {A : Type ℓ} (xs : List A) (a : A) (rest : List A) → (xs ++ a ∷ []) ++ rest ≡ xs ++ a ∷ rest
append_one [] a rest = refl
append_one (x ∷ xs) a rest = ap (λ r. x ∷ r) (append_one xs a rest)

module _ (s : Serde) (all : List ClientMessage) where
  abbrev pub Remains : BackendTask → List (Event BackendMessage) → List ClientMessage → Type 0
  Remains BackendTask.reading es log = log ++ for_client es ≡ all
  Remains (matching t) es log = log ++ ClientMessage.text t ∷ for_client es ≡ all
  Remains (BackendTask.sending m) es log = log ++ m ∷ for_client es ≡ all
  Remains BackendTask.refreshing es log = log ++ for_client es ≡ all
  Remains BackendTask.ended es log = (rest : List ClientMessage) × (log ++ rest ≡ all)

  abbrev pub Holds : Forwarding → Type 0
  Holds f = Remains f.backend_task f.backend_stream f.to_client

  on_backend_message-Remains :
      (tracked : Bool) (m : BackendMessage) (es : List (Event BackendMessage))
      (log : List ClientMessage)
      → log ++ for_client (received m ∷ es) ≡ all
      → Remains (on_backend_message tracked m) es log
  unfolding on_backend_message for_client
  on_backend_message-Remains true (BackendMessage.text t) es log h = h
  on_backend_message-Remains false (BackendMessage.text t) es log h = h
  on_backend_message-Remains tracked (BackendMessage.binary d) es log h = h
  on_backend_message-Remains tracked (BackendMessage.ping d) es log h = h
  on_backend_message-Remains tracked (BackendMessage.pong d) es log h = h
  on_backend_message-Remains tracked (BackendMessage.frame d) es log h = h
  on_backend_message-Remains tracked (BackendMessage.close reason) es log h = ([], h)

  read_backend-Holds :
      (es : List (Event BackendMessage)) (turn : Turn) (f : Forwarding)
      → f.to_client ++ for_client es ≡ all
      → Holds (read_backend es turn f)
  unfolding read_backend
  read_backend-Holds [] turn f h = (_, h)
  read_backend-Holds (failed ∷ es) turn f h = (_, h)
  read_backend-Holds (received m ∷ es) turn f h =
      on_backend_message-Remains (is_some f.tracker) m es f.to_client h

  backend_turn-Holds :
      (turn : Turn) (task : BackendTask) (f : Forwarding)
      → f.backend_task ≡ task
      → Remains task f.backend_stream f.to_client
      → Holds (backend_turn s task turn f)
  unfolding backend_turn
  backend_turn-Holds turn BackendTask.reading f e h = read_backend-Holds f.backend_stream turn f h
  backend_turn-Holds turn (matching t) f e h = h
  backend_turn-Holds turn (BackendTask.sending m) f e h =
      after turn.outcome _ _ (append_one f.to_client m (for_client f.backend_stream) ∙ h)
    where
      after :
          (o : Outcome) (log : List ClientMessage) (es : List (Event BackendMessage))
          → log ++ for_client es ≡ all
          → Remains (after_answer o) es log
      after sent log es h = h
      after refused log es h = h
      after timed_out log es h = (_, h)
  backend_turn-Holds turn BackendTask.refreshing f e h = h
  backend_turn-Holds turn BackendTask.ended f e h = rw e h

  client_turn-Holds :
      (turn : Turn) (task : ClientTask) (f : Forwarding)
      → Holds f
      → Holds (client_turn s task turn f)
  unfolding client_turn read_client after_send
  client_turn-Holds turn ClientTask.reading f h = read_client-Holds f.client_stream f h
    where
      read_client-Holds :
          (es : List (Event ClientMessage)) (f : Forwarding)
          → Holds f
          → Holds (read_client es turn f)
      read_client-Holds [] f h = h
      read_client-Holds (e ∷ es) f h = h
  client_turn-Holds turn (correlating t) f h = h
  client_turn-Holds turn (ClientTask.sending m) f h = ground arith
  client_turn-Holds turn (relaying m) f h = h
  client_turn-Holds turn closing f h = h
  client_turn-Holds turn ClientTask.refreshing f h = h
  client_turn-Holds turn ClientTask.ended f h = h

  step-Holds : (a : Action) (f : Forwarding) → Holds f → Holds (step s a f)
  unfolding step tick_turn main_turn
  step-Holds (client turn) f h = client_turn-Holds turn f.client_task f h
  step-Holds (backend turn) f h = backend_turn-Holds turn f.backend_task f refl h
  step-Holds (tick at) f h = ground arith
  step-Holds main f h = ground arith

  run-Holds : (actions : List Action) (f : Forwarding) → Holds f → Holds (run s actions f)
  unfolding run
  run-Holds [] f h = h
  run-Holds (a ∷ actions) f h = run-Holds actions (step s a f) (step-Holds a f h)

  Remains-rest :
      (task : BackendTask) (es : List (Event BackendMessage)) (log : List ClientMessage)
      → Remains task es log
      → (rest : List ClientMessage) × (log ++ rest ≡ all)
  Remains-rest BackendTask.reading es log h = (_, h)
  Remains-rest (matching t) es log h = (_, h)
  Remains-rest (BackendTask.sending m) es log h = (_, h)
  Remains-rest BackendTask.refreshing es log h = (_, h)
  Remains-rest BackendTask.ended es log h = h

-- However the tasks are scheduled, and however sends end, what has been handed to the client's
-- session is an initial part of the messages that tapd's stream calls for, unchanged and in order.
pub answers_order :
    (s : Serde) (h : WebSocketProxyHandler) (session_id : Text) (backend_conn_id : ℕ)
    → (tracker : Option CorrelationTracker)
    → (from_client : List (Event ClientMessage)) (from_backend : List (Event BackendMessage))
    → (actions : List Action)
    → let f = run s actions (begin h session_id backend_conn_id tracker from_client from_backend) in
      (rest : List ClientMessage) × (f.to_client ++ rest ≡ for_client from_backend)
answers_order s h session_id conn_id tracker from_client from_backend actions =
    let f = begin h session_id conn_id tracker from_client from_backend in
    let g = run s actions f in
    Remains-rest s (for_client from_backend) g.backend_task g.backend_stream g.to_client
      (run-Holds s (for_client from_backend) actions f refl)
