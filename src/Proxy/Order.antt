-- ===== src/Proxy/Order.antt =====
-- However the tasks interleave, each direction hands on its messages in order, each of them once.
use taproot_assets_rest_gate.Prelude.{
  ℕ, Text, Bool, true, false, Option, none, List, [], ◌∷◌, ◌++◌, length, ltb, is_some, All, ◌≡◌,
  inl, inr, refl, arith, Bool-cases,
}
use taproot_assets_rest_gate.Json.{Serde}
use taproot_assets_rest_gate.Correlation.{CorrelationTracker}
use taproot_assets_rest_gate.Proxy.{WebSocketProxyHandler, Moment}
use taproot_assets_rest_gate.Proxy.Frames.{
  ClientMessage, BackendMessage, Event, received, failed, Outcome, sent, refused, timed_out,
  max_message_size,
}
use taproot_assets_rest_gate.Proxy.Forward.{
  ClientTask, BackendTask, Forwarding, begin, Turn, correlating, matching, relaying, closing,
  on_client_event, on_client_message, read_client, after_send, client_turn, Action, client, backend,
  tick, main, step, run, backend_turn, read_backend, tick_turn, main_turn, MainTask, selecting,
  returned, cleaned,
}
use taproot_assets_rest_gate.Proxy.Carried.{final_message-Carries}
use taproot_assets_rest_gate.Proxy.Spec.{for_backend, Carries, Leaves, Leaves-snoc}

-- What is still to be handed on, by where the task stands. `Stops` says of which rest the task may
-- end.
module _ (s : Serde) (Stops : List BackendMessage → Type 0) (all : List BackendMessage) where
  abbrev Handed : List BackendMessage → List BackendMessage → Type 0
  Handed log rest = Leaves (Carries s) log all rest

  abbrev pub Remains : ClientTask → List (Event ClientMessage) → List BackendMessage → Type 0
  Remains ClientTask.reading es log = Handed log (for_backend es)
  Remains (correlating t) es log = Handed log (BackendMessage.text t ∷ for_backend es)
  Remains (ClientTask.sending m) es log =
      (y : BackendMessage) × Carries s m y × Handed log (y ∷ for_backend es)
  Remains (relaying m) es log = Handed log (m ∷ for_backend es)
  Remains closing es log = Handed log (BackendMessage.close none ∷ [])
  Remains ClientTask.refreshing es log = Handed log (for_backend es)
  Remains ClientTask.ended es log = (rest : List BackendMessage) × Stops rest × Handed log rest

  abbrev pub Holds : Forwarding → Type 0
  Holds f = Remains f.client_task f.client_stream f.to_backend

  on_client_event-Remains :
      Stops []
      → (tracked : Bool) (e : Event ClientMessage) (es : List (Event ClientMessage))
      → (log : List BackendMessage) → Handed log (for_backend (e ∷ es))
      → Remains (on_client_event tracked e) es log
  unfolding on_client_event on_client_message for_backend
  on_client_event-Remains stop tracked failed es log h = ([], stop, h)
  on_client_event-Remains stop true (received (ClientMessage.text t)) es log h =
      elim (Bool-cases (ltb max_message_size (length t))) [
        | inl y ↦ rw y ([], stop, rw y at h)
        | inr n ↦ rw n (rw n at h)
      ]
  on_client_event-Remains stop false (received (ClientMessage.text t)) es log h =
      elim (Bool-cases (ltb max_message_size (length t))) [
        | inl y ↦ rw y ([], stop, rw y at h)
        | inr n ↦ rw n (BackendMessage.text t, inl refl, rw n at h)
      ]
  on_client_event-Remains stop tracked (received (ClientMessage.binary d)) es log h =
      elim (Bool-cases (ltb max_message_size (length d))) [
        | inl y ↦ rw y ([], stop, rw y at h)
        | inr n ↦ rw n (BackendMessage.binary d, inl refl, rw n at h)
      ]
  on_client_event-Remains stop tracked (received (ClientMessage.close reason)) es log h = h
  on_client_event-Remains stop tracked (received (ClientMessage.ping d)) es log h = h
  on_client_event-Remains stop tracked (received (ClientMessage.pong d)) es log h = h
  on_client_event-Remains stop tracked (received (ClientMessage.continuation d)) es log h = h
  on_client_event-Remains stop tracked (received ClientMessage.nop) es log h = h

  read_client-Holds :
      Stops []
      → (es : List (Event ClientMessage)) (turn : Turn) (f : Forwarding) → f.client_stream ≡ es
      → Handed f.to_backend (for_backend es)
      → Holds (read_client es turn f)
  unfolding read_client for_backend
  read_client-Holds stop [] turn f eq h = ([], stop, h)
  read_client-Holds stop (e ∷ es) turn f eq h =
      on_client_event-Remains stop (is_some f.tracker) e es f.to_backend h

  after_send-Holds :
      (o : Outcome)
      → (o ≡ timed_out → (rest : List BackendMessage) → Stops rest)
      → (f : Forwarding) → Handed f.to_backend (for_backend f.client_stream)
      → Holds (after_send o f)
  unfolding after_send
  after_send-Holds timed_out ends f h = (for_backend f.client_stream, ends refl _, h)
  after_send-Holds sent ends f h = h
  after_send-Holds refused ends f h = h

  client_turn-Holds :
      Stops []
      → (turn : Turn) → (turn.outcome ≡ timed_out → (rest : List BackendMessage) → Stops rest)
      → (task : ClientTask) (f : Forwarding) → f.client_task ≡ task
      → Remains task f.client_stream f.to_backend
      → Holds (client_turn s task turn f)
  unfolding client_turn
  client_turn-Holds stop turn ends ClientTask.reading f e h =
      read_client-Holds stop f.client_stream turn f refl h
  client_turn-Holds stop turn ends (correlating t) f e h =
      (BackendMessage.text t, final_message-Carries s turn.at t f.tracker, h)
  client_turn-Holds stop turn ends (ClientTask.sending m) f e h =
      after_send-Holds turn.outcome ends (record f { to_backend = f.to_backend ++ m ∷ [] })
        (Leaves-snoc (Carries s) f.to_backend all m h.0 _ h.2 h.1)
  client_turn-Holds stop turn ends (relaying m) f e h =
      Leaves-snoc (Carries s) f.to_backend all m m _ h (inl refl)
  client_turn-Holds stop turn ends closing f e h = (
    [],
    stop,
    Leaves-snoc (Carries s) f.to_backend all _ (BackendMessage.close none) [] h (inl refl),
  )
  client_turn-Holds stop turn ends ClientTask.refreshing f e h = h
  client_turn-Holds stop turn ends ClientTask.ended f e h = rw e h

  backend_turn-Holds :
      (turn : Turn) (task : BackendTask) (f : Forwarding)
      → Holds f
      → Holds (backend_turn s task turn f)
  unfolding backend_turn
  backend_turn-Holds turn BackendTask.reading f h = read_backend-Holds f.backend_stream turn f h
    where
      read_backend-Holds :
          (es : List (Event BackendMessage)) (turn : Turn) (f : Forwarding)
          → Holds f
          → Holds (read_backend es turn f)
      read_backend-Holds [] turn f h = h
      read_backend-Holds (failed ∷ es) turn f h = h
      read_backend-Holds (received m ∷ es) turn f h = h
  backend_turn-Holds turn (matching t) f h = h
  backend_turn-Holds turn (BackendTask.sending m) f h = h
  backend_turn-Holds turn BackendTask.refreshing f h = h
  backend_turn-Holds turn BackendTask.ended f h = h

  tick_turn-Holds :
      (t : MainTask) (at : Moment) (f : Forwarding) → Holds f → Holds (tick_turn t at f)
  unfolding tick_turn
  tick_turn-Holds selecting at f h = h
  tick_turn-Holds returned at f h = h
  tick_turn-Holds cleaned at f h = h

  main_turn-Holds : (t : MainTask) (f : Forwarding) → Holds f → Holds (main_turn t f)
  unfolding main_turn
  main_turn-Holds selecting f h = ground arith
  main_turn-Holds returned f h = h
  main_turn-Holds cleaned f h = h

  -- A send to tapd may time out only where the task may end with any rest.
  abbrev pub Fits : Action → Type 0
  Fits (client turn) = turn.outcome ≡ timed_out → (rest : List BackendMessage) → Stops rest
  Fits _ = Unit

  step-Holds : Stops [] → (a : Action) (f : Forwarding) → Fits a → Holds f → Holds (step s a f)
  unfolding step
  step-Holds stop (client turn) f fits h = client_turn-Holds stop turn fits f.client_task f refl h
  step-Holds stop (backend turn) f fits h = backend_turn-Holds turn f.backend_task f h
  step-Holds stop (tick at) f fits h = tick_turn-Holds f.main_task at f h
  step-Holds stop main f fits h = main_turn-Holds f.main_task f h

  pub run-Holds :
      Stops []
      → (actions : List Action) (f : Forwarding) → All Fits actions
      → Holds f
      → Holds (run s actions f)
  unfolding run
  run-Holds stop [] f fits h = h
  run-Holds stop (a ∷ actions) f fits h =
      run-Holds stop actions (step s a f) fits.1 (step-Holds stop a f fits.0 h)

  Remains-rest :
      (task : ClientTask) (es : List (Event ClientMessage)) (log : List BackendMessage)
      → Remains task es log
      → (rest : List BackendMessage) × Handed log rest
  Remains-rest ClientTask.reading es log h = (_, h)
  Remains-rest (correlating t) es log h = (_, h)
  Remains-rest (ClientTask.sending m) es log h = (_, h.2)
  Remains-rest (relaying m) es log h = (_, h)
  Remains-rest closing es log h = (_, h)
  Remains-rest ClientTask.refreshing es log h = (_, h)
  Remains-rest ClientTask.ended es log h = (h.0, h.2)

-- However the tasks are scheduled, and however sends end, what has been handed to the sink of tapd
-- stands for the first messages that the client's stream calls for, in order and one for one: each
-- as it was read, or a text with an injected identifier.
pub client_order :
    (s : Serde) (h : WebSocketProxyHandler) (session_id : Text) (backend_conn_id : ℕ)
    → (tracker : Option CorrelationTracker)
    → (from_client : List (Event ClientMessage)) (from_backend : List (Event BackendMessage))
    → (actions : List Action)
    → let f = run s actions (begin h session_id backend_conn_id tracker from_client from_backend) in
      (rest : List BackendMessage) × Leaves (Carries s) f.to_backend (for_backend from_client) rest
client_order s h session_id conn_id tracker from_client from_backend actions =
    let f = begin h session_id conn_id tracker from_client from_backend in
    let g = run s actions f in
    Remains-rest s Any all g.client_task g.client_stream g.to_backend
      (run-Holds s Any all tt actions f (fits actions) refl)
  where
    all : List BackendMessage
    all = for_backend from_client

    Any : List BackendMessage → Type 0
    Any rest = Unit

    fits_one : (a : Action) → Fits s Any all a
    fits_one (client turn) = λ o rest. tt
    fits_one (backend turn) = tt
    fits_one (tick at) = tt
    fits_one main = tt

    fits : (actions : List Action) → All (Fits s Any all) actions
    fits [] = tt
    fits (a ∷ actions) = (fits_one a, fits actions)
