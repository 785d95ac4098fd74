-- ===== src/Proxy/Ends.antt =====
-- The client's direction comes to its end, and without a timeout nothing is left behind.
use taproot_assets_rest_gate.Prelude.{
  ℕ, suc, ◌+◌, ◌-◌, ◌*◌, ◌≤◌, Text, Bool, Option, List, [], ◌∷◌, length, is_some, All, ◌≡◌, ◌≢◌,
  refl, arith, subst,
}
use taproot_assets_rest_gate.Json.{Serde}
use taproot_assets_rest_gate.Correlation.{CorrelationTracker}
use taproot_assets_rest_gate.Proxy.{WebSocketProxyHandler}
use taproot_assets_rest_gate.Proxy.Frames.{
  ClientMessage, BackendMessage, Event, received, failed, timed_out,
}
use taproot_assets_rest_gate.Proxy.Forward.{
  ClientTask, BackendTask, Forwarding, begin, Turn, correlating, matching, relaying, closing,
  on_client_event, on_client_message, read_client, after_send, client_turn, Action, client, backend,
  tick, main, step, run, backend_turn, read_backend, tick_turn, main_turn,
}
use taproot_assets_rest_gate.Proxy.Spec.{for_backend, Carries, Leaves}
use taproot_assets_rest_gate.Proxy.Order.{Remains, Fits, run-Holds}

-- Turns that the task may still take, with this many events to come.
abbrev pub budget : ClientTask → ℕ → ℕ
budget ClientTask.ended n = 0
budget ClientTask.reading n = 4 * n + 1
budget closing n = 4 * n + 1
budget ClientTask.refreshing n = 4 * n + 2
budget (relaying m) n = 4 * n + 2
budget (ClientTask.sending m) n = 4 * n + 3
budget (correlating t) n = 4 * n + 4

abbrev pub turns_left : Forwarding → ℕ
turns_left f = budget f.client_task (length f.client_stream)

-- How often a schedule runs the task.
abbrev pub client_turns : List Action → ℕ
client_turns [] = 0
client_turns (client turn ∷ actions) = suc (client_turns actions)
client_turns (_ ∷ actions) = client_turns actions

budget-on_client_event :
    (tracked : Bool) (e : Event ClientMessage) (n : ℕ)
    → budget (on_client_event tracked e) n ≤ 4 * n + 4
unfolding on_client_event on_client_message
budget-on_client_event tracked failed n = omega arith
budget-on_client_event tracked (received (ClientMessage.text t)) n = ground arith
budget-on_client_event tracked (received (ClientMessage.binary d)) n = ground arith
budget-on_client_event tracked (received (ClientMessage.close reason)) n = omega arith
budget-on_client_event tracked (received (ClientMessage.ping d)) n = omega arith
budget-on_client_event tracked (received (ClientMessage.pong d)) n = omega arith
budget-on_client_event tracked (received (ClientMessage.continuation d)) n = omega arith
budget-on_client_event tracked (received ClientMessage.nop) n = omega arith

module _ (s : Serde) where
  read_client-le :
      (es : List (Event ClientMessage)) (turn : Turn) (f : Forwarding)
      → f.client_stream ≡ es
      → turns_left (read_client es turn f) ≤ 4 * length es
  unfolding read_client
  read_client-le [] turn f e = omega arith
  read_client-le (e ∷ es) turn f eq =
      omega (arith, budget-on_client_event (is_some f.tracker) e (length es))

  client_turn-lt :
      (turn : Turn) (task : ClientTask) (f : Forwarding)
      → f.client_task ≡ task
      → turns_left (client_turn s task turn f) ≤ budget task (length f.client_stream) - 1
  unfolding client_turn after_send
  client_turn-lt turn ClientTask.reading f e =
      omega (arith, read_client-le f.client_stream turn f refl)
  client_turn-lt turn (correlating t) f e = omega arith
  client_turn-lt turn (ClientTask.sending m) f e = ground arith
  client_turn-lt turn (relaying m) f e = omega arith
  client_turn-lt turn closing f e = omega arith
  client_turn-lt turn ClientTask.refreshing f e = omega arith
  client_turn-lt turn ClientTask.ended f e = rw e (omega arith)

  backend_turn-eq :
      (turn : Turn) (task : BackendTask) (f : Forwarding)
      → turns_left (backend_turn s task turn f) ≡ turns_left f
  unfolding backend_turn
  backend_turn-eq turn BackendTask.reading f = read_backend-eq f.backend_stream f
    where
      read_backend-eq :
          (es : List (Event BackendMessage)) (f : Forwarding)
          → turns_left (read_backend es turn f) ≡ turns_left f
      read_backend-eq [] f = refl
      read_backend-eq (failed ∷ es) f = refl
      read_backend-eq (received m ∷ es) f = refl
  backend_turn-eq turn (matching t) f = refl
  backend_turn-eq turn (BackendTask.sending m) f = refl
  backend_turn-eq turn BackendTask.refreshing f = refl
  backend_turn-eq turn BackendTask.ended f = refl

  step-le :
      (a : Action) (f : Forwarding) → turns_left (step s a f) ≤ turns_left f - client_turns (a ∷ [])
  unfolding step tick_turn main_turn
  step-le (client turn) f = client_turn-lt turn f.client_task f refl
  step-le (backend turn) f = omega (arith, backend_turn-eq turn f.backend_task f)
  step-le (tick at) f = ground arith
  step-le main f = ground arith

  client_turns-cons :
      (a : Action) (actions : List Action)
      → client_turns (a ∷ actions) ≡ client_turns (a ∷ []) + client_turns actions
  client_turns-cons (client turn) actions = omega arith
  client_turns-cons (backend turn) actions = omega arith
  client_turns-cons (tick at) actions = omega arith
  client_turns-cons main actions = omega arith

  run-le :
      (actions : List Action) (f : Forwarding)
      → turns_left (run s actions f) ≤ turns_left f - client_turns actions
  unfolding run
  run-le [] f = omega arith
  run-le (a ∷ actions) f =
      omega (arith, step-le a f, run-le actions (step s a f), client_turns-cons a actions)

ended_of_budget : (task : ClientTask) (n : ℕ) → budget task n ≡ 0 → task ≡ ClientTask.ended
ended_of_budget ClientTask.ended n h = refl
ended_of_budget ClientTask.reading n h = absurd (omega arith)
ended_of_budget closing n h = absurd (omega arith)
ended_of_budget ClientTask.refreshing n h = absurd (omega arith)
ended_of_budget (relaying m) n h = absurd (omega arith)
ended_of_budget (ClientTask.sending m) n h = absurd (omega arith)
ended_of_budget (correlating t) n h = absurd (omega arith)

-- No send to tapd times out.
abbrev pub IsTimely : Action → Type 0
IsTimely (client turn) = turn.outcome ≢ timed_out
IsTimely _ = Unit

abbrev IsDone : List BackendMessage → Type 0
IsDone rest = rest ≡ []

module _ (s : Serde) (all : List BackendMessage) where
  Fits-of_timely : (a : Action) → IsTimely a → Fits s IsDone all a
  Fits-of_timely (client turn) h = λ o rest. absurd (h o)
  Fits-of_timely (backend turn) h = tt
  Fits-of_timely (tick at) h = tt
  Fits-of_timely main h = tt

  All-Fits : (actions : List Action) → All IsTimely actions → All (Fits s IsDone all) actions
  All-Fits [] h = tt
  All-Fits (a ∷ actions) h = (Fits-of_timely a h.0, All-Fits actions h.1)

  handed_all :
      (task : ClientTask) (es : List (Event ClientMessage)) (log : List BackendMessage)
      → task ≡ ClientTask.ended
      → Remains s IsDone all task es log
      → Leaves (Carries s) log all []
  handed_all ClientTask.ended es log e (rest, done, h) = subst (Leaves (Carries s) log all) done h
  handed_all task es log e h = cc

-- A schedule that runs the client's direction four times for each event and once more brings it to
-- its end. If no send to tapd timed out, then all that the client's stream calls for has been handed
-- to the sink of tapd, in order.
pub client_drains :
    (s : Serde) (h : WebSocketProxyHandler) (session_id : Text) (backend_conn_id : ℕ)
    → (tracker : Option CorrelationTracker)
    → (from_client : List (Event ClientMessage)) (from_backend : List (Event BackendMessage))
    → (actions : List Action) → 4 * length from_client + 1 ≤ client_turns actions
    → All IsTimely actions
    → let f = run s actions (begin h session_id backend_conn_id tracker from_client from_backend) in
      (f.client_task ≡ ClientTask.ended)
      × Leaves (Carries s) f.to_backend (for_backend from_client) []
client_drains s h session_id conn_id tracker from_client from_backend actions enough timely =
    let f = begin h session_id conn_id tracker from_client from_backend in
    let g = run s actions f in
    let all = for_backend from_client in
    let e =
      ended_of_budget g.client_task (length g.client_stream)
        (omega (arith, run-le s actions f, enough)) in
    (
      e,
      handed_all s all g.client_task g.client_stream g.to_backend e
          (run-Holds s IsDone all refl actions f (All-Fits s all actions timely) refl),
    )
