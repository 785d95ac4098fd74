-- ===== src/Proxy/Forward.antt =====
-- `forward_messages`: two tasks, one for each direction, the task that expires requests, and the
-- main task, which waits for either direction. A step runs one of them up to its next `await`.
use taproot_assets_rest_gate.Prelude.{
  ℕ, Bool, true, false, Option, none, some, List, [], ◌∷◌, ◌++◌, length, if◌then◌else◌, ltb,
  is_some, text_key, ◌||◌,
}
use taproot_assets_rest_gate.Json.{Serde}
use taproot_assets_rest_gate.Correlation.{CorrelationTracker, cleanup_expired_requests}
use taproot_assets_rest_gate.Connections.{update_activity}
use taproot_assets_rest_gate.Proxy.{
  Moment, epoch_secs, WebSocketProxyHandler, store_activity, cleanup_session,
}
use taproot_assets_rest_gate.Proxy.Frames.{
  ClientMessage, BackendMessage, Event, received, failed, Outcome, sent, refused, timed_out,
  max_message_size, final_message, match_response,
}
pub use taproot_assets_rest_gate.Proxy.State.{
  ClientTask, correlating, relaying, closing, BackendTask, matching, MainTask, selecting, returned,
  cleaned, Forwarding, begin, start, Turn,
}

-- The client's frame decides what comes next, with the tracker or without one.
unfoldable pub on_client_message : Bool → ClientMessage → ClientTask
on_client_message tracked (ClientMessage.text t) =
    if ltb max_message_size (length t)
    then ClientTask.ended
    else if tracked
    then correlating t
    else ClientTask.sending (BackendMessage.text t)
on_client_message tracked (ClientMessage.binary d) =
    if ltb max_message_size (length d)
    then ClientTask.ended
    else ClientTask.sending (BackendMessage.binary d)
on_client_message tracked (ClientMessage.close reason) = closing
on_client_message tracked (ClientMessage.ping d) = relaying (BackendMessage.ping d)
on_client_message tracked (ClientMessage.pong d) = relaying (BackendMessage.pong d)
on_client_message tracked (ClientMessage.continuation d) = ClientTask.reading
on_client_message tracked ClientMessage.nop = ClientTask.reading

unfoldable pub on_client_event : Bool → Event ClientMessage → ClientTask
unfolding on_client_message
on_client_event tracked failed = ClientTask.ended
on_client_event tracked (received m) = on_client_message tracked m

unfoldable pub on_backend_message : Bool → BackendMessage → BackendTask
on_backend_message tracked (BackendMessage.text t) =
    if tracked then matching t else BackendTask.sending (ClientMessage.text t)
on_backend_message tracked (BackendMessage.binary d) = BackendTask.sending (ClientMessage.binary d)
on_backend_message tracked (BackendMessage.close reason) = BackendTask.ended
on_backend_message tracked (BackendMessage.ping d) = BackendTask.sending (ClientMessage.ping d)
on_backend_message tracked (BackendMessage.pong d) = BackendTask.sending (ClientMessage.pong d)
on_backend_message tracked (BackendMessage.frame d) = BackendTask.reading

abbrev touched : Turn → Forwarding → WebSocketProxyHandler
touched turn f = store_activity (epoch_secs turn.at) f.session_id f.handler

unfoldable pub read_client : List (Event ClientMessage) → Turn → Forwarding → Forwarding
unfolding on_client_event
read_client [] turn f = record f { client_task = ClientTask.ended }
read_client (e ∷ es) turn f = record f {
  handler = touched turn f;
  client_stream = es;
  client_task = on_client_event (is_some f.tracker) e;
}

-- A protocol error ends the loop before the activity is stored.
unfoldable pub read_backend : List (Event BackendMessage) → Turn → Forwarding → Forwarding
unfolding on_backend_message
read_backend [] turn f = record f { backend_task = BackendTask.ended }
read_backend (failed ∷ es) turn f = record f {
  backend_stream = es;
  backend_task = BackendTask.ended;
}
read_backend (received m ∷ es) turn f = record f {
  handler = touched turn f;
  backend_stream = es;
  backend_task = on_backend_message (is_some f.tracker) m;
}

abbrev refreshed : Turn → Forwarding → WebSocketProxyHandler
refreshed turn f = record f.handler {
  connection_manager =
      update_activity turn.at.instant f.backend_conn_id f.handler.connection_manager;
}

-- Only a timeout counts as a failure to send; it closes the sink.
unfoldable pub after_send : Outcome → Forwarding → Forwarding
after_send timed_out f = record f { client_task = ClientTask.ended; backend_closed = true }
after_send sent f = record f { client_task = ClientTask.refreshing }
after_send refused f = record f { client_task = ClientTask.refreshing }

abbrev pub hand_to_backend : BackendMessage → Forwarding → Forwarding
hand_to_backend m f = record f { to_backend = f.to_backend ++ m ∷ [] }

unfoldable pub client_turn : Serde → ClientTask → Turn → Forwarding → Forwarding
unfolding read_client after_send
client_turn s ClientTask.reading turn f = read_client f.client_stream turn f
client_turn s (correlating t) turn f =
    let (tracker, m) = final_message s turn.at t f.tracker in
    record f { tracker = tracker; client_task = ClientTask.sending (BackendMessage.text m) }
client_turn s (ClientTask.sending m) turn f = after_send turn.outcome (hand_to_backend m f)
client_turn s (relaying m) turn f = record (hand_to_backend m f) {
  client_task = ClientTask.reading;
}
client_turn s closing turn f = record (hand_to_backend (BackendMessage.close none) f) {
  client_task = ClientTask.ended;
}
client_turn s ClientTask.refreshing turn f = record f {
  handler = refreshed turn f;
  client_task = ClientTask.reading;
}
client_turn s ClientTask.ended turn f = f

abbrev pub after_answer : Outcome → BackendTask
after_answer timed_out = BackendTask.ended
after_answer _ = BackendTask.refreshing

unfoldable pub backend_turn : Serde → BackendTask → Turn → Forwarding → Forwarding
unfolding read_backend
backend_turn s BackendTask.reading turn f = read_backend f.backend_stream turn f
backend_turn s (matching t) turn f = record f {
  tracker = match_response s t f.tracker;
  backend_task = BackendTask.sending (ClientMessage.text t);
}
backend_turn s (BackendTask.sending m) turn f = record f {
  to_client = f.to_client ++ m ∷ [];
  backend_task = after_answer turn.outcome;
}
backend_turn s BackendTask.refreshing turn f = record f {
  handler = refreshed turn f;
  backend_task = BackendTask.reading;
}
backend_turn s BackendTask.ended turn f = f

abbrev pub expire : ℕ → Option CorrelationTracker → Option CorrelationTracker
expire now none = none
expire now (some t) = some (cleanup_expired_requests now t).0

-- The task is aborted when `forward_messages` returns.
unfoldable pub tick_turn : MainTask → Moment → Forwarding → Forwarding
tick_turn selecting at f = record f { tracker = expire at.instant f.tracker }
tick_turn returned at f = f
tick_turn cleaned at f = f

abbrev client_ended : ClientTask → Bool
client_ended ClientTask.ended = true
client_ended _ = false

abbrev backend_ended : BackendTask → Bool
backend_ended BackendTask.ended = true
backend_ended _ = false

-- The end of `select!` closes the sink; the other direction's task goes on.
unfoldable pub main_turn : MainTask → Forwarding → Forwarding
main_turn selecting f =
    if client_ended f.client_task || backend_ended f.backend_task
    then record f { main_task = returned; backend_closed = true }
    else f
main_turn returned f = record f {
  handler = cleanup_session f.session_id f.backend_conn_id f.handler;
  main_task = cleaned;
}
main_turn cleaned f = f

-- Which task runs next.
pub data Action : Type 0 where
  client backend : Turn → Action
  tick : Moment → Action
  main : Action

unfoldable pub step : Serde → Action → Forwarding → Forwarding
unfolding client_turn backend_turn tick_turn main_turn
step s (client turn) f = client_turn s f.client_task turn f
step s (backend turn) f = backend_turn s f.backend_task turn f
step s (tick at) f = tick_turn f.main_task at f
step s main f = main_turn f.main_task f

-- Any interleaving of the tasks.
unfoldable pub run : Serde → List Action → Forwarding → Forwarding
unfolding step
run s [] f = f
run s (a ∷ actions) f = run s actions (step s a f)
