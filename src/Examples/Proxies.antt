-- ===== src/Examples/Proxies.antt =====
-- A session of the proxy: a request, its answer, and the end of the session.
use taproot_assets_rest_gate.Prelude.{
  ◌≡◌, ◌≢◌, ◌↔◌, Text, ascii, true, false, none, some, List, [], ◌∷◌, ◌++◌, All, get, IsMap, refl,
  arith, secs, text_eq, insert, remove, contains, text_key, nat_key,
}
use taproot_assets_rest_gate.Crypto.{parsed}
use taproot_assets_rest_gate.Correlation
use taproot_assets_rest_gate.Correlation.{
  CorrelationTracker, PendingRequest, inject_correlation_id, extract_correlation_id,
  correlation_id_text, is_request_message, add_pending_request, generate_correlation_id,
}
use taproot_assets_rest_gate.Connections
use taproot_assets_rest_gate.Connections.{
  WebSocketConnectionManager, Network, connect_to_backend, dial,
}
use taproot_assets_rest_gate.Proxy
use taproot_assets_rest_gate.Proxy.{
  Moment, ProxySession, WebSocketProxyHandler, Opening, handle_websocket, cleanup_stale_sessions,
  is_stale, epoch_secs,
}
use taproot_assets_rest_gate.Proxy.Frames.{
  outgoing, ClientMessage, BackendMessage, Event, received, failed, sent, timed_out,
}
use taproot_assets_rest_gate.Proxy.Forward.{
  ClientTask, Forwarding, begin, Action, client, backend, run,
}
use taproot_assets_rest_gate.Proxy.Spec.{Carries, Leaves, for_backend, for_client}
use taproot_assets_rest_gate.Proxy.Order.{client_order}
use taproot_assets_rest_gate.Proxy.Answers.{answers_order}
use taproot_assets_rest_gate.Proxy.Ends.{client_drains, IsTimely}
use taproot_assets_rest_gate.Proxy.Pending.{InFlight}
use taproot_assets_rest_gate.Proxy.Pending.Sent.{pending-WasSent}
use taproot_assets_rest_gate.Proxy.Pairs.{IsPaired}
use taproot_assets_rest_gate.Proxy.Sessions
use taproot_assets_rest_gate.Proxy.Sessions.{Reach, Reach-IsPaired}
use taproot_assets_rest_gate.Proxy.Sweep.{cleanup_stale_sessions_iff}
use taproot_assets_rest_gate.Examples.Parts.{serde, serde_laws, read}
use taproot_assets_rest_gate.Prelude.Decimal.{decimal}

abbrev pub manager : WebSocketConnectionManager
manager = Connections.new (ascii "https://tapd:8089") (ascii "00") true

abbrev pub network : Network
network = record {
  host_str = λ url. parsed (some (ascii "tapd"));
  build = λ h. parsed tt;
  tls = λ b. parsed tt;
  connect = λ now h. parsed tt;
}

abbrev noon : Moment
noon = record { epoch = secs 43200; instant = secs 10 }

abbrev pub opening : Opening
opening = record {
  session_id = ascii "a1";
  backend_conn_id = 7;
  at = noon;
  peer_addr = none;
  backend_endpoint = ascii "/v1/events";
  correlation_required = true;
}

abbrev opened : WebSocketProxyHandler
opened = (handle_websocket network (parsed tt) opening (Proxy.new manager)).0

abbrev on_time : Action
on_time = client (record { at = noon; outcome = sent })

abbrev answer_turn : Action
answer_turn = backend (record { at = noon; outcome = sent })

-- No JSON: a request by the word that it holds.
abbrev question : Text
question = ascii "request"

abbrev from_client : List (Event ClientMessage)
from_client = received (ClientMessage.text question) ∷ received (ClientMessage.close none) ∷ []

abbrev from_backend : List (Event BackendMessage)
from_backend = received (BackendMessage.binary (ascii "x")) ∷ failed ∷ []

abbrev tracker : CorrelationTracker
tracker = Correlation.new (ascii "a1")

client_order_example :
    let f =
      run serde
        (on_time ∷ on_time ∷ on_time ∷ answer_turn ∷ [])
        (begin opened (ascii "a1") 7 (some tracker) from_client from_backend) in
    (rest : List BackendMessage) × Leaves
      (Carries serde)
      f.to_backend
      (for_backend from_client)
      rest
client_order_example =
    client_order serde opened (ascii "a1") 7 (some tracker) from_client from_backend
      (on_time ∷ on_time ∷ on_time ∷ answer_turn ∷ [])

answers_order_example :
    let f =
      run serde
        (answer_turn ∷ on_time ∷ answer_turn ∷ [])
        (begin opened (ascii "a1") 7 (some tracker) from_client from_backend) in
    (rest : List ClientMessage) × (f.to_client ++ rest ≡ for_client from_backend)
answers_order_example =
    answers_order serde opened (ascii "a1") 7 (some tracker) from_client from_backend
      (answer_turn ∷ on_time ∷ answer_turn ∷ [])

abbrev enough : List Action
enough =
    on_time ∷ on_time ∷ on_time ∷ answer_turn ∷ on_time ∷ on_time ∷ on_time ∷ on_time ∷ on_time
    ∷ on_time ∷ []

not_late : sent ≢ timed_out
not_late e = cc

enough-All : All IsTimely enough
enough-All = (
  not_late,
  (
    not_late,
    (not_late, (tt, (not_late, (not_late, (not_late, (not_late, (not_late, (not_late, tt)))))))),
  ),
)

client_drains_example :
    let f =
      run serde enough (begin opened (ascii "a1") 7 (some tracker) from_client from_backend) in
    (f.client_task ≡ ClientTask.ended)
    × Leaves (Carries serde) f.to_backend (for_backend from_client) []
client_drains_example =
    client_drains serde opened (ascii "a1") 7 (some tracker) from_client from_backend enough
      (omega arith) enough-All

Reach-IsPaired_example : IsPaired opened
unfolding get
Reach-IsPaired_example =
    Reach-IsPaired (Reach.next Reach.start (Sessions.Step.opens network (parsed tt) opening refl))

-- The request is noted, and about to be sent.
abbrev two_turns : Forwarding
two_turns =
    run serde (on_time ∷ on_time ∷ [])
      (begin opened (ascii "a1") 7 (some tracker) from_client from_backend)

abbrev noted : CorrelationTracker
noted = (outgoing serde noon question tracker).0

abbrev question_id : Text
question_id = correlation_id_text (ascii "a1") 1 43200000

abbrev question_request : PendingRequest
question_request = record {
  correlation_id = question_id;
  original_message = question;
  sent_at = secs 10;
  client_session_id = ascii "a1";
}

two_turns-noted : two_turns.tracker ≡ some noted
unfolding run
two_turns-noted = refl

question-pending : get question_id noted.pending_requests ≡ some question_request
unfolding outgoing is_request_message read contains inject_correlation_id add_pending_request
    generate_correlation_id correlation_id_text decimal insert get text_eq
question-pending = refl

pending-WasSent_example :
    (modified : Text) × (inject_correlation_id serde question question_id ≡ some modified)
    × (extract_correlation_id serde modified ≡ some question_id)
    × InFlight (BackendMessage.text modified) two_turns.client_task two_turns.to_backend
pending-WasSent_example =
    pending-WasSent serde serde_laws opened (ascii "a1") 7 from_client from_backend
      (on_time ∷ on_time ∷ []) noted question_id question_request two_turns-noted question-pending

-- Ten minutes later the session is swept, with its connection.
abbrev ten_minutes_later : Moment
ten_minutes_later = record { epoch = secs 43801; instant = secs 611 }

abbrev session : ProxySession
session = Proxy.proxy_session opening

opened-IsMap : IsMap opened.active_proxies
unfolding handle_websocket connect_to_backend dial insert remove get
opened-IsMap = (refl, tt)

cleanup_stale_sessions_iff_example :
    let h' = cleanup_stale_sessions ten_minutes_later (secs 600) opened in
    ((get (ascii "a1") h'.active_proxies ≡ some session) ↔ (
      (get (ascii "a1") opened.active_proxies ≡ some session)
      × (is_stale (epoch_secs ten_minutes_later) (secs 600) session ≡ false)))
    × ((get (ascii "a1") opened.active_proxies ≡ some session)
          × (is_stale (epoch_secs ten_minutes_later) (secs 600) session ≡ true)
        → get 7 h'.connection_manager.connections ≡ none)
cleanup_stale_sessions_iff_example =
    cleanup_stale_sessions_iff ten_minutes_later (secs 600) opened (ascii "a1") session opened-IsMap

-- What was handed on, in full.
drained :
    let f = run serde enough (begin opened (ascii "a1") 7 none from_client from_backend) in
    (f.to_backend ≡ BackendMessage.text question ∷ BackendMessage.close none ∷ [])
    × (f.to_client ≡ [])
unfolding run
drained = (refl, refl)
