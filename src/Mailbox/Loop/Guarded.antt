-- ===== src/Mailbox/Loop/Guarded.antt =====
-- Whatever a client sends, its connection is streamed to after an authentication only.
use taproot_assets_rest_gate.Prelude.{
  Text, Bool, true, false, Option, none, some, List, [], ◌∷◌, length, ◌≡◌, ◌⊎◌, inl, inr, refl, sym,
  ◌∙◌, arith, Bool-cases, Option-cases, ltb,
}
use taproot_assets_rest_gate.Monitoring.{record_message_received}
use taproot_assets_rest_gate.Mailbox.{check_rate_limit, response_value}
use taproot_assets_rest_gate.Mailbox.Session.{
  Surroundings, Session, WebSocketMailboxMessage, Handled, goes_on, ends, still_streaming, errs,
  auth_response, handle_mailbox_message,
}
use taproot_assets_rest_gate.Mailbox.Session.States.{
  is_open, session_of, IsAuthenticatedBy, open-authenticated,
}
use taproot_assets_rest_gate.Mailbox.Loop.{
  Event, text, ping_frame, close_frame, other, failed, stream_ended, timed_out, Arrival, Connection,
  Progress, loops, leaves, hangs, report_error, after_handled, on_parsed, on_text, on_frame,
  counted, in_event, advance, close_connection, proceed, run_loop, max_message_size_bytes, observe,
}

abbrev pub connection_of : Progress → Connection
connection_of (loops c) = c
connection_of (leaves c) = c
connection_of (hangs c) = c

abbrev pub opens : Connection → Bool
opens c = is_open c.session.state

-- The arrival is a text that is read as a message, and this authenticates the session.
abbrev pub IsAnsweredAs : Arrival → Session → Text → WebSocketMailboxMessage → Type 0
IsAnsweredAs a s t msg =
    (a.event ≡ text t) × (a.parse t ≡ some msg) × IsAuthenticatedBy a.surroundings msg s

abbrev pub IsAnsweredIn : Arrival → Session → Type 0
IsAnsweredIn a s = (t : Text) × (msg : WebSocketMailboxMessage) × IsAnsweredAs a s t msg

-- So with the shared state that the arrival finds.
abbrev pub IsAnswered : Arrival → Connection → Type 0
IsAnswered a c = IsAnsweredIn a (record c.session { shared = a.shared })

abbrev Later : (Connection → Type 0) → Progress → Type 0
Later P (loops c) = P c
Later P (leaves c) = ⊥
Later P (hangs c) = ⊥

-- One of the arrivals answers the challenge, in the connection as those before it left it.
abbrev pub IsAnsweredBy : List Arrival → Connection → Type 0
IsAnsweredBy [] c = ⊥
IsAnsweredBy (a ∷ rest) c = IsAnswered a c ⊎ Later (λ c'. IsAnsweredBy rest c') (advance a c)

closed-open : {b : Bool} {A : Type 0} → b ≡ false → b ≡ true → A
closed-open e h = absurd (ground arith)

report_error-opens : (r : Surroundings) (c : Connection) → opens (report_error r c) ≡ opens c
unfolding report_error
report_error-opens r c =
    elim (Option-cases (r.world.serde.to_string (response_value (auth_response false)))) [
      | inl e ↦ ground arith
      | inr (t, e) ↦ ground arith
    ]

after_handled-opens :
    (r : Surroundings) (c : Connection) (h : Handled)
    → opens (connection_of (after_handled r c h)) ≡ is_open (session_of h).state
after_handled-opens r c (goes_on s) = refl
after_handled-opens r c (ends s) = refl
after_handled-opens r c (still_streaming s) = refl
after_handled-opens r c (errs s e) = report_error-opens r (record c { session = s })

on_parsed-answered :
    (r : Surroundings) (c : Connection) (m : Option WebSocketMailboxMessage)
    → opens c ≡ false
    → opens (connection_of (on_parsed r c m)) ≡ true
    → (msg : WebSocketMailboxMessage) × (m ≡ some msg) × IsAuthenticatedBy r msg c.session
on_parsed-answered r c none before after = closed-open before after
on_parsed-answered r c (some msg) before after = (
  msg,
  refl,
  (open-authenticated r msg c.session before
      (sym (after_handled-opens r c (handle_mailbox_message r msg c.session)) ∙ after)).1,
)

on_text-answered :
    (a : Arrival) (t : Text) (c : Connection)
    → a.event ≡ text t
    → opens c ≡ false
    → opens (connection_of (on_text a t c)) ≡ true
    → IsAnsweredIn a c.session
unfolding on_text
on_text-answered a t c arrived before after =
    elim (Bool-cases (ltb max_message_size_bytes (length t))) [
      | inl e ↦ closed-open before (ground arith)
      | inr e ↦
          let seen : Connection =
            observe
              (record_message_received a.surroundings.connection_id (length t) a.surroundings.now)
              c in
          let (msg, read, by) =
            on_parsed-answered a.surroundings seen (a.parse t) before (ground arith) in
          (t, msg, (arrived, read, by))
    ]

on_frame-answered :
    (a : Arrival) (c : Connection) (event : Event)
    → a.event ≡ event
    → opens c ≡ false
    → opens (connection_of (on_frame a c event)) ≡ true
    → IsAnsweredIn a c.session
unfolding on_frame
on_frame-answered a c (text t) arrived before after = on_text-answered a t c arrived before after
on_frame-answered a c (ping_frame bytes) arrived before after =
    elim (Bool-cases (a.surroundings.accepts (length c.session.sent))) [
      | inl e ↦ closed-open before (ground arith)
      | inr e ↦ closed-open before (ground arith)
    ]
on_frame-answered a c close_frame arrived before after = closed-open before after
on_frame-answered a c other arrived before after = closed-open before after
on_frame-answered a c failed arrived before after = closed-open before after
on_frame-answered a c stream_ended arrived before after = closed-open before after
on_frame-answered a c timed_out arrived before after = closed-open before after

counted-answered :
    (a : Arrival) (c : Connection)
    → opens c ≡ false
    → opens (connection_of (counted a c)) ≡ true
    → IsAnsweredIn a c.session
unfolding counted
counted-answered a c before after =
    elim (Bool-cases (check_rate_limit a.surroundings.now c.limits).1) [
      | inr e ↦ closed-open before (ground arith)
      | inl e ↦
          let c' : Connection = record c {
            limits = (check_rate_limit a.surroundings.now c.limits).0;
          } in
          on_frame-answered a c' a.event refl before (ground arith)
    ]

in_event-answered :
    (event : Event) (a : Arrival) (c : Connection)
    → opens c ≡ false
    → opens (connection_of (in_event event a c)) ≡ true
    → IsAnsweredIn a c.session
in_event-answered stream_ended a c before after = closed-open before after
in_event-answered timed_out a c before after = closed-open before after
in_event-answered (text t) a c before after = counted-answered a c before after
in_event-answered (ping_frame bytes) a c before after = counted-answered a c before after
in_event-answered close_frame a c before after = counted-answered a c before after
in_event-answered other a c before after = counted-answered a c before after
in_event-answered failed a c before after = counted-answered a c before after

advance-IsAnswered :
    (a : Arrival) (c : Connection)
    → opens c ≡ false
    → opens (connection_of (advance a c)) ≡ true
    → IsAnswered a c
unfolding advance
advance-IsAnswered a c before after = in_event-answered a.event a _ before after

proceed-answered :
    {A : Type 0} (P : Connection → Type 0) (r : Surroundings) (next : Connection → Progress)
    (p : Progress)
    → (opens (connection_of p) ≡ true → A)
    → ((c : Connection) → opens c ≡ false → opens (connection_of (next c)) ≡ true → P c)
    → opens (connection_of (proceed r next p)) ≡ true
    → A ⊎ Later P p
unfolding close_connection
proceed-answered P r next (leaves c) now later after = inl (now after)
proceed-answered P r next (hangs c) now later after = inl (now after)
proceed-answered P r next (loops c) now later after = elim (Bool-cases (opens c)) [
  | inl e ↦ inl (now e)
  | inr e ↦ inr (later c e after)
]

-- A connection that is streamed to after any list of arrivals, and was not before, was answered by
-- one of them: a text that is read as a message with an `auth_sig`, with which the authentication
-- succeeded for the `init` that was pending.
pub run_loop-IsAnsweredBy :
    (arrivals : List Arrival) (c : Connection)
    → opens c ≡ false
    → opens (connection_of (run_loop arrivals c)) ≡ true
    → IsAnsweredBy arrivals c
unfolding run_loop
run_loop-IsAnsweredBy [] c before after = closed-open before after
run_loop-IsAnsweredBy (a ∷ rest) c before after =
    proceed-answered (λ c'. IsAnsweredBy rest c') a.surroundings (λ c'. run_loop rest c')
      (advance a c) (advance-IsAnswered a c before) (λ c' e h. run_loop-IsAnsweredBy rest c' e h)
      after
