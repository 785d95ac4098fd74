-- ===== src/Mailbox/Session/States.antt =====
-- A session is streamed to after an authentication, and takes two messages at most.
use taproot_assets_rest_gate.Prelude.{
  Bool, true, false, Option, none, some, ◌≡◌, refl, ap, sym, ◌∙◌, arith, inl, inr, Option-cases,
}
use taproot_assets_rest_gate.Json.{Value}
use taproot_assets_rest_gate.Error.{Result, ok, err}
use taproot_assets_rest_gate.MailboxAuth.Flow.{validate_authentication}
use taproot_assets_rest_gate.Mailbox.{MailboxResponse, response_value}
use taproot_assets_rest_gate.Mailbox.Session.{
  MailboxState, awaiting_init, challenge_sent, authenticated, streaming, closed,
  WebSocketMailboxMessage, Session, Surroundings, Handled, goes_on, ends, still_streaming, errs,
  respond, handled, challenged, challenge_response, auth_response, on_init, after_response, judged,
  on_auth_sig, with_init, with_auth_sig, in_state, handle_mailbox_message,
}

abbrev pub session_of : Handled → Session
session_of (goes_on s) = s
session_of (ends s) = s
session_of (still_streaming s) = s
session_of (errs s e) = s

-- The states in which messages have been streamed, or will be.
abbrev pub is_open : MailboxState → Bool
is_open awaiting_init = false
is_open challenge_sent = false
is_open authenticated = true
is_open streaming = true
is_open closed = true

abbrev pub continues_with : Handled → Option Session
continues_with (goes_on s) = some s
continues_with (ends s) = none
continues_with (still_streaming s) = none
continues_with (errs s e) = none

respond-kept :
    (r : Surroundings) (response : MailboxResponse) (s : Session)
    → ((respond r response s).0.state ≡ s.state)
      × ((respond r response s).0.pending_init ≡ s.pending_init)
unfolding respond
respond-kept r response s =
    elim (Option-cases (r.world.serde.to_string (response_value response))) [
      | inl e ↦ ground arith
      | inr (t, e) ↦ ground arith
    ]

handled-goes_on : (p : Session × Result (Unit {0})) → session_of (handled goes_on p) ≡ p.0
handled-goes_on (s, ok u) = refl
handled-goes_on (s, err e) = refl

challenged-kept :
    (r : Surroundings) (s : Session) (made : Result Value)
    → ((session_of (challenged r s made)).state ≡ s.state)
      × ((session_of (challenged r s made)).pending_init ≡ s.pending_init)
challenged-kept r s (err e) = (refl, refl)
challenged-kept r s (ok v) =
    let same = handled-goes_on (respond r (challenge_response v) s) in
    let (st, pend) = respond-kept r (challenge_response v) s in
    (ap (λ t. t.state) same ∙ st, ap (λ t. t.pending_init) same ∙ pend)

pub on_init-kept :
    (r : Surroundings) (init : Value) (s : Session)
    → ((session_of (on_init r init s)).state ≡ challenge_sent)
      × ((session_of (on_init r init s)).pending_init ≡ some init)
unfolding on_init
on_init-kept r init s = challenged-kept r _ _

refused_kept :
    (r : Surroundings) (init auth_sig : Value) (p : Session × Result (Unit {0}))
    → (session_of (handled (after_response r init auth_sig false) p)).state ≡ p.0.state
refused_kept r init auth_sig (s, ok u) = refl
refused_kept r init auth_sig (s, err e) = refl

judged-open :
    (r : Surroundings) (init auth_sig : Value) (s : Session) (verdict : Result Bool)
    → is_open s.state ≡ false
    → is_open (session_of (judged r init auth_sig s verdict)).state ≡ true
    → verdict ≡ ok true
judged-open r init auth_sig s (err e) before after = absurd (ground arith)
judged-open r init auth_sig s (ok true) before after = refl
judged-open r init auth_sig s (ok false) before after =
    let same =
      refused_kept r init auth_sig (respond r (auth_response false) s)
      ∙ (respond-kept r (auth_response false) s).0 in
    absurd (true-not_false (sym after ∙ ap is_open same ∙ before))
  where
    true-not_false : ¬ (true ≡ false)
    true-not_false p = ground arith

-- What an authenticated session has been through.
abbrev pub IsAuthenticatedBy : Surroundings → WebSocketMailboxMessage → Session → Type 0
IsAuthenticatedBy r msg s =
    (init : Value) × (auth_sig : Value) × (s.pending_init ≡ some init)
    × (msg.auth_sig ≡ some auth_sig)
    × ((validate_authentication r.world init auth_sig s.shared r.client).1.1 ≡ ok true)

with_auth_sig-open :
    (r : Surroundings) (msg : WebSocketMailboxMessage) (s : Session) (pending auth : Option Value)
    → s.pending_init ≡ pending
    → msg.auth_sig ≡ auth
    → is_open s.state ≡ false
    → is_open (session_of (with_auth_sig r s pending auth)).state ≡ true
    → IsAuthenticatedBy r msg s
unfolding on_auth_sig
with_auth_sig-open r msg s none none p q before after = absurd (ground arith)
with_auth_sig-open r msg s (some init) none p q before after = absurd (ground arith)
with_auth_sig-open r msg s none (some auth_sig) p q before after = absurd (ground arith)
with_auth_sig-open r msg s (some init) (some auth_sig) p q before after =
    (init, auth_sig, p, q, judged-open r init auth_sig _ _ before after)

with_init-open :
    (r : Surroundings) (s : Session) (init : Option Value)
    → is_open s.state ≡ false
    → is_open (session_of (with_init r s init)).state ≡ false
with_init-open r s none before = before
with_init-open r s (some init) before = ap is_open (on_init-kept r init s).0

in_state-open :
    (r : Surroundings) (msg : WebSocketMailboxMessage) (s : Session) (state : MailboxState)
    → s.state ≡ state
    → is_open s.state ≡ false
    → is_open (session_of (in_state state r msg s)).state ≡ true
    → (s.state ≡ challenge_sent) × IsAuthenticatedBy r msg s
in_state-open r msg s awaiting_init e before after =
    absurd (true-not_false (sym after ∙ with_init-open r s msg.init before))
  where
    true-not_false : ¬ (true ≡ false)
    true-not_false p = ground arith
in_state-open r msg s challenge_sent e before after =
    (e, with_auth_sig-open r msg s s.pending_init msg.auth_sig refl refl before after)
in_state-open r msg s authenticated e before after = absurd (ground arith)
in_state-open r msg s streaming e before after = absurd (ground arith)
in_state-open r msg s closed e before after = absurd (ground arith)

-- A session that is streamed to after a message, and was not before, was in the state in which its
-- challenge is sent, and this message brought an `auth_sig` with which the authentication for its
-- `init` succeeded.
pub open-authenticated :
    (r : Surroundings) (msg : WebSocketMailboxMessage) (s : Session)
    → is_open s.state ≡ false
    → is_open (session_of (handle_mailbox_message r msg s)).state ≡ true
    → (s.state ≡ challenge_sent) × IsAuthenticatedBy r msg s
unfolding handle_mailbox_message
open-authenticated r msg s before after = in_state-open r msg s s.state refl before after
