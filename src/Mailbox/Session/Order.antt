-- ===== src/Mailbox/Session/Order.antt =====
-- The order of a session's messages: `init`, and then `auth_sig`, which is the last.
use taproot_assets_rest_gate.Prelude.{
  Text, ascii, Bool, true, false, Option, none, some, [], ◌∷◌, ◌++◌, length, Option-cases,
  Bool-cases, inl, inr, ◌≡◌, refl, ap, sym, ◌∙◌, arith,
}
use taproot_assets_rest_gate.Json.{Value, object, field, end}
use taproot_assets_rest_gate.MailboxAuth.Challenges.{generate_challenge}
use taproot_assets_rest_gate.Mailbox.{text_frame, response_value}
use taproot_assets_rest_gate.Error.{Result, ok, err}
use taproot_assets_rest_gate.Mailbox.Stream.{
  Subscription, Stream, Turn, continues, breaks, fails, finish, poll_all, start,
}
use taproot_assets_rest_gate.Mailbox.Session.{
  MailboxState, awaiting_init, challenge_sent, authenticated, streaming, closed,
  WebSocketMailboxMessage, Session, Surroundings, Handled, goes_on, ends, still_streaming, errs,
  respond, handled, challenged, challenge_response, finished, end_of, stream_to, subscription,
  stream_mailbox_messages, receiver_of, after_response, auth_response, judged, on_auth_sig, on_init,
  with_init, with_auth_sig, in_state, handle_mailbox_message,
}
use taproot_assets_rest_gate.Mailbox.Session.States.{session_of, continues_with, on_init-kept}

finished_last :
    (s : Session) (p : Stream × Result (Unit {0})) → continues_with (finished s p) ≡ none
finished_last s (t, ok u) = refl
finished_last s (t, err e) = refl

end_of_last :
    (r : Surroundings) (sub : Subscription) (s : Session) (t : Turn)
    → continues_with (end_of r sub s t) ≡ none
end_of_last r sub s (continues t) = refl
end_of_last r sub s (fails t e) = refl
end_of_last r sub s (breaks t) = finished_last s (finish sub r.end t)

stream_to_last :
    (r : Surroundings) (init auth_sig : Value) (s : Session) (receiver : Option Text)
    → continues_with (stream_to r init auth_sig s receiver) ≡ none
stream_to_last r init auth_sig s none = refl
stream_to_last r init auth_sig s (some receiver_id) =
    end_of_last r (subscription r init auth_sig) s
      (poll_all (subscription r init auth_sig) r.polls (start s.sent s.monitoring))

after_response_last :
    (r : Surroundings) (init auth_sig : Value) (b : Bool) (s : Session)
    → continues_with (after_response r init auth_sig b s) ≡ none
unfolding stream_mailbox_messages
after_response_last r init auth_sig true s = stream_to_last r init auth_sig _ (receiver_of init)
after_response_last r init auth_sig false s = refl

handled_last :
    (r : Surroundings) (init auth_sig : Value) (b : Bool) (p : Session × Result (Unit {0}))
    → continues_with (handled (after_response r init auth_sig b) p) ≡ none
handled_last r init auth_sig b (s, ok u) = after_response_last r init auth_sig b s
handled_last r init auth_sig b (s, err e) = refl

judged_last :
    (r : Surroundings) (init auth_sig : Value) (s : Session) (verdict : Result Bool)
    → continues_with (judged r init auth_sig s verdict) ≡ none
judged_last r init auth_sig s (err e) = refl
judged_last r init auth_sig s (ok b) =
    handled_last r init auth_sig b (respond r (auth_response b) s)

with_auth_sig_last :
    (r : Surroundings) (s : Session) (pending auth : Option Value)
    → continues_with (with_auth_sig r s pending auth) ≡ none
unfolding on_auth_sig
with_auth_sig_last r s none none = refl
with_auth_sig_last r s (some init) none = refl
with_auth_sig_last r s none (some auth_sig) = refl
with_auth_sig_last r s (some init) (some auth_sig) = judged_last r init auth_sig _ _

continued_session : (h : Handled) (s : Session) → continues_with h ≡ some s → session_of h ≡ s
continued_session (goes_on t) s e = ground arith
continued_session (ends t) s e = absurd (ground arith)
continued_session (still_streaming t) s e = absurd (ground arith)
continued_session (errs t x) s e = absurd (ground arith)

none-some : {s : Session} → ¬ (none ≡ some s)
none-some p = ground arith

-- The session was handed a new challenge, which was written as the text of a frame that it took.
abbrev pub IsChallenged : Surroundings → Session → Session → Type 0
IsChallenged r s s' =
    (challenge : Value) × (t : Text) × ((generate_challenge r.fresh r.now s.shared.challenges).1
      ≡ ok challenge)
    × (r.world.serde.to_string (object (field (ascii "challenge") challenge end)) ≡ some t)
    × (r.accepts (length s.sent) ≡ true)
    × (s'.sent ≡ s.sent ++ text_frame t ∷ [])

taken-IsChallenged :
    (r : Surroundings) (s s' : Session) (challenge : Value)
    → continues_with (handled goes_on (respond r (challenge_response challenge) s)) ≡ some s'
    → (t : Text) × (r.world.serde.to_string (object (field (ascii "challenge") challenge end))
        ≡ some t)
      × (r.accepts (length s.sent) ≡ true)
      × (s'.sent ≡ s.sent ++ text_frame t ∷ [])
unfolding respond response_value
taken-IsChallenged r s s' challenge e =
    elim (Option-cases
      (r.world.serde.to_string (object (field (ascii "challenge") challenge end)))) [
        | inl n ↦ absurd (ground arith)
        | inr (t, w) ↦ elim (Bool-cases (r.accepts (length s.sent))) [
          | inl y ↦ (t, w, y, ground arith)
          | inr n ↦ absurd (ground arith)
        ]
      ]

challenged-IsChallenged :
    (r : Surroundings) (s s' : Session) (made : Result Value)
    → continues_with (challenged r s made) ≡ some s'
    → (challenge : Value) × (t : Text) × (made ≡ ok challenge)
      × (r.world.serde.to_string (object (field (ascii "challenge") challenge end)) ≡ some t)
      × (r.accepts (length s.sent) ≡ true)
      × (s'.sent ≡ s.sent ++ text_frame t ∷ [])
challenged-IsChallenged r s s' (err x) e = absurd (none-some e)
challenged-IsChallenged r s s' (ok challenge) e =
    let (t, w, y, sent) = taken-IsChallenged r s s' challenge e in (challenge, t, refl, w, y, sent)

on_init-IsChallenged :
    (r : Surroundings) (init : Value) (s s' : Session)
    → continues_with (on_init r init s) ≡ some s'
    → IsChallenged r s s'
unfolding on_init
on_init-IsChallenged r init s s' e = challenged-IsChallenged r _ s' _ e

with_init-goes_on :
    (r : Surroundings) (s s' : Session) (init : Option Value)
    → continues_with (with_init r s init) ≡ some s'
    → (s'.state ≡ challenge_sent) × (s'.pending_init ≡ init) × IsChallenged r s s'
with_init-goes_on r s s' none e = absurd (none-some e)
with_init-goes_on r s s' (some init) e =
    let same = sym (continued_session (on_init r init s) s' e) in
    let (st, pend) = on_init-kept r init s in
    (
      ap (λ t. t.state) same ∙ st,
      ap (λ t. t.pending_init) same ∙ pend,
      on_init-IsChallenged r init s s' e,
    )

in_state-goes_on :
    (r : Surroundings) (msg : WebSocketMailboxMessage) (s s' : Session) (state : MailboxState)
    → s.state ≡ state
    → continues_with (in_state state r msg s) ≡ some s'
    → (s.state ≡ awaiting_init)
      × (s'.state ≡ challenge_sent)
      × (s'.pending_init ≡ msg.init)
      × IsChallenged r s s'
in_state-goes_on r msg s s' awaiting_init p e =
    let (st, pend, made) = with_init-goes_on r s s' msg.init e in (p, st, pend, made)
in_state-goes_on r msg s s' challenge_sent p e =
    absurd (none-some (sym (with_auth_sig_last r s s.pending_init msg.auth_sig) ∙ e))
in_state-goes_on r msg s s' authenticated p e = absurd (none-some e)
in_state-goes_on r msg s s' streaming p e = absurd (none-some e)
in_state-goes_on r msg s s' closed p e = absurd (none-some e)

-- A session goes on after a message only from its first state, where the message brought an `init`:
-- then this `init` is pending, a challenge was made, the session took the frame that this is written
-- in, after those before it, and the state says so.
pub goes_on-awaiting_init :
    (r : Surroundings) (msg : WebSocketMailboxMessage) (s s' : Session)
    → continues_with (handle_mailbox_message r msg s) ≡ some s'
    → (s.state ≡ awaiting_init)
      × (s'.state ≡ challenge_sent)
      × (s'.pending_init ≡ msg.init)
      × IsChallenged r s s'
unfolding handle_mailbox_message
goes_on-awaiting_init r msg s s' e = in_state-goes_on r msg s s' s.state refl e
