-- ===== src/Mailbox/Stream/Ends.antt =====
-- The stream of a mailbox ends after five minutes without a message, whatever came before.
use taproot_assets_rest_gate.Prelude.{
  ℕ, suc, ◌+◌, ◌%◌, ◌^◌, ◌≤◌, ◌<◌, Bool, true, false, List, [], ◌∷◌, ◌++◌, length, All, leb, nat_eq,
  ◌≡◌, refl, Option, none, some, Text, arith, Bool-cases, Option-cases, inl, inr,
}
use taproot_assets_rest_gate.Json.{Value}
use taproot_assets_rest_gate.Error.{Result, ok, err, AppError}
use taproot_assets_rest_gate.Mailbox.Stream.{
  Subscription, Stream, Poll, Turn, continues, breaks, fails, ask, messages_of, on_answer,
  on_messages, on_empty, on_error, answered, deliver, after_heartbeat, end_turn, turn, ◌and_next◌,
  poll_all, is_network_error, error_value,
}

-- What holds of a turn that goes on.
abbrev pub IfContinues : (Stream → Type 0) → Turn → Type 0
IfContinues P (continues s) = P s
IfContinues P (breaks s) = Unit
IfContinues P (fails s e) = Unit

abbrev pub is_over : Turn → Bool
is_over (continues s) = false
is_over (breaks s) = true
is_over (fails s e) = true

abbrev Below : ℕ → Stream → Type 0
Below n s = s.empty_polls < n

-- The counter of empty polls stands at `n`, and this is not the end.
abbrev Polls : ℕ → Stream → Type 0
Polls n s = (s.empty_polls ≡ n) × (n < 300)

end_turn-Polls :
    (n : ℕ) (sub : Subscription) (s : Stream)
    → s.empty_polls ≡ n
    → n < 300
    → IfContinues (Polls n) (end_turn sub s)
unfolding end_turn
end_turn-Polls n sub s e h = elim (Bool-cases (sub.accepts (length s.sent))) [
  | inl a ↦ rw a (e, h)
  | inr a ↦ rw a tt
]

after_heartbeat-Polls :
    (n : ℕ) (sub : Subscription) (s : Stream)
    → s.empty_polls ≡ n
    → IfContinues (Polls n) (after_heartbeat sub s)
unfolding after_heartbeat
after_heartbeat-Polls n sub s e = elim (Bool-cases (leb 300 s.empty_polls)) [
  | inl a ↦ rw a tt
  | inr a ↦ rw a (end_turn-Polls n sub s e (ground arith))
]

on_empty-Polls :
    (sub : Subscription) (s : Stream)
    → s.empty_polls < 300
    → IfContinues (Polls (suc s.empty_polls)) (on_empty sub s)
unfolding on_empty
on_empty-Polls sub s h = elim (Bool-cases (nat_eq (((s.empty_polls + 1) % 2 ^ 32) % 10) 0)) [
  | inr b ↦ rw b (after_heartbeat-Polls (suc s.empty_polls) sub _ (omega arith))
  | inl b ↦ elim (Bool-cases (sub.accepts (length s.sent))) [
    | inl a ↦ rw b (rw a (after_heartbeat-Polls (suc s.empty_polls) sub _ (omega arith)))
    | inr a ↦ rw b (rw a tt)
  ]
]

deliver-Polls :
    (sub : Subscription) (now : ℕ) (s : Stream) (t : Option Text)
    → s.empty_polls ≡ 0
    → IfContinues (Polls 0) (deliver sub now s t)
unfolding deliver
deliver-Polls sub now s none e = tt
deliver-Polls sub now s (some t) e = elim (Bool-cases (sub.accepts (length s.sent))) [
  | inl a ↦ rw a (end_turn-Polls 0 sub _ e (omega arith))
  | inr a ↦ rw a tt
]

on_messages-Polls :
    (sub : Subscription) (now : ℕ) (messages : List Value) (s : Stream)
    → IfContinues (Polls 0) (on_messages sub now messages s)
unfolding on_messages
on_messages-Polls sub now messages s = deliver-Polls sub now _ _ refl

on_error-over : (sub : Subscription) (e : AppError) (s : Stream) → is_over (on_error sub e s) ≡ true
unfolding on_error
on_error-over sub e s = elim (Bool-cases (is_network_error e)) [
  | inl a ↦ rw a refl
  | inr a ↦ elim (Option-cases (sub.serde.to_string (error_value e))) [
    | inl t ↦ ground arith
    | inr (x, t) ↦ ground arith
  ]
]

weaken :
    (P Q : Stream → Type 0) (t : Turn)
    → ((s : Stream) → P s → Q s)
    → IfContinues P t
    → IfContinues Q t
weaken P Q (continues s) f h = f s h
weaken P Q (breaks s) f h = tt
weaken P Q (fails s e) f h = tt

over-continues : (P : Stream → Type 0) (t : Turn) → is_over t ≡ true → IfContinues P t
over-continues P (continues s) h = absurd (ground arith)
over-continues P (breaks s) h = tt
over-continues P (fails s e) h = tt

on_answer-Below :
    (sub : Subscription) (now : ℕ) (messages : List Value) (s : Stream)
    → s.empty_polls < 300
    → IfContinues (Below 300) (on_answer sub now messages s)
on_answer-Below sub now [] s h =
    weaken (Polls (suc s.empty_polls)) (Below 300) _ (λ t p. omega (arith, p))
      (on_empty-Polls sub s h)
on_answer-Below sub now (m ∷ ms) s h =
    weaken (Polls 0) (Below 300) _ (λ t p. omega (arith, p)) (on_messages-Polls sub now (m ∷ ms) s)

answered-Below :
    (sub : Subscription) (now : ℕ) (s : Stream) (answer : Result Value)
    → s.empty_polls < 300
    → IfContinues (Below 300) (answered sub now s answer)
unfolding answered
answered-Below sub now s (ok v) h = on_answer-Below sub now (messages_of v) s h
answered-Below sub now s (err e) h = over-continues (Below 300) _ (on_error-over sub e s)

turn-Below :
    (sub : Subscription) (poll : Poll) (s : Stream)
    → s.empty_polls < 300
    → IfContinues (Below 300) (turn sub poll s)
unfolding turn
turn-Below sub poll s h = answered-Below sub poll.now _ _ h

-- Whatever the stream has asked for so far, tapd answers with a list of messages that is empty.
abbrev pub IsIdle : Subscription → Poll → Type 0
IsIdle sub poll =
    (s : Stream) → (v : Value) × ((ask sub s poll.client).1 ≡ ok v) × (messages_of v ≡ [])

turn-idle :
    (sub : Subscription) (poll : Poll) (s : Stream)
    → IsIdle sub poll
    → s.empty_polls < 300
    → IfContinues (Polls (suc s.empty_polls)) (turn sub poll s)
unfolding turn answered
turn-idle sub poll s idle h =
    let (v, e, none_there) = idle s in
    rw (e, none_there)
      (on_empty-Polls sub (record s { requests = s.requests ++ (ask sub s poll.client).0 }) h)

is_over-and_next :
    (P : Stream → Type 0) (t : Turn) (f : Stream → Turn)
    → IfContinues P t
    → ((s : Stream) → P s → is_over (f s) ≡ true)
    → is_over (t and_next f) ≡ true
is_over-and_next P (continues s) f p next = next s p
is_over-and_next P (breaks s) f p next = refl
is_over-and_next P (fails s e) f p next = refl

idle_over :
    (sub : Subscription) (idle : List Poll) (s : Stream)
    → All (IsIdle sub) idle
    → s.empty_polls < 300
    → 300 ≤ s.empty_polls + length idle
    → is_over (poll_all sub idle s) ≡ true
unfolding poll_all
idle_over sub [] s all h long = absurd (omega arith)
idle_over sub (poll ∷ idle) s all h long =
    is_over-and_next (Polls (suc s.empty_polls)) (turn sub poll s) _ (turn-idle sub poll s all.0 h)
      (λ s' p. idle_over sub idle s' all.1 (omega (arith, p)) (omega (arith, p, long)))

-- A stream whose counter of empty polls is below 300 has ended once tapd has had no message at
-- three hundred polls in a row, whatever the polls before them brought.
pub poll_all-ends :
    (sub : Subscription) (busy idle : List Poll) (s : Stream)
    → s.empty_polls < 300
    → All (IsIdle sub) idle
    → 300 ≤ length idle
    → is_over (poll_all sub (busy ++ idle) s) ≡ true
unfolding poll_all
poll_all-ends sub [] idle s h all long = idle_over sub idle s all h (omega (arith, long))
poll_all-ends sub (poll ∷ busy) idle s h all long =
    is_over-and_next (Below 300) (turn sub poll s) _ (turn-Below sub poll s h)
      (λ s' p. poll_all-ends sub busy idle s' p all long)
