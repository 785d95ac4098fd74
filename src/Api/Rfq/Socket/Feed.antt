-- ===== src/Api/Rfq/Socket/Feed.antt =====
-- What a client of the socket of RFQ events receives.
use taproot_assets_rest_gate.Prelude.{
  ◌≤◌, Text, ascii, Bool, true, false, Option, none, some, List, [], ◌∷◌, ◌++◌, map, length, ◌≡◌,
  refl, sym, arith, ◌∙◌, ap, if◌then◌else◌,
}
use taproot_assets_rest_gate.Json.{Value, object, end}
use taproot_assets_rest_gate.Error.{Result}
use taproot_assets_rest_gate.Api.Upstream.{Request, Client}
use taproot_assets_rest_gate.Api.Endpoint.{Gateway, endpoint, post_request, ask-sent}
use taproot_assets_rest_gate.Api.Rfq.{get_notifications}
use taproot_assets_rest_gate.Api.Rfq.Socket.{
  PollTask, polling, sleeping, stopped, telling, RfqSocket, opened, leave, hand, on_message,
  on_event, told, poll_turn, Action, client, tick, poll, step, run,
}
use taproot_assets_rest_gate.Proxy.Frames.{ClientMessage, Event, received, failed}

-- The texts among the frames.
unfoldable pub texts : List ClientMessage → List Text
texts [] = []
texts (ClientMessage.text t ∷ ms) = t ∷ texts ms
texts (ClientMessage.binary d ∷ ms) = texts ms
texts (ClientMessage.ping d ∷ ms) = texts ms
texts (ClientMessage.pong d ∷ ms) = texts ms
texts (ClientMessage.continuation d ∷ ms) = texts ms
texts (ClientMessage.close reason ∷ ms) = texts ms
texts (ClientMessage.nop ∷ ms) = texts ms

texts_append : (ms ns : List ClientMessage) → texts (ms ++ ns) ≡ texts ms ++ texts ns
unfolding texts
texts_append [] ns = refl
texts_append (ClientMessage.text t ∷ ms) ns = ap (λ r. t ∷ r) (texts_append ms ns)
texts_append (ClientMessage.binary d ∷ ms) ns = texts_append ms ns
texts_append (ClientMessage.ping d ∷ ms) ns = texts_append ms ns
texts_append (ClientMessage.pong d ∷ ms) ns = texts_append ms ns
texts_append (ClientMessage.continuation d ∷ ms) ns = texts_append ms ns
texts_append (ClientMessage.close reason ∷ ms) ns = texts_append ms ns
texts_append (ClientMessage.nop ∷ ms) ns = texts_append ms ns

append_nil {ℓ} : {A : Type ℓ} (xs : List A) → xs ++ [] ≡ xs
append_nil [] = refl
append_nil (x ∷ xs) = ap (λ r. x ∷ r) (append_nil xs)

map_append {ℓ} :
    {A B : Type ℓ} (f : A → B) (xs ys : List A) → map f (xs ++ ys) ≡ map f xs ++ map f ys
map_append f [] ys = refl
map_append f (x ∷ xs) ys = ap (λ r. f x ∷ r) (map_append f xs ys)

module _ (g : Gateway) where
  -- What the client is to be told: the opening text, and one text for each poll.
  abbrev pub feed : List (Result Value) → List Text
  feed fetched = ascii "{}" ∷ map (told g) fetched

  abbrev pub question : Result Value → Request
  question r = post_request g (endpoint g (ascii "rfq/ntfs")) (object end)

  abbrev pub Remains : PollTask → List Text → List Text → Type 0
  Remains polling log all = log ≡ all
  Remains sleeping log all = log ≡ all
  Remains (telling t) log all = log ++ t ∷ [] ≡ all
  Remains stopped log all = (rest : List Text) × (log ++ rest ≡ all) × (length rest ≤ 1)

  Remains-stopped :
      (task : PollTask) (log all : List Text) → Remains task log all → Remains stopped log all
  Remains-stopped polling log all h = ([], append_nil log ∙ h, omega arith)
  Remains-stopped sleeping log all h = ([], append_nil log ∙ h, omega arith)
  Remains-stopped (telling t) log all h = (t ∷ [], h, omega arith)
  Remains-stopped stopped log all h = h

  pub record IsFed (s : RfqSocket) : Type 0 where
    pub told_all : Remains s.poll_task (texts s.handed) (feed s.fetched)
    pub asked : s.requests ≡ map question s.fetched
    pub left : s.live ≡ false → s.poll_task ≡ stopped

  leave-IsFed : (s : RfqSocket) → IsFed s → IsFed (leave s)
  leave-IsFed s h = record {
    told_all = Remains-stopped s.poll_task (texts s.handed) (feed s.fetched) h.told_all;
    asked = h.asked;
    left = λ e. refl;
  }

  hand-IsFed :
      (m : ClientMessage) (taken : Bool) (s : RfqSocket)
      → texts (m ∷ []) ≡ []
      → IsFed s
      → IsFed (hand m taken s)
  hand-IsFed m true s silent h = record {
    told_all =
        rw
          (texts_append s.handed (m ∷ [])
            ∙ ap (λ r. texts s.handed ++ r) silent
            ∙ append_nil (texts s.handed))
          h.told_all;
    asked = h.asked;
    left = h.left;
  }
  hand-IsFed m false s silent h = leave-IsFed s h

  on_message-IsFed :
      (m : ClientMessage) (taken : Bool) (s : RfqSocket) → IsFed s → IsFed (on_message m taken s)
  unfolding on_message texts
  on_message-IsFed (ClientMessage.close reason) taken s h = leave-IsFed s h
  on_message-IsFed (ClientMessage.ping bytes) taken s h =
      hand-IsFed (ClientMessage.pong bytes) taken s refl h
  on_message-IsFed (ClientMessage.text t) taken s h = h
  on_message-IsFed (ClientMessage.binary d) taken s h = h
  on_message-IsFed (ClientMessage.pong d) taken s h = h
  on_message-IsFed (ClientMessage.continuation d) taken s h = h
  on_message-IsFed ClientMessage.nop taken s h = h

  on_event-IsFed :
      (e : Option (Event ClientMessage)) (taken : Bool) (s : RfqSocket)
      → IsFed s
      → IsFed (on_event e taken s)
  unfolding on_event
  on_event-IsFed none taken s h = leave-IsFed s h
  on_event-IsFed (some failed) taken s h = leave-IsFed s h
  on_event-IsFed (some (received m)) taken s h = on_message-IsFed m taken s h

  get_notifications-sent :
      (tapd : Client)
      → (get_notifications g tapd).0
        ≡ post_request g (endpoint g (ascii "rfq/ntfs")) (object end) ∷ []
  unfolding get_notifications
  get_notifications-sent tapd =
      ask-sent g (post_request g (endpoint g (ascii "rfq/ntfs")) (object end)) tapd

  -- One more poll is one more text to tell.
  feed_append :
      (fetched : List (Result Value)) (r : Result Value)
      → feed fetched ++ told g r ∷ [] ≡ feed (fetched ++ r ∷ [])
  feed_append fetched r = ap (λ l. ascii "{}" ∷ l) (sym (map_append (told g) fetched (r ∷ [])))

  IsFed-Remains :
      (task : PollTask) (s : RfqSocket)
      → s.poll_task ≡ task
      → IsFed s
      → Remains task (texts s.handed) (feed s.fetched)
  IsFed-Remains task s e h = rw (sym e) h.told_all

  fetch-IsFed :
      (tapd : Client) (taken : Bool) (s : RfqSocket)
      → s.poll_task ≡ polling
      → IsFed s
      → IsFed (poll_turn g polling tapd taken s)
  unfolding poll_turn
  fetch-IsFed tapd taken s e h =
      let r = (get_notifications g tapd).1 in
      record {
        told_all =
            ap (λ l. l ++ told g r ∷ []) (IsFed-Remains polling s e h) ∙ feed_append s.fetched r;
        asked =
            ap (λ l. s.requests ++ l) (get_notifications-sent tapd)
            ∙ ap (λ l. l ++ question r ∷ []) h.asked
            ∙ sym (map_append question s.fetched (r ∷ []));
        left = λ f. let over = h.left f in absurd cc;
      }

  tell-IsFed :
      (t : Text) (tapd : Client) (taken : Bool) (s : RfqSocket)
      → s.poll_task ≡ telling t
      → IsFed s
      → IsFed (poll_turn g (telling t) tapd taken s)
  unfolding poll_turn texts
  tell-IsFed t tapd true s e h = record {
    told_all = texts_append s.handed (ClientMessage.text t ∷ []) ∙ IsFed-Remains (telling t) s e h;
    asked = h.asked;
    left = λ f. let over = h.left f in absurd cc;
  }
  tell-IsFed t tapd false s e h = record {
    told_all = Remains-stopped s.poll_task (texts s.handed) (feed s.fetched) h.told_all;
    asked = h.asked;
    left = λ f. refl;
  }

  poll_turn-IsFed :
      (task : PollTask) (tapd : Client) (taken : Bool) (s : RfqSocket)
      → s.poll_task ≡ task
      → IsFed s
      → IsFed (poll_turn g task tapd taken s)
  unfolding poll_turn
  poll_turn-IsFed polling tapd taken s e h = fetch-IsFed tapd taken s e h
  poll_turn-IsFed (telling t) tapd taken s e h = tell-IsFed t tapd taken s e h
  poll_turn-IsFed sleeping tapd taken s e h = record {
    told_all = IsFed-Remains sleeping s e h;
    asked = h.asked;
    left = λ f. let over = h.left f in absurd cc;
  }
  poll_turn-IsFed stopped tapd taken s e h = h

  ping_silent : texts (ClientMessage.ping (ascii "ping") ∷ []) ≡ []
  unfolding texts
  ping_silent = refl

  either-IsFed : (b : Bool) (s t : RfqSocket) → IsFed s → IsFed t → IsFed (if b then s else t)
  either-IsFed true s t h i = h
  either-IsFed false s t h i = i

  step-IsFed : (a : Action) (s : RfqSocket) → IsFed s → IsFed (step g a s)
  unfolding step
  step-IsFed (client e taken) s h = either-IsFed s.live _ s (on_event-IsFed e taken s h) h
  step-IsFed (tick taken) s h =
      either-IsFed s.live _ s (hand-IsFed (ClientMessage.ping (ascii "ping")) taken s ping_silent h)
        h
  step-IsFed (poll tapd taken) s h = poll_turn-IsFed s.poll_task tapd taken s refl h

  run-IsFed : (actions : List Action) (s : RfqSocket) → IsFed s → IsFed (run g actions s)
  unfolding run
  run-IsFed [] s h = h
  run-IsFed (a ∷ actions) s h = run-IsFed actions (step g a s) (step-IsFed a s h)

  opened-IsFed : IsFed (opened true)
  unfolding opened texts
  opened-IsFed = record { told_all = refl; asked = refl; left = λ f. ground arith }

  -- Once the socket is left, no step changes it.
  step-left : (a : Action) (s : RfqSocket) → IsFed s → s.live ≡ false → step g a s ≡ s
  unfolding step poll_turn
  step-left (client e taken) s h f = rw f refl
  step-left (tick taken) s h f = rw f refl
  step-left (poll tapd taken) s h f = rw (h.left f) refl

  run-left :
      (actions : List Action) (s : RfqSocket) → IsFed s → s.live ≡ false → run g actions s ≡ s
  unfolding run
  run-left [] s h f = refl
  run-left (a ∷ actions) s h f = let same = step-left a s h f in rw same (run-left actions s h f)

-- However the tasks of a socket of RFQ events are scheduled, whatever tapd answers and whatever the
-- session takes, the texts that the client has been handed are `{}` and then one for each poll, in
-- order, but for the last one at most. Each poll was one request to tapd, to `/rfq/ntfs`. Once the
-- socket is left, it makes no request and hands over nothing any more.
pub feed_order :
    (g : Gateway) (actions more : List Action)
    → let s = run g actions (opened true) in
      ((rest : List Text) × (texts s.handed ++ rest ≡ feed g s.fetched) × (length rest ≤ 1))
      × (s.requests ≡ map (question g) s.fetched)
      × (s.live ≡ false → run g more s ≡ s)
feed_order g actions more =
    let s = run g actions (opened true) in
    let h = run-IsFed g actions (opened true) (opened-IsFed g) in
    (Remains-stopped g s.poll_task _ _ h.told_all, h.asked, run-left g more s h)
