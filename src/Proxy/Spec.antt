-- ===== src/Proxy/Spec.antt =====
-- What the proxy promises of each direction: two queues, which end at the first frame that ends
-- the session, and the relation between a message as it is read and as it is sent.
use taproot_assets_rest_gate.Prelude.{
  Text, List, [], ◌∷◌, ◌++◌, none, some, length, if◌then◌else◌, ltb, ◌≡◌, ◌⊎◌, arith,
}
use taproot_assets_rest_gate.Json.{Serde}
use taproot_assets_rest_gate.Correlation.{inject_correlation_id}
use taproot_assets_rest_gate.Proxy.Frames.{
  ClientMessage, BackendMessage, Event, received, failed, max_message_size,
}

-- The messages for tapd that a client's stream stands for, in their order.
unfoldable pub for_backend : List (Event ClientMessage) → List BackendMessage
for_backend [] = []
for_backend (failed ∷ es) = []
for_backend (received (ClientMessage.text t) ∷ es) =
    let rest = for_backend es in
    if ltb max_message_size (length t) then [] else BackendMessage.text t ∷ rest
for_backend (received (ClientMessage.binary d) ∷ es) =
    let rest = for_backend es in
    if ltb max_message_size (length d) then [] else BackendMessage.binary d ∷ rest
for_backend (received (ClientMessage.close reason) ∷ es) = BackendMessage.close none ∷ []
for_backend (received (ClientMessage.ping d) ∷ es) = BackendMessage.ping d ∷ for_backend es
for_backend (received (ClientMessage.pong d) ∷ es) = BackendMessage.pong d ∷ for_backend es
for_backend (received (ClientMessage.continuation d) ∷ es) = for_backend es
for_backend (received ClientMessage.nop ∷ es) = for_backend es

-- The messages for the client that a stream of tapd stands for.
unfoldable pub for_client : List (Event BackendMessage) → List ClientMessage
for_client [] = []
for_client (failed ∷ es) = []
for_client (received (BackendMessage.text t) ∷ es) = ClientMessage.text t ∷ for_client es
for_client (received (BackendMessage.binary d) ∷ es) = ClientMessage.binary d ∷ for_client es
for_client (received (BackendMessage.close reason) ∷ es) = []
for_client (received (BackendMessage.ping d) ∷ es) = ClientMessage.ping d ∷ for_client es
for_client (received (BackendMessage.pong d) ∷ es) = ClientMessage.pong d ∷ for_client es
for_client (received (BackendMessage.frame d) ∷ es) = for_client es

-- A message is sent as it was read, or it is a text with an identifier injected.
abbrev pub Carries : Serde → BackendMessage → BackendMessage → Type 0
Carries s m original =
    (m ≡ original)
    ⊎ ((t id modified : Text) × (original ≡ BackendMessage.text t)
        × (m ≡ BackendMessage.text modified)
        × (inject_correlation_id s t id ≡ some modified))

-- `xs` stands for the first items of `ys`, one for one, and `rest` are the items after them.
module _ {A B : Type 0} (R : A → B → Type 0) where
  abbrev pub Leaves : List A → List B → List B → Type 0
  Leaves [] ys rest = ys ≡ rest
  Leaves (x ∷ xs) [] rest = ⊥
  Leaves (x ∷ xs) (y ∷ ys) rest = R x y × Leaves xs ys rest

  pub Leaves-snoc :
      (xs : List A) (ys : List B) (x : A) (y : B) (rest : List B)
      → Leaves xs ys (y ∷ rest)
      → R x y
      → Leaves (xs ++ x ∷ []) ys rest
  Leaves-snoc [] [] x y rest h r = cc
  Leaves-snoc [] (z ∷ zs) x y rest h r = ground arith
  Leaves-snoc (w ∷ ws) [] x y rest h r = h
  Leaves-snoc (w ∷ ws) (z ∷ zs) x y rest h r = (h.0, Leaves-snoc ws zs x y rest h.1 r)
