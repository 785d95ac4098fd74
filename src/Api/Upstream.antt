-- ===== src/Api/Upstream.antt =====
-- Calls of tapd: `reqwest`'s client as a function, `parse_upstream`, `with_query` and
-- `handle_result` of src/api/mod.rs. A call returns the requests that it sent beside its result.
use taproot_assets_rest_gate.Prelude.{
  ℕ, Text, ascii, Option, none, some, List, [], ◌∷◌, ◌++◌, if◌then◌else◌, is_empty, ◌≡◌, ◌⊎◌, inl,
  inr, refl,
}
use taproot_assets_rest_gate.Json.{Value, Serde}
use taproot_assets_rest_gate.Error.{
  ReqwestError, request_error, upstream_error, Result, ok, err, Http, HttpResponse, relayed,
  status_code, display, error_object,
}

pub data Method : Type 0 where
  method_get method_post method_delete : Method

-- A request carries the macaroon in `Grpc-Metadata-macaroon`.
pub record Request : Type 0 where
  pub method : Method
  pub url : Text
  pub macaroon : Text
  pub body : Option Value

-- What an awaited operation of `reqwest` returns.
pub data Attempt (A : Type 0) : Type 0 where
  done : A → Attempt A
  failed : ReqwestError → Attempt A

pub Attempt-cases :
    {A : Type 0} (a : Attempt A) → ((v : A) × (a ≡ done v)) ⊎ ((e : ReqwestError) × (a ≡ failed e))
Attempt-cases (done v) = inl (v, refl)
Attempt-cases (failed e) = inr (e, refl)

-- An answer: its status, `text().await.ok()`, and `json().await`.
pub record Reply : Type 0 where
  pub status : ℕ
  pub text : Option Text
  pub json : Attempt Value

abbrev pub Client : Type 0
Client = Request → Attempt Reply

abbrev pub Call : Type 0 → Type 0
Call A = Client → List Request × Result A

infixl 5 ◌>>=◌ ◌>>◌
unfoldable pub ◌>>=◌ : {A B : Type 0} → Call A → (A → Call B) → Call B
◌>>=◌ m f client =
    let (sent, r) = m client in
    elim r [ ok a ↦ (let (more, r') = f a client in (sent ++ more, r')) | err e ↦ (sent, err e) ]

abbrev pub ◌>>◌ : {B : Type 0} → Call (Unit {0}) → Call B → Call B
m >> k = m >>= λ _. k

-- A step that makes no request.
abbrev pub lift : {A : Type 0} → Result A → Call A
lift r client = ([], r)

abbrev pub attempt : Attempt Reply → Result Reply
attempt (done reply) = ok reply
attempt (failed e) = err (request_error e)

-- `.send().await.map_err(AppError::RequestError)?`.
unfoldable pub send : Request → Call Reply
send request client = (request ∷ [], attempt (client request))

abbrev pub unwrap_or_default : Option Text → Text
unwrap_or_default none = []
unwrap_or_default (some t) = t

abbrev pub json_result : Attempt Value → Result Value
json_result (done v) = ok v
json_result (failed e) = err (request_error e)

unfoldable pub parse_upstream : Http → Reply → Result Value
parse_upstream h reply =
    if h.is_success reply.status
    then json_result reply.json
    else err (upstream_error reply.status (unwrap_or_default reply.text))

unfoldable pub with_query : Text → Text → Text
with_query url query = if is_empty query then url else url ++ (ascii "?" ++ query)

unfoldable pub handle_result : Http → Serde → Result Value → HttpResponse
unfolding relayed
handle_result h s (ok value) = record { status = 200; body = value }
handle_result h s (err (upstream_error status body)) = relayed h s status body
handle_result h s (err e) = record { status = status_code h e; body = error_object (display e) }
