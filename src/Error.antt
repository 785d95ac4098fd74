-- ===== src/Error.antt =====
-- src/error.rs: the errors of the gateway and the HTTP responses that they become.
use taproot_assets_rest_gate.Prelude.{
  ℕ, ◌≤◌, ◌<◌, Text, ascii, Bool, true, false, Option, none, some, ◌++◌, if◌then◌else◌, ◌≡◌, refl,
  ◌⊎◌, inl, inr, ◌↔◌,
}
use taproot_assets_rest_gate.Prelude.Decimal.{decimal}
use taproot_assets_rest_gate.Json.{Value, string, object, field, end, Serde}

-- What the code reads of a `reqwest::Error`.
pub record ReqwestError : Type 0 where
  pub is_timeout : Bool
  pub is_connect : Bool
  pub shown : Text

-- The other library errors are kept by the text that they display.
pub data AppError : Type 0 where
  request_error : ReqwestError → AppError
  json_error io_error hex_error env_var_error : Text → AppError
  validation_error invalid_input serialization_error : Text → AppError
  web_socket_error web_socket_proxy_error database_error : Text → AppError
  upstream_error : ℕ → Text → AppError

pub data Result {ℓ} (A : Type ℓ) : Type ℓ where
  err : AppError → Result A
  ok : A → Result A

-- The operator `?`: an error ends the function.
infixl 5 ◌>>=◌
abbrev pub ◌>>=◌ : {A B : Type 0} → Result A → (A → Result B) → Result B
ok value >>= rest = rest value
err failure >>= rest = err failure

-- `ok_or_else`.
abbrev pub ok_or {ℓ} : {A : Type ℓ} → Option A → AppError → Result A
ok_or none e = err e
ok_or (some a) e = ok a

abbrev pub is_ok {ℓ} : {A : Type ℓ} → Result A → Bool
is_ok (ok a) = true
is_ok (err e) = false

infixl 5 ◌>>◌
abbrev pub ◌>>◌ : {B : Type 0} → Result (Unit {0}) → Result B → Result B
checked >> rest = checked >>= λ passed. rest

-- The `http` crate: which numbers `StatusCode::from_u16` takes, and `is_success`.
pub record Http : Type 0 where
  pub from_u16_ok : ℕ → Bool
  pub is_success : ℕ → Bool

-- What its documentation says of them.
pub record HttpLaws (h : Http) : Type 0 where
  pub success_iff : (s : ℕ) → (h.is_success s ≡ true) ↔ ((200 ≤ s) × (s < 300))
  pub from_u16_iff : (s : ℕ) → (h.from_u16_ok s ≡ true) ↔ ((100 ≤ s) × (s < 1000))

abbrev pub bad_gateway : ℕ
bad_gateway = 502

abbrev pub gateway_timeout : ℕ
gateway_timeout = 504

abbrev pub internal_server_error : ℕ
internal_server_error = 500

abbrev pub bad_request : ℕ
bad_request = 400

-- `StatusCode::from_u16(status).unwrap_or(BAD_GATEWAY)`.
unfoldable pub relayed_status : Http → ℕ → ℕ
relayed_status h s = if h.from_u16_ok s then s else bad_gateway

unfoldable pub status_code : Http → AppError → ℕ
unfolding relayed_status
status_code h (validation_error m) = bad_request
status_code h (invalid_input m) = bad_request
status_code h (web_socket_proxy_error m) = bad_gateway
status_code h (upstream_error s body) = relayed_status h s
status_code h (request_error e) =
    if e.is_timeout
    then gateway_timeout
    else if e.is_connect
    then bad_gateway
    else internal_server_error
status_code h e = internal_server_error

-- The `#[error("…")]` attributes.
unfoldable pub display : AppError → Text
unfolding decimal
display (request_error e) = ascii "Request error: " ++ e.shown
display (json_error m) = ascii "JSON error: " ++ m
display (io_error m) = ascii "IO error: " ++ m
display (hex_error m) = ascii "Hex error: " ++ m
display (env_var_error m) = ascii "Environment variable error: " ++ m
display (validation_error m) = ascii "Validation error: " ++ m
display (invalid_input m) = ascii "Invalid input: " ++ m
display (serialization_error m) = ascii "Serialization error: " ++ m
display (web_socket_error m) = ascii "WebSocket error: " ++ m
display (web_socket_proxy_error m) = ascii "WebSocket proxy error: " ++ m
display (database_error m) = ascii "Database error: " ++ m
display (upstream_error s body) = ascii "Upstream returned " ++ (decimal s ++ (ascii ": " ++ body))

pub record HttpResponse : Type 0 where
  pub status : ℕ
  pub body : Value

abbrev pub error_object : Text → Value
error_object m = object (field (ascii "error") (string m) end)

-- tapd's own document, or its text under `error`.
unfoldable pub relayed : Http → Serde → ℕ → Text → HttpResponse
unfolding relayed_status
relayed h s status body = elim (s.from_str body) [
  | some json ↦ record { status = relayed_status h status; body = json }
  | none ↦ record { status = relayed_status h status; body = error_object body }
]

abbrev pub request_message : ReqwestError → Text × Text
request_message e =
    if e.is_timeout
    then (ascii "Request timed out", ascii "timeout")
    else if e.is_connect
    then (ascii "Service temporarily unavailable", ascii "service_unavailable")
    else (ascii "An error occurred processing your request", ascii "request_error")

unfoldable pub public_message : AppError → Text × Text
public_message (validation_error m) = (m, ascii "validation_error")
public_message (invalid_input m) = (m, ascii "invalid_input")
public_message (request_error e) = request_message e
public_message (json_error m) = (ascii "Invalid JSON format", ascii "json_error")
public_message (io_error m) = (ascii "Internal server error", ascii "internal_error")
public_message (hex_error m) = (ascii "Invalid hex encoding", ascii "encoding_error")
public_message (env_var_error m) = (ascii "Server configuration error", ascii "config_error")
public_message (serialization_error m) =
    (ascii "Data serialization error", ascii "serialization_error")
public_message (web_socket_error m) = (ascii "WebSocket connection error", ascii "websocket_error")
public_message (web_socket_proxy_error m) = (ascii "WebSocket proxy error", ascii "proxy_error")
public_message (database_error m) = (ascii "Database operation failed", ascii "database_error")
public_message (upstream_error s b) = (ascii "Upstream request failed", ascii "upstream_error")

-- The response to an error that a handler returns to actix.
unfoldable pub error_response : Http → Serde → AppError → HttpResponse
unfolding relayed status_code public_message
error_response h s (upstream_error status body) = relayed h s status body
error_response h s e =
    let (message, kind) = public_message e in
    record {
      status = status_code h e;
      body =
          object (field (ascii "error") (string message) (field (ascii "type") (string kind) end));
    }

pub Result-cases {ℓ} :
    {A : Type ℓ} (r : Result A) → ((a : A) × (r ≡ ok a)) ⊎ ((e : AppError) × (r ≡ err e))
Result-cases (ok a) = inl (a, refl)
Result-cases (err e) = inr (e, refl)
