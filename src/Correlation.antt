-- ===== src/Correlation.antt =====
-- src/websocket/correlation.rs: the requests that await an answer, and the correlation identifiers
-- that are put into messages and read from them.
pub mod Unique
pub mod Cleanup
pub mod Messages
use taproot_assets_rest_gate.Prelude.{
  ℕ, suc, ◌+◌, ◌-◌, ◌%◌, ◌^◌, Text, ascii, Bool, true, false, not, ◌||◌, Option, none, some, List,
  [], ◌∷◌, ◌++◌, Map, get, insert, remove, retain, values, length, if◌then◌else◌, ltb, secs,
  next_u64, text_key, contains,
}
use taproot_assets_rest_gate.Prelude.Decimal.{decimal}
use taproot_assets_rest_gate.Json
use taproot_assets_rest_gate.Json.{
  Value, boolean, string, object, Fields, field, end, lookup, as_str, as_object, Serde, ◌and_then◌,
}

pub record PendingRequest : Type 0 where
  pub correlation_id : Text
  pub original_message : Text
  pub sent_at : ℕ
  pub client_session_id : Text

-- The session's UUID is kept as the text that it displays.
pub record CorrelationTracker : Type 0 where
  pub pending_requests : Map Text PendingRequest
  pub next_correlation_id : ℕ
  pub session_id : Text

abbrev pub correlation_timeout : ℕ
correlation_timeout = secs 60

abbrev pub new : Text → CorrelationTracker
new session_id = record { pending_requests = []; next_correlation_id = 1; session_id = session_id }

-- `corr_{}_{}_{}`.
unfoldable pub correlation_id_text : Text → ℕ → ℕ → Text
correlation_id_text session_id id timestamp =
    ascii "corr_" ++ (session_id ++ (b'_' ∷ (decimal id ++ (b'_' ∷ decimal timestamp))))

-- `timestamp` is the time in milliseconds, or 0 where the clock is before 1970.
unfoldable pub generate_correlation_id : ℕ → CorrelationTracker → CorrelationTracker × Text
generate_correlation_id timestamp t = (
  record t { next_correlation_id = next_u64 t.next_correlation_id },
  correlation_id_text t.session_id t.next_correlation_id timestamp,
)

unfoldable pub add_pending_request : ℕ → Text → Text → CorrelationTracker → CorrelationTracker
add_pending_request now correlation_id original_message t =
    let request : PendingRequest = record {
      correlation_id = correlation_id;
      original_message = original_message;
      sent_at = now;
      client_session_id = t.session_id;
    } in
    record t { pending_requests = insert correlation_id request t.pending_requests }

unfoldable pub remove_pending_request :
    Text → CorrelationTracker → CorrelationTracker × Option PendingRequest
remove_pending_request id t =
    (record t { pending_requests = remove id t.pending_requests }, get id t.pending_requests)

-- `now.duration_since(request.sent_at) > CORRELATION_TIMEOUT`.
abbrev pub is_expired : ℕ → PendingRequest → Bool
is_expired now request = ltb correlation_timeout (now - request.sent_at)

unfoldable pub cleanup_expired_requests :
    ℕ → CorrelationTracker → CorrelationTracker × List PendingRequest
cleanup_expired_requests now t = (
  record t { pending_requests = retain (λ id r. not (is_expired now r)) t.pending_requests },
  values (retain (λ id r. is_expired now r) t.pending_requests),
)

abbrev pub pending_count : CorrelationTracker → ℕ
pending_count t = length t.pending_requests

abbrev pub correlation_key : Text
correlation_key = ascii "_correlation_id"

abbrev pub wrapped_json : Text → Value → Value
wrapped_json id v =
    object (field correlation_key (string id) (field (ascii "_original_message") v end))

abbrev pub with_id : Text → Value → Value
with_id id (object fields) = object (Json.insert correlation_key (string id) fields)
with_id id v = wrapped_json id v

abbrev pub wrapped_text : Text → Text → Value
wrapped_text id message = object (
    field correlation_key (string id) (
      field (ascii "_original_text") (string message)
        (field (ascii "_wrapped") (boolean true) end)))

unfoldable pub inject_correlation_id : Serde → Text → Text → Option Text
inject_correlation_id s message id = elim (s.from_str message) [
  | some json ↦ s.to_string (with_id id json)
  | none ↦ s.to_string (wrapped_text id message)
]

-- `a.or_else(b)`.
infixr 20 ◌or_else◌
abbrev pub ◌or_else◌ {ℓ} : {A : Type ℓ} → Option A → Option A → Option A
some a or_else b = some a
none or_else b = b

unfoldable pub id_of_fields : Fields → Option Text
id_of_fields fields =
    (lookup correlation_key fields and_then as_str)
    or_else ((lookup (ascii "correlation_id") fields or_else lookup (ascii "request_id") fields)
        and_then as_str)

unfoldable pub extract_correlation_id : Serde → Text → Option Text
extract_correlation_id s message = s.from_str message and_then as_object and_then id_of_fields

abbrev pub has : Text → Fields → Bool
has k fields = Json.contains_key k fields

abbrev pub is_request_json : Text → Value → Bool
is_request_json message (object fields) =
    has (ascii "method") fields
    || has (ascii "command") fields
    || has (ascii "action") fields
    || has (ascii "request") fields
    || contains (ascii "Request") message
    || has (ascii "endpoint") fields
    || has (ascii "path") fields
is_request_json message v = false

unfoldable pub is_request_message : Serde → Text → Bool
is_request_message s message = elim (s.from_str message) [
  | some json ↦ is_request_json message json
  | none ↦
      contains (ascii "request") message
      || contains (ascii "cmd") message
      || contains (ascii "call") message
]

abbrev pub is_response_json : Text → Value → Bool
is_response_json message (object fields) =
    has (ascii "result") fields
    || has (ascii "response") fields
    || has (ascii "data") fields
    || has (ascii "error") fields
    || has (ascii "status") fields
    || contains (ascii "Response") message
    || contains (ascii "Reply") message
is_response_json message v = false

unfoldable pub is_response_message : Serde → Text → Bool
is_response_message s message = elim (s.from_str message) [
  | some json ↦ is_response_json message json
  | none ↦
      contains (ascii "response") message
      || contains (ascii "result") message
      || contains (ascii "reply") message
]
