-- ===== src/Middleware/RequestId.antt =====
-- `RequestIdMiddleware` of src/middleware.rs: a fresh UUID is left with the request, and is a header
-- of its response. The tracing span is left out.
use taproot_assets_rest_gate.Prelude.{Text, ascii, Option, some, Map, insert, text_key}
use taproot_assets_rest_gate.Crypto.{Parsed, parsed, rejected}

-- What the later services find: the request, and the text among its extensions, which are kept by
-- their type.
pub record Extended (A : Type 0) : Type 0 where
  pub request : A
  pub extension : Option Text

-- A response with its headers, each of which has one value after it is inserted.
pub record ServiceResponse (B : Type 0) : Type 0 where
  pub response : B
  pub headers : Map Text Text

abbrev pub with_request_id :
    {B : Type 0} → Text → Parsed (ServiceResponse B) → Parsed (ServiceResponse B)
with_request_id request_id (rejected e) = rejected e
with_request_id request_id (parsed res) =
    parsed (record res { headers = insert (ascii "x-request-id") request_id res.headers })

-- An error of the service has no header.
unfoldable pub call :
    {A B : Type 0}
    → Text
    → (Extended A → Parsed (ServiceResponse B))
    → Extended A
    → Parsed (ServiceResponse B)
call request_id service req =
    with_request_id request_id (service (record req { extension = some request_id }))
