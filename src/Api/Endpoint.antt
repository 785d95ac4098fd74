-- ===== src/Api/Endpoint.antt =====
-- The shape of the handlers in src/api: they check their parameters, call tapd once, and answer with
-- `handle_result`.
use taproot_assets_rest_gate.Prelude.Int.{pos}
use taproot_assets_rest_gate.Prelude.{
  ℕ, Text, ascii, Option, none, some, List, [], ◌∷◌, ◌++◌, ◌≡◌, inl, inr, arith,
}
use taproot_assets_rest_gate.Json.{Value, null, integer, array, Fields, field, of_list, Serde}
use taproot_assets_rest_gate.Error.{Result, ok, err, Http, HttpResponse}
use taproot_assets_rest_gate.Api.Upstream.{
  Request, Attempt-cases, method_get, method_post, method_delete, Call, Client, ◌>>=◌, lift, send,
  parse_upstream, handle_result,
}

-- What actix hands to every handler, and the libraries.
pub record Gateway : Type 0 where
  pub http : Http
  pub serde : Serde
  pub base_url : Text
  pub macaroon_hex : Text

abbrev pub Handler : Type 0
Handler = Gateway → Client → List Request × HttpResponse

-- `format!("{base_url}/v1/taproot-assets/…")`.
abbrev pub endpoint : Gateway → Text → Text
endpoint g path = g.base_url ++ (ascii "/v1/taproot-assets/" ++ path)

abbrev pub get_request : Gateway → Text → Request
get_request g url = record {
  method = method_get;
  url = url;
  macaroon = g.macaroon_hex;
  body = none;
}

abbrev pub delete_request : Gateway → Text → Request
delete_request g url = record {
  method = method_delete;
  url = url;
  macaroon = g.macaroon_hex;
  body = none;
}

-- With `.json(&request)`.
abbrev pub post_request : Gateway → Text → Value → Request
post_request g url body = record {
  method = method_post;
  url = url;
  macaroon = g.macaroon_hex;
  body = some body;
}

-- `.send().await.map_err(AppError::RequestError)?` and `parse_upstream`.
unfoldable pub ask : Gateway → Request → Call Value
ask g request = do response ← send request; lift (parse_upstream g.http response)

pub ask-sent : (g : Gateway) (q : Request) (client : Client) → (ask g q client).0 ≡ q ∷ []
unfolding ask send ◌>>=◌
ask-sent g q client = elim (Attempt-cases (client q)) [
  | inl (reply, e) ↦ ground arith
  | inr (failure, e) ↦ ground arith
]

unfoldable pub answered : Call Value → Handler
answered call g client = let (sent, r) = call client in (sent, handle_result g.http g.serde r)

-- `check?;` before the rest of a function.
unfoldable pub checked : {A : Type 0} → Result (Unit {0}) → Call A → Call A
checked (ok passed) call client = call client
checked (err e) call client = ([], err e)

-- A failed check is answered at once.
unfoldable pub guarded : Result (Unit {0}) → Call Value → Handler
unfolding answered
guarded (ok passed) call g client = answered call g client
guarded (err e) call g client = ([], handle_result g.http g.serde (err e))

-- Fields of a serialised struct: a field that is left out where it is `None`, or written as null.
module _ {A : Type 0} (write : A → Value) where
  abbrev pub optional : Text → Option A → Fields → Fields
  optional k none r = r
  optional k (some a) r = field k (write a) r

  abbrev pub nullable : Option A → Value
  nullable none = null
  nullable (some a) = write a

  abbrev pub written : List A → List Value
  written [] = []
  written (a ∷ r) = write a ∷ written r

  abbrev pub array_of : List A → Value
  array_of r = array (of_list (written r))

abbrev pub itself : Value → Value
itself v = v

abbrev pub number_of : ℕ → Value
number_of n = integer (pos n)
