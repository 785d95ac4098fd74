-- ===== src/Api/Addresses.antt =====
-- src/api/addresses.rs: the calls of tapd about addresses, and their handlers.
pub mod Guard
pub mod Pages
use taproot_assets_rest_gate.Prelude.{
  ℕ, Text, ascii, Bool, Option, none, some, List, [], ◌∷◌, ◌++◌, Map, get, if◌then◌else◌, is_empty,
  take, drop, text_key, ◌≡◌, inl, inr, arith,
}
use taproot_assets_rest_gate.Prelude.Decimal.{decimal}
use taproot_assets_rest_gate.Json.{Value, string, object, field, end}
use taproot_assets_rest_gate.Error.{
  Result, ok, err, ReqwestError, AppError, request_error, validation_error, HttpResponse,
  status_code, display,
}
use taproot_assets_rest_gate.Api.Bodies.Addresses.{
  Addr, addr_value, NewAddrRequest, new_addr_request_value, validate, unless_blank,
}
use taproot_assets_rest_gate.Api.Upstream.{
  Request, Reply, Attempt-cases, Call, Client, ◌>>=◌, ◌>>◌, lift, send, parse_upstream,
  handle_result,
}
use taproot_assets_rest_gate.Api.Endpoint.{
  Gateway, Handler, endpoint, get_request, post_request, ask, answered, checked, nullable, array_of,
}

-- What serde reads from a document, and `reqwest`'s error for one that it cannot read.
pub record Reader : Type 0 where
  pub addr : Value → Option Addr
  pub addr_lists : Value → Option (Map Text (List Addr))
  pub mismatch : ReqwestError
  pub debug : AppError → Text

abbrev pub typed : {A : Type 0} → ReqwestError → Option A → Result A
typed mismatch none = err (request_error mismatch)
typed mismatch (some a) = ok a

abbrev pub read_as : {A : Type 0} → ReqwestError → (Value → Option A) → Result Value → Result A
read_as mismatch read (err e) = err e
read_as mismatch read (ok v) = typed mismatch (read v)

pub record AddressQueryParams : Type 0 where
  pub created_after : Option Text
  pub created_before : Option Text
  pub limit : Option ℕ
  pub offset : Option ℕ

abbrev pub part : Text → Option Text → List Text → List Text
part name none parts = parts
part name (some t) parts = (name ++ t) ∷ parts

abbrev pub shown : Option ℕ → Option Text
shown none = none
shown (some n) = some (decimal n)

unfoldable pub query_parts : AddressQueryParams → List Text
query_parts p = part (ascii "created_after=") p.created_after (
    part (ascii "created_before=") p.created_before
      (part (ascii "limit=") (shown p.limit) (part (ascii "offset=") (shown p.offset) [])))

-- `join("&")`.
unfoldable pub joined : List Text → Text
joined [] = []
joined (t ∷ []) = t
joined (t ∷ u ∷ ts) = t ++ (ascii "&" ++ joined (u ∷ ts))

abbrev pub with_parts : Text → List Text → Text
with_parts url [] = url
with_parts url (t ∷ ts) = url ++ (ascii "?" ++ joined (t ∷ ts))

unfoldable pub addrs_url : Gateway → Option AddressQueryParams → Text
addrs_url g none = endpoint g (ascii "addrs")
addrs_url g (some p) = with_parts (endpoint g (ascii "addrs")) (query_parts p)

abbrev pub skipped : Option ℕ → List Addr → List Addr
skipped none xs = xs
skipped (some n) xs = drop n xs

abbrev pub taken : Option ℕ → List Addr → List Addr
taken none xs = xs
taken (some n) xs = take n xs

-- The gateway's own pagination.
unfoldable pub page : Option AddressQueryParams → List Addr → List Addr
page none xs = xs
page (some p) xs = taken p.limit (skipped p.offset xs)

abbrev pub or_empty : Option (List Addr) → List Addr
or_empty none = []
or_empty (some xs) = xs

abbrev pub listed : Option AddressQueryParams → Result (Map Text (List Addr)) → Result (List Addr)
listed params (err e) = err e
listed params (ok m) = ok (page params (or_empty (get (ascii "addrs") m)))

unfoldable pub list_addresses : Reader → Gateway → Option AddressQueryParams → Call (List Addr)
list_addresses r g params = do
  response ← send (get_request g (addrs_url g params))
  lift (listed params (read_as r.mismatch r.addr_lists (parse_upstream g.http response)))

-- A request whose answer is an address.
unfoldable pub ask_addr : Reader → Gateway → Request → Call Addr
ask_addr r g request = do
  response ← send request
  lift (read_as r.mismatch r.addr (parse_upstream g.http response))

pub ask_addr-sent :
    (r : Reader) (g : Gateway) (q : Request) (client : Client) → (ask_addr r g q client).0 ≡ q ∷ []
unfolding ask_addr send ◌>>=◌
ask_addr-sent r g q client = elim (Attempt-cases (client q)) [
  | inl (reply, e) ↦ ground arith
  | inr (failure, e) ↦ ground arith
]

unfoldable pub create_address : Reader → Gateway → NewAddrRequest → Call Addr
unfolding checked
create_address r g request =
    checked (validate request)
      (ask_addr r g (post_request g (endpoint g (ascii "addrs")) (new_addr_request_value request)))

pub record DecodeAddrRequest : Type 0 where
  pub addr : Text

unfoldable pub decode_address : Reader → Gateway → DecodeAddrRequest → Call Addr
unfolding checked
decode_address r g request = checked (unless_blank (ascii "address cannot be empty") request.addr) (
    ask_addr r g (
      post_request g (endpoint g (ascii "addrs/decode"))
        (object (field (ascii "addr") (string request.addr) end))))

pub record ReceiveEventsRequest : Type 0 where
  pub filter_addr : Option Text
  pub filter_status : Option Text

unfoldable pub receive_events : Gateway → ReceiveEventsRequest → Call Value
receive_events g request = ask g (
    post_request g (endpoint g (ascii "addrs/receives")) (
      object (
        field (ascii "filter_addr") (nullable string request.filter_addr)
          (field (ascii "filter_status") (nullable string request.filter_status) end))))

-- An address is answered as it was read.
abbrev pub as_value : Result Addr → Result Value
as_value (err e) = err e
as_value (ok a) = ok (addr_value a)

unfoldable pub answered_addr : Call Addr → Handler
answered_addr call g client =
    let (sent, r) = call client in (sent, handle_result g.http g.serde (as_value r))

-- The handlers. `list` answers errors by itself.
abbrev list_response : Reader → Gateway → Result (List Addr) → HttpResponse
list_response r g (ok addrs) = record {
  status = 200;
  body = object (field (ascii "addrs") (array_of addr_value addrs) end);
}
list_response r g (err e) = record {
  status = status_code g.http e;
  body =
      object (
        field (ascii "error") (string (display e)) (field (ascii "type") (string (r.debug e)) end));
}

unfoldable pub list : Reader → AddressQueryParams → Handler
list r query g client =
    let (sent, result) = list_addresses r g (some query) client in (sent, list_response r g result)

unfoldable pub create : Reader → NewAddrRequest → Handler
unfolding answered_addr
create r request g = answered_addr (create_address r g request) g

unfoldable pub decode : Reader → DecodeAddrRequest → Handler
unfolding answered_addr
decode r request g = answered_addr (decode_address r g request) g

unfoldable pub receive : ReceiveEventsRequest → Handler
receive request g = answered (receive_events g request) g
