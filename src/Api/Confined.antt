-- ===== src/Api/Confined.antt =====
-- Where the requests of a handler go: below the prefix of tapd's interface, whatever the parameters.
use taproot_assets_rest_gate.Prelude.{
  ℕ, ◌+◌, ◌*◌, ◌-◌, Text, ascii, Bool, true, ◌||◌, some, List, [], ◌∷◌, ◌++◌, all, is_hex,
  is_alphanumeric, is_some, length, all-append, ◌==◌, nat_key, ◌≡◌, ◌⊎◌, inl, inr, refl, arith,
  Option-cases, Bool-cases,
}
use taproot_assets_rest_gate.Prelude.Decimal.{decimal}
use taproot_assets_rest_gate.Json.{Value}
use taproot_assets_rest_gate.Error.{
  Result, ok, err, AppError, Result-cases, invalid_input, ◌>>◌, HttpResponse, status_code,
}
use taproot_assets_rest_gate.Api.Params.{
  validate_hex_param, validate_group_key, validate_integer_param, parse_u64, parse_digits,
}
use taproot_assets_rest_gate.Api.Params.Accepted.{
  IsHexParam, validate_hex_param_iff, validate_group_key_iff,
}
use taproot_assets_rest_gate.Api.Upstream.{Call, Method, Request, Client, handle_result, with_query}
use taproot_assets_rest_gate.Api.Endpoint.{Gateway, ask, ask-sent, answered, guarded}

-- Letters, digits, `/`, `-` and `+`: no dot, no escape, and nothing that starts a query or a
-- fragment.
abbrev pub is_path_char : ℕ → Bool
is_path_char c = is_alphanumeric c || c == b'/' || c == b'-' || c == b'+'

-- Where a client's request came in, below `/v1/taproot-assets`.
pub record Place : Type 0 where
  pub method : Method
  pub path : Text
  pub query : Text

-- The request goes to the same place at tapd, with the gateway's macaroon, and its path is harmless.
abbrev pub Relays : Gateway → Place → Request → Type 0
Relays g place q =
    (q.method ≡ place.method)
    × (q.url ≡ with_query (g.base_url ++ (ascii "/v1/taproot-assets" ++ place.path)) place.query)
    × (q.macaroon ≡ g.macaroon_hex)
    × (all is_path_char place.path ≡ true)

-- One request was sent, which is relayed, or the parameters are not acceptable, nothing was sent and
-- the answer is 400.
abbrev pub Confines : Gateway → Place → Type 0 → List Request × HttpResponse → Type 0
Confines g place Acceptable result =
    ((q : Request) × (result.0 ≡ q ∷ []) × Relays g place q)
    ⊎ ((Acceptable → ⊥) × (result.0 ≡ []) × (result.1.status ≡ 400))

-- What the checks are for: a group key has 64 or 66 hexadecimal digits, and an index is a number of
-- 64 bits.
abbrev pub IsGroupKey : Text → Type 0
IsGroupKey value = ((length value ≡ 64) ⊎ (length value ≡ 66)) × (all is_hex value ≡ true)

abbrev pub IsIndex : Text → Type 0
IsIndex value = is_some (parse_u64 value) ≡ true

-- A check fails only as invalid input.
abbrev pub IsCheck : Result (Unit {0}) → Type 0
IsCheck r = (e : AppError) → r ≡ err e → (m : Text) × (e ≡ invalid_input m)

pub validate_hex_param-IsCheck : (value : Text) → IsCheck (validate_hex_param value)
unfolding validate_hex_param
validate_hex_param-IsCheck value e h = (ascii "Invalid path parameter: " ++ value, ground arith)

pub validate_integer_param-IsCheck : (value : Text) → IsCheck (validate_integer_param value)
unfolding validate_integer_param
validate_integer_param-IsCheck value e h =
    (ascii "Invalid integer parameter: " ++ value, ground arith)

pub validate_group_key-IsCheck : (value : Text) → IsCheck (validate_group_key value)
unfolding validate_group_key
validate_group_key-IsCheck value e h = elim (Result-cases (validate_hex_param value)) [
  | inl (u, f) ↦ (
    ascii "Invalid group key: expected 64 or 66 hex characters, got " ++ decimal (length value),
    ground arith,
  )
  | inr (e', f) ↦ let (m, p) = validate_hex_param-IsCheck value e' f in (m, ground arith)
]

pub then-IsCheck : (a b : Result (Unit {0})) → IsCheck a → IsCheck b → IsCheck (a >> b)
then-IsCheck (ok u) b f g e h = g e h
then-IsCheck (err d) b f g e h = f e h

pub then-ok : (a b : Result (Unit {0})) → (a >> b) ≡ ok tt → (a ≡ ok tt) × (b ≡ ok tt)
then-ok (ok u) b h = (refl, h)
then-ok (err d) b h = cc

-- The characters of a checked parameter are those of a path.
all_mono :
    (p q : ℕ → Bool)
    → ((c : ℕ) → p c ≡ true → q c ≡ true)
    → (t : Text) → all p t ≡ true
    → all q t ≡ true
unfolding all
all_mono p q f [] h = refl
all_mono p q f (c ∷ t) h = ground (arith, f c, all_mono p q f t)

pub hex_path : (value : Text) → validate_hex_param value ≡ ok tt → all is_path_char value ≡ true
hex_path value h =
    all_mono is_hex is_path_char (λ c. ground arith) value ((validate_hex_param_iff value).0 h).1

pub group_key_path :
    (value : Text) → validate_group_key value ≡ ok tt → all is_path_char value ≡ true
group_key_path value h =
    all_mono is_hex is_path_char (λ c. ground arith) value ((validate_group_key_iff value).0 h).1

digits_path :
    (acc : ℕ) (value : Text) (n : ℕ)
    → parse_digits acc value ≡ some n
    → all is_path_char value ≡ true
unfolding parse_digits all
digits_path acc [] n h = refl
digits_path acc (c ∷ value) n h = ground (arith, digits_path (acc * 10 + (c - b'0')) value n)

parse_u64_path : (value : Text) (n : ℕ) → parse_u64 value ≡ some n → all is_path_char value ≡ true
unfolding parse_u64 all
parse_u64_path [] n h = refl
parse_u64_path (c ∷ value) n h = elim (Bool-cases (c == b'+')) [
  | inl y ↦ ground (arith, digits_path 0 value n)
  | inr m ↦ digits_path 0 (c ∷ value) n (rw m at h)
]

pub integer_path :
    (value : Text) → validate_integer_param value ≡ ok tt → all is_path_char value ≡ true
unfolding validate_integer_param
integer_path value h = elim (Option-cases (parse_u64 value)) [
  | inl e ↦ absurd (ground arith)
  | inr (n, e) ↦ parse_u64_path value n e
]

pub IsHexParam-ok : (value : Text) → IsHexParam value → validate_hex_param value ≡ ok tt
IsHexParam-ok value h = (validate_hex_param_iff value).1 h

pub IsGroupKey-ok : (value : Text) → IsGroupKey value → validate_group_key value ≡ ok tt
IsGroupKey-ok value h = (validate_group_key_iff value).1 h

pub IsIndex-ok : (value : Text) → IsIndex value → validate_integer_param value ≡ ok tt
unfolding validate_integer_param
IsIndex-ok value h = elim (Option-cases (parse_u64 value)) [
  | inl e ↦ absurd (ground arith)
  | inr (n, e) ↦ rw (e, validate_integer_param) refl
]

pub ok-then : (a b : Result (Unit {0})) → a ≡ ok tt → b ≡ ok tt → (a >> b) ≡ ok tt
ok-then (ok u) b h k = k
ok-then (err e) b h k = cc

-- A handler that checks and asks: the check passes what is acceptable, and its request is relayed
-- where it passes.
pub guarded-Confines :
    (g : Gateway) (place : Place) (Acceptable : Type 0) (check : Result (Unit {0})) (q : Request)
    → (client : Client) → IsCheck check
    → (Acceptable → check ≡ ok tt)
    → (check ≡ ok tt → Relays g place q)
    → Confines g place Acceptable (guarded check (ask g q) g client)
unfolding guarded answered handle_result status_code
guarded-Confines g place Acceptable (ok u) q client c passes f =
    inl (q, ask-sent g q client, f refl)
guarded-Confines g place Acceptable (err e) q client c passes f =
    inr ((λ a. let refused = passes a in cc), refl, rw (c e refl).1 refl)

pub answered-Confines :
    (g : Gateway) (place : Place) (call : Call Value) (q : Request) (client : Client)
    → (call client).0 ≡ q ∷ []
    → Relays g place q
    → Confines g place (Unit {0}) (answered call g client)
unfolding answered
answered-Confines g place call q client sent f = inl (q, sent, f)

pub path_append :
    (a b : Text)
    → all is_path_char a ≡ true
    → all is_path_char b ≡ true
    → all is_path_char (a ++ b) ≡ true
path_append a b h k = ground (arith, all-append is_path_char a b)
