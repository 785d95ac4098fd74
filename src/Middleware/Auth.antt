-- ===== src/Middleware/Auth.antt =====
-- `ApiKeyAuth` of src/middleware.rs, and with it the choice that src/main.rs makes at the start.
use taproot_assets_rest_gate.Prelude.{
  Text, ascii, Bool, true, false, Option, none, some, ◌++◌, ◌≡◌, ◌⊎◌, ◌↔◌, inl, inr, refl, subst,
  arith, ◌==◌, text_key, text_eq_iff, strip_prefix, strip_prefix-append, strip_prefix_inv,
  if◌then◌else◌, Option-cases,
}
use taproot_assets_rest_gate.Config.{Environment, startup, starts, allow_insecure}

-- What is read of a request: `authorization` is the `Authorization` header where `to_str` reads it.
pub record ServiceRequest : Type 0 where
  pub path : Text
  pub authorization : Option Text

-- The inner service is called, or the answer is `AuthError`, a 401.
pub data Passage : Type 0 where
  called unauthorized : Passage

abbrev pub bearer_token : Option Text → Option Text
bearer_token none = none
bearer_token (some v) = strip_prefix (ascii "Bearer ") v

abbrev pub token_matches : Option Text → Text → Bool
token_matches none expected_key = false
token_matches (some token) expected_key = token == expected_key

unfoldable pub call : Option Text → ServiceRequest → Passage
call api_key req = if req.path == ascii "/health" then called else elim api_key [
  | none ↦ called
  | some expected_key ↦
      if token_matches (bearer_token req.authorization) expected_key then called else unauthorized
]

token_matches_iff :
    (header : Option Text) (key : Text)
    → (token_matches (bearer_token header) key ≡ true) ↔ (header ≡ some (ascii "Bearer " ++ key))
token_matches_iff none key = ground arith
token_matches_iff (some v) key = (forth (strip_prefix (ascii "Bearer ") v) refl, back)
  where
    forth :
        (t : Option Text)
        → strip_prefix (ascii "Bearer ") v ≡ t
        → token_matches t key ≡ true
        → some v ≡ some (ascii "Bearer " ++ key)
    forth none e h = ground arith
    forth (some token) e h =
        let same : token ≡ key = (text_eq_iff token key).0 h in
        cc (strip_prefix_inv (ascii "Bearer ") v token e)

    back : some v ≡ some (ascii "Bearer " ++ key) → token_matches (bearer_token (some v)) key ≡ true
    back p =
        let e : v ≡ ascii "Bearer " ++ key = ground arith in
        rw (e, strip_prefix-append (ascii "Bearer ") key) ((text_eq_iff key key).1 refl)

-- Without a key every request is admitted, with one those that carry it.
abbrev pub Admits : Option Text → ServiceRequest → Type 0
Admits none req = Unit
Admits (some key) req = req.authorization ≡ some (ascii "Bearer " ++ key)

-- A request reaches the handlers exactly when it asks for the health check, or no key is set, or
-- its header is `Bearer ` followed by the key.
pub call_iff :
    (api_key : Option Text) (req : ServiceRequest)
    → (call api_key req ≡ called) ↔ ((req.path ≡ ascii "/health") ⊎ Admits api_key req)
unfolding call
call_iff none req = ground arith
call_iff (some key) req =
    ground (arith, text_eq_iff req.path (ascii "/health"), token_matches_iff req.authorization key)

started_key :
    (env : Environment) (api_key : Option Text)
    → allow_insecure env ≡ false
    → startup env ≡ starts api_key
    → (key : Text) × (env.var (ascii "API_KEY") ≡ some key) × (api_key ≡ some key)
unfolding startup
started_key env api_key secure started = elim (Option-cases (env.var (ascii "API_KEY"))) [
  | inl e ↦ absurd (ground arith)
  | inr (key, e) ↦ (key, e, ground arith)
]

-- Where the gateway starts without ALLOW_INSECURE_NO_AUTH=true, a request that reaches a handler
-- asks for the health check or carries the API key of the environment.
pub startup_guards :
    (env : Environment) (api_key : Option Text) (req : ServiceRequest)
    → allow_insecure env ≡ false
    → startup env ≡ starts api_key
    → call api_key req ≡ called
    → (req.path ≡ ascii "/health")
      ⊎ ((key : Text) × (env.var (ascii "API_KEY") ≡ some key)
          × (req.authorization ≡ some (ascii "Bearer " ++ key)))
startup_guards env api_key req secure started reached =
    let (key, e, p) = started_key env api_key secure started in
    let reached' : call (some key) req ≡ called = subst (λ k. call k req ≡ called) p reached in
    elim ((call_iff (some key) req).0 reached') [ inl h ↦ inl h | inr h ↦ inr (key, e, h) ]
