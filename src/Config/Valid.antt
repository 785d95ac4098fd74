-- ===== src/Config/Valid.antt =====
-- What a loaded configuration satisfies.
use taproot_assets_rest_gate.Prelude.{
  ◌≤◌, Text, ascii, true, false, some, List, [], ◌∷◌, All, ◌≡◌, ◌⊎◌, ◌↔◌, inl, inr, refl, arith,
  is_empty, contains, starts_with, text_key, text_eq, text_eq_iff, Bool-cases, Option-cases,
}
use taproot_assets_rest_gate.Error.{ok}
use taproot_assets_rest_gate.Config.{
  Config, Environment, validate_origins, validate, load, settings, bool_or, var_or,
}

abbrev pub IsOrigin : Text → Type 0
IsOrigin origin =
    (starts_with (ascii "http://") origin ≡ true) ⊎ (starts_with (ascii "https://") origin ≡ true)

pub record IsValid (c : Config) : Type 0 where
  pub host_colon : contains (ascii ":") c.taproot_assets_host ≡ true
  pub address_colon : contains (ascii ":") c.server_address ≡ true
  pub timeout_pos : 1 ≤ c.request_timeout_secs
  pub timeout_le : c.request_timeout_secs ≤ 300
  pub rate_pos : 1 ≤ c.rate_limit_per_minute
  pub rate_le : c.rate_limit_per_minute ≤ 10000
  pub poll_pos : 1 ≤ c.rfq_poll_interval_secs
  pub poll_le : c.rfq_poll_interval_secs ≤ 60
  pub origins : All IsOrigin c.cors_origins

-- The test for an empty origin, and that for an empty host, are implied by the others.
not-IsOrigin_empty : (origin : Text) → is_empty origin ≡ true → ¬ IsOrigin origin
unfolding starts_with
not-IsOrigin_empty [] h = ground arith
not-IsOrigin_empty (c ∷ cs) h = ground arith

not-contains_empty : (host : Text) → is_empty host ≡ true → contains (ascii ":") host ≡ false
unfolding contains starts_with
not-contains_empty [] h = refl
not-contains_empty (c ∷ cs) h = ground arith

validate_origins_iff :
    (origins : List Text) → (validate_origins origins ≡ ok tt) ↔ All IsOrigin origins
unfolding validate_origins
validate_origins_iff [] = ground arith
validate_origins_iff (origin ∷ rest) = elim (Bool-cases (is_empty origin)) [
  | inl e ↦ ground (arith, not-IsOrigin_empty origin e)
  | inr n ↦ rw n (ground (arith, validate_origins_iff rest))
]

-- A configuration passes the validation exactly when both addresses hold a colon, the three numbers
-- are in their ranges, and every origin starts with `http://` or `https://`.
validate_iff : (c : Config) → (validate c ≡ ok tt) ↔ IsValid c
unfolding validate
validate_iff c = (
  (λ h. ground (arith, validate_origins_iff c.cors_origins)),
  (λ v.
      ground
        (arith, validate_origins_iff c.cors_origins, not-contains_empty c.taproot_assets_host)),
)

load_inv :
    (env : Environment) (c : Config)
    → load env ≡ ok c
    → (p : Text) × (q : Text) × (c ≡ settings env p q) × (validate (settings env p q) ≡ ok tt)
unfolding load
load_inv env c h = (
  var_or env (ascii "TAPD_MACAROON_PATH") [],
  var_or env (ascii "LND_MACAROON_PATH") [],
  ground arith,
  ground arith,
)

-- A variable that names an existing file.
abbrev pub IsFile : Environment → Text → Text → Type 0
IsFile env name path = (env.var name ≡ some path) × (env.exists path ≡ true)

load_files :
    (env : Environment) (c : Config)
    → load env ≡ ok c
    → IsFile env (ascii "TAPD_MACAROON_PATH") c.macaroon_path
      × IsFile env (ascii "LND_MACAROON_PATH") c.lnd_macaroon_path
unfolding load settings
load_files env c h = elim (Option-cases (env.var (ascii "TAPD_MACAROON_PATH"))) [
  | inl e ↦ absurd (ground arith)
  | inr (p, e) ↦ elim (Option-cases (env.var (ascii "LND_MACAROON_PATH"))) [
    | inl f ↦ absurd (ground arith)
    | inr (q, f) ↦ ground arith
  ]
]

bool_or-false : (t : Text) → (bool_or t true ≡ false) ↔ (t ≡ ascii "false")
unfolding bool_or
bool_or-false t = elim (Bool-cases (text_eq t (ascii "true"))) [
  | inl y ↦ let e : t ≡ ascii "true" = (text_eq_iff t (ascii "true")).0 y in rw e (ground arith)
  | inr n ↦ rw n (ground (arith, text_eq_iff t (ascii "false")))
]

tls_verify-settings :
    (env : Environment) (p q : Text)
    → ((settings env p q).tls_verify ≡ false)
      ↔ (env.var (ascii "TLS_VERIFY") ≡ some (ascii "false"))
unfolding settings
tls_verify-settings env p q = elim (Option-cases (env.var (ascii "TLS_VERIFY"))) [
  | inl e ↦ rw e (unfold bool_or text_eq in ground arith)
  | inr (t, e) ↦ rw e (ground (arith, bool_or-false t))
]

-- A configuration that is loaded names the two macaroon files, which exist. Both of its addresses hold
-- a colon, its three numbers are in their ranges, each of its origins starts with `http://` or
-- `https://`, and TLS verification is off only where TLS_VERIFY is exactly "false".
pub load_safe :
    (env : Environment) (c : Config)
    → load env ≡ ok c
    → IsValid c
      × IsFile env (ascii "TAPD_MACAROON_PATH") c.macaroon_path
      × IsFile env (ascii "LND_MACAROON_PATH") c.lnd_macaroon_path
      × ((c.tls_verify ≡ false) ↔ (env.var (ascii "TLS_VERIFY") ≡ some (ascii "false")))
load_safe env c h =
    let (p, q, e, v) = load_inv env c h in
    let (tapd, lnd) = load_files env c h in
    let (valid, tls) = loaded p q e v in (valid, tapd, lnd, tls)
  where
    loaded :
        (p q : Text)
        → c ≡ settings env p q
        → validate (settings env p q) ≡ ok tt
        → IsValid c
          × ((c.tls_verify ≡ false) ↔ (env.var (ascii "TLS_VERIFY") ≡ some (ascii "false")))
    loaded p q e v = rw e ((validate_iff (settings env p q)).0 v, tls_verify-settings env p q)
