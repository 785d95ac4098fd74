-- ===== src/Config.antt =====
-- src/config.rs: the settings, from the environment, and their validation; and the choice of
-- src/main.rs whether to start without an API key.
pub mod Valid
use taproot_assets_rest_gate.Prelude.{
  trim, ℕ, ◌≤◌, Text, ascii, Bool, true, false, not, ◌&&◌, ◌||◌, Option, none, some, List, [], ◌∷◌,
  ◌++◌, map, if◌then◌else◌, is_empty, contains, starts_with, ◌==◌, nat_key, text_key, ltb, leb,
  is_upper, ◌+◌,
}
use taproot_assets_rest_gate.Error.{
  Result, ok, err, AppError, validation_error, env_var_error, ok_or, ◌>>=◌, ◌>>◌,
}
use taproot_assets_rest_gate.Api.Params.{parse_u64}

pub record Config : Type 0 where
  pub taproot_assets_host : Text
  pub macaroon_path : Text
  pub lnd_macaroon_path : Text
  pub tls_verify : Bool
  pub cors_origins : List Text
  pub server_address : Text
  pub request_timeout_secs : ℕ
  pub rate_limit_per_minute : ℕ
  pub rfq_poll_interval_secs : ℕ

abbrev pub invalid : Text → Result (Unit {0})
invalid m = err (validation_error m)

-- `if test { return Err(…) }`.
abbrev pub refuse_if : Bool → Text → Result (Unit {0})
refuse_if true m = invalid m
refuse_if false m = ok tt

-- The loop over the CORS origins.
unfoldable pub validate_origins : List Text → Result (Unit {0})
validate_origins [] = ok tt
validate_origins (origin ∷ rest) =
    let more = validate_origins rest in
    do
      refuse_if (is_empty origin) (ascii "CORS origins cannot contain empty strings")
      refuse_if
          (not (starts_with (ascii "http://") origin)
            && not (starts_with (ascii "https://") origin))
          (ascii "CORS origin must be a valid URL: " ++ origin)
      more

unfoldable pub validate : Config → Result (Unit {0})
validate c = do
  refuse_if (is_empty c.taproot_assets_host) (ascii "TAPROOT_ASSETS_HOST cannot be empty")
  refuse_if (not (contains (ascii ":") c.taproot_assets_host))
      (ascii "TAPROOT_ASSETS_HOST must include port (e.g., 127.0.0.1:8289)")
  refuse_if (not (contains (ascii ":") c.server_address))
      (ascii "SERVER_ADDRESS must include port (e.g., 127.0.0.1:8080)")
  refuse_if (c.request_timeout_secs == 0) (ascii "REQUEST_TIMEOUT_SECS must be greater than 0")
  refuse_if (ltb 300 c.request_timeout_secs)
      (ascii "REQUEST_TIMEOUT_SECS must not exceed 300 seconds")
  refuse_if (c.rate_limit_per_minute == 0) (ascii "RATE_LIMIT_PER_MINUTE must be greater than 0")
  refuse_if (ltb 10000 c.rate_limit_per_minute)
      (ascii "RATE_LIMIT_PER_MINUTE must not exceed 10000")
  refuse_if (c.rfq_poll_interval_secs == 0) (ascii "RFQ_POLL_INTERVAL_SECS must be greater than 0")
  refuse_if (ltb 60 c.rfq_poll_interval_secs)
      (ascii "RFQ_POLL_INTERVAL_SECS must not exceed 60 seconds")
  validate_origins c.cors_origins

-- The environment variables, and the file system as far as `Path::exists` asks.
pub record Environment : Type 0 where
  pub var : Text → Option Text
  pub exists : Text → Bool

abbrev pub var_or : Environment → Text → Text → Text
var_or env name d = elim (env.var name) [ none ↦ d | some v ↦ v ]

abbrev required : Environment → Text → Result Text
required env name = ok_or (env.var name) (env_var_error (ascii "environment variable not found"))

-- `parse::<bool>().unwrap_or(d)` and `parse::<u64>().unwrap_or(d)`.
unfoldable pub bool_or : Text → Bool → Bool
bool_or t d = if t == ascii "true" then true else if t == ascii "false" then false else d

abbrev number_or : Text → ℕ → ℕ
number_or t d = elim (parse_u64 t) [ none ↦ d | some n ↦ n ]

-- `split(',')`: the pieces between commas, one at least.
first_piece : ℕ → List Text → List Text
first_piece c [] = (c ∷ []) ∷ []
first_piece c (p ∷ ps) = (c ∷ p) ∷ ps

split_commas : Text → List Text
unfolding first_piece
split_commas [] = [] ∷ []
split_commas (c ∷ cs) =
    let rest = split_commas cs in if c == b',' then [] ∷ rest else first_piece c rest

unfoldable pub parse_origins : Text → List Text
unfolding split_commas
parse_origins t = map trim (split_commas t)

unfoldable pub settings : Environment → Text → Text → Config
settings env macaroon_path lnd_macaroon_path = record {
  taproot_assets_host = var_or env (ascii "TAPROOT_ASSETS_HOST") (ascii "127.0.0.1:8289");
  macaroon_path = macaroon_path;
  lnd_macaroon_path = lnd_macaroon_path;
  tls_verify = bool_or (var_or env (ascii "TLS_VERIFY") (ascii "true")) true;
  cors_origins =
      parse_origins
        (var_or env (ascii "CORS_ORIGINS") (ascii "http://localhost:5173,http://127.0.0.1:5173"));
  server_address = var_or env (ascii "SERVER_ADDRESS") (ascii "127.0.0.1:8080");
  request_timeout_secs = number_or (var_or env (ascii "REQUEST_TIMEOUT_SECS") (ascii "30")) 30;
  rate_limit_per_minute = number_or (var_or env (ascii "RATE_LIMIT_PER_MINUTE") (ascii "100")) 100;
  rfq_poll_interval_secs = number_or (var_or env (ascii "RFQ_POLL_INTERVAL_SECS") (ascii "5")) 5;
}

unfoldable pub load : Environment → Result Config
load env = do
  macaroon_path ← required env (ascii "TAPD_MACAROON_PATH")
  lnd_macaroon_path ← required env (ascii "LND_MACAROON_PATH")
  refuse_if (not (env.exists macaroon_path)) (
      ascii "Tapd macaroon file does not exist at path: "
      ++ (macaroon_path ++ ascii ". Please check TAPD_MACAROON_PATH in your .env file."))
  refuse_if (not (env.exists lnd_macaroon_path)) (
      ascii "LND macaroon file does not exist at path: "
      ++ (lnd_macaroon_path ++ ascii ". Please check LND_MACAROON_PATH in your .env file."))
  validate (settings env macaroon_path lnd_macaroon_path)
  ok (settings env macaroon_path lnd_macaroon_path)

-- `eq_ignore_ascii_case`, towards a text in lower case.
abbrev lower : ℕ → ℕ
lower c = if is_upper c then c + 32 else c

-- src/main.rs: an absent API key stops the start, unless ALLOW_INSECURE_NO_AUTH is "true".
pub data Start : Type 0 where
  starts : Option Text → Start
  refuses : Start

unfoldable pub allow_insecure : Environment → Bool
allow_insecure env = elim (env.var (ascii "ALLOW_INSECURE_NO_AUTH")) [
  | none ↦ false
  | some v ↦ map lower v == ascii "true"
]

abbrev pub choose : Option Text → Bool → Start
choose (some k) insecure = starts (some k)
choose none true = starts none
choose none false = refuses

unfoldable pub startup : Environment → Start
startup env = choose (env.var (ascii "API_KEY")) (allow_insecure env)
