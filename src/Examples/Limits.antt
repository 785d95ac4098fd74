-- ===== src/Examples/Limits.antt =====
-- Access, limits and counters.
use taproot_assets_rest_gate.Prelude.{
  ℕ, ◌+◌, ◌≤◌, ◌≡◌, ◌⊎◌, ◌↔◌, Text, ascii, true, false, Option, none, some, List, [], ◌∷◌, ◌++◌,
  get, insert, remove, keep, length, secs, refl, arith, strip_prefix, text_eq, text_key, contains,
  starts_with, if◌then◌else◌, trim,
}
use taproot_assets_rest_gate.Config.{
  Config, Environment, startup, allow_insecure, validate, load, settings, bool_or, parse_origins,
  validate_origins,
}
use taproot_assets_rest_gate.Api.Params.{parse_u64}
use taproot_assets_rest_gate.Config.Valid
use taproot_assets_rest_gate.Middleware.Auth
use taproot_assets_rest_gate.Middleware.Auth.{
  ServiceRequest, called, call_iff, startup_guards, Admits,
}
use taproot_assets_rest_gate.Middleware.RateLimit
use taproot_assets_rest_gate.Middleware.RateLimit.{in_window, times}
use taproot_assets_rest_gate.Middleware.RateLimit.Window.{accepted}
use taproot_assets_rest_gate.Middleware.RateLimit.Limit.{window_limit}
use taproot_assets_rest_gate.Pool
use taproot_assets_rest_gate.Pool.{
  Pool, get_client, count_client, drop, permit, busy, Reach, here, next, acquires, counts, drops,
}
use taproot_assets_rest_gate.Pool.Invariant.{pool_bounded}
use taproot_assets_rest_gate.Monitoring
use taproot_assets_rest_gate.Monitoring.{
  Operation, connection, sent, cleanup, connection_closed, cleanup_stale_connections, apply,
  record_connection, record_message_sent, stale_ids, clean_all,
}
use taproot_assets_rest_gate.Monitoring.Counts.{run, IsCounted, active-IsCounted}
use taproot_assets_rest_gate.Monitoring.Durations.{IsAveraged, durations-IsAveraged}
use taproot_assets_rest_gate.Monitoring.Cleanup.{cleanup_exact}

abbrev request : ServiceRequest
request = record { path = ascii "/burn"; authorization = some (ascii "Bearer k") }

call_iff_example :
    (Auth.call (some (ascii "k")) request ≡ called)
    ↔ ((request.path ≡ ascii "/health") ⊎ Admits (some (ascii "k")) request)
call_iff_example = call_iff (some (ascii "k")) request

-- An environment with an API key, both macaroons, and nothing else.
abbrev var : Text → Option Text
var name =
    if text_eq name (ascii "API_KEY")
    then some (ascii "k")
    else if text_eq name (ascii "TAPD_MACAROON_PATH")
    then some (ascii "/tapd")
    else if text_eq name (ascii "LND_MACAROON_PATH")
    then some (ascii "/lnd")
    else none

abbrev environment : Environment
environment = record { var = var; exists = λ path. true }

startup_guards_example :
    (request.path ≡ ascii "/health")
    ⊎ ((k : Text) × (environment.var (ascii "API_KEY") ≡ some k)
        × (request.authorization ≡ some (ascii "Bearer " ++ k)))
unfolding allow_insecure startup Auth.call text_eq strip_prefix
startup_guards_example = startup_guards environment (some (ascii "k")) request refl refl refl

abbrev config : Config
config = settings environment (ascii "/tapd") (ascii "/lnd")

load_safe_example :
    Valid.IsValid config
    × Valid.IsFile environment (ascii "TAPD_MACAROON_PATH") config.macaroon_path
    × Valid.IsFile environment (ascii "LND_MACAROON_PATH") config.lnd_macaroon_path
    × ((config.tls_verify ≡ false) ↔ (environment.var (ascii "TLS_VERIFY") ≡ some (ascii "false")))
unfolding load settings text_eq validate validate_origins contains starts_with bool_or parse_origins
    parse_u64 trim
load_safe_example = Valid.load_safe environment config refl

abbrev calls : List (Text × ℕ)
calls = (ascii "a", secs 1) ∷ (ascii "b", secs 1) ∷ (ascii "a", secs 2) ∷ (ascii "a", secs 3) ∷ []

window_limit_example :
    length (keep (in_window (secs 30)) (accepted (ascii "a") (RateLimit.new 2 0) calls)) ≤ 2
window_limit_example =
    window_limit 2 0 (secs 30) (ascii "a") calls
      (omega arith, (omega arith, (omega arith, (omega arith, omega arith))))

abbrev one_returned : Pool
one_returned = drop (count_client (get_client (Pool.new Pool.default) permit).0) busy

returned : Reach (Pool.new Pool.default) one_returned
unfolding Pool.new get_client count_client
returned =
    next (next (next here (acquires (omega arith))) (counts (omega arith) (omega arith)))
      (drops busy (omega arith))

pool_bounded_example :
    (one_returned.held ≤ 100)
    × (one_returned.available_permits ≤ 100)
    × (one_returned.stats.active_connections
        ≡ one_returned.held + one_returned.pending + one_returned.uncounted)
pool_bounded_example = pool_bounded Pool.default one_returned returned

abbrev history : List (ℕ × Operation)
history =
    (secs 1, connection (ascii "c1") (ascii "addr"))
    ∷ (secs 2, sent (ascii "c1") 10)
    ∷ (secs 3, connection_closed (ascii "c1"))
    ∷ (secs 900, cleanup)
    ∷ []

active-IsCounted_example : IsCounted (run Monitoring.new history)
unfolding Monitoring.new get
active-IsCounted_example = active-IsCounted history ((refl, omega arith), (tt, (tt, (tt, tt))))

durations-IsAveraged_example : IsAveraged (run Monitoring.new history)
durations-IsAveraged_example = durations-IsAveraged history

abbrev tracked : Monitoring.MonitoringService
tracked = record_connection (ascii "c1") (ascii "addr") (secs 1) Monitoring.new

abbrev info : Monitoring.ConnectionInfo
info = record {
  id = ascii "c1";
  receiver_id = none;
  remote_addr = ascii "addr";
  connected_at = secs 1;
  last_activity = secs 1;
  messages_sent = 0;
  messages_received = 0;
  bytes_sent = 0;
  bytes_received = 0;
  state = ascii "connected";
}

cleanup_exact_example :
    (get (ascii "c1") (cleanup_stale_connections (secs 601) tracked).connections ≡ some info)
    ↔ ((get (ascii "c1") tracked.connections ≡ some info) × (secs 601 ≤ secs 1 + secs 600))
unfolding record_connection Monitoring.new insert remove get
cleanup_exact_example = cleanup_exact (secs 601) (ascii "c1") info tracked (refl, tt)
