-- ===== src/Pool.antt =====
-- src/connection_pool.rs: at most `max_connections` clients at a time, and the counters about them.
-- The waits of `get_client` and of the drop are steps of their own, between which others may run.
pub mod Invariant
use taproot_assets_rest_gate.Prelude.{
  ℕ, ◌+◌, ◌-◌, ◌^◌, next_u64, ◌≤◌, ◌<◌, ◌≡◌, Text, ascii, Bool, true, false, Option, none, some,
  secs, arith,
}
use taproot_assets_rest_gate.Error.{Result, ok, err, AppError, invalid_input}

pub record PoolConfig : Type 0 where
  pub max_connections : ℕ
  pub connection_timeout : ℕ
  pub request_timeout : ℕ
  pub idle_timeout : Option ℕ
  pub pool_timeout : ℕ
  pub tls_verify : Bool

abbrev pub default : PoolConfig
default = record {
  max_connections = 100;
  connection_timeout = secs 10;
  request_timeout = secs 30;
  idle_timeout = some (secs 90);
  pool_timeout = secs 5;
  tls_verify = true;
}

pub record PoolStats : Type 0 where
  pub total_requests : ℕ
  pub active_connections : ℕ
  pub failed_requests : ℕ
  pub timeout_errors : ℕ

-- The semaphore's free permits, the counters, and where the other permits are: taken by a call of
-- `get_client` that has not yet counted itself, or in a `PooledClient`. A drop whose `try_write`
-- fails leaves a spawned task that has still to count it, or nobody, where no runtime is left.
pub record Pool : Type 0 where
  pub config : PoolConfig
  pub available_permits : ℕ
  pub stats : PoolStats
  pub acquired : ℕ
  pub held : ℕ
  pub pending : ℕ
  pub uncounted : ℕ

unfoldable pub new : PoolConfig → Pool
new config = record {
  config = config;
  available_permits = config.max_connections;
  stats = record {
    total_requests = 0;
    active_connections = 0;
    failed_requests = 0;
    timeout_errors = 0;
  };
  acquired = 0;
  held = 0;
  pending = 0;
  uncounted = 0;
}

-- `get_client`, the wait for a permit: it has one, or the semaphore is closed, or the time is over.
pub data Wait : Type 0 where
  permit closed elapsed : Wait

unfoldable pub time_out : Pool → Pool
time_out p = record p {
  stats = record p.stats { timeout_errors = next_u64 p.stats.timeout_errors };
}

unfoldable pub get_client : Pool → Wait → Pool × Result (Unit {0})
unfolding time_out
get_client p permit =
    (record p { available_permits = p.available_permits - 1; acquired = p.acquired + 1 }, ok tt)
get_client p closed = (p, err (invalid_input (ascii "Failed to acquire semaphore permit")))
get_client p elapsed =
    (time_out p, err (invalid_input (ascii "Connection pool timeout - all connections busy")))

-- The rest of `get_client`: the counters, and then the `PooledClient`.
unfoldable pub count_client : Pool → Pool
count_client p = record p {
  stats = record p.stats {
    total_requests = next_u64 p.stats.total_requests;
    active_connections = next_u64 p.stats.active_connections;
  };
  acquired = p.acquired - 1;
  held = p.held + 1;
}

-- `saturating_sub(1)`.
unfoldable pub count_return : Pool → Pool
count_return p = record p {
  stats = record p.stats { active_connections = p.stats.active_connections - 1 };
}

-- What `drop` meets: the lock is free, or taken with a runtime at hand, or taken without one.
pub data Lock : Type 0 where
  free busy busy_no_runtime : Lock

-- `drop`, and the release of the permit with the fields after it.
unfoldable pub drop : Pool → Lock → Pool
unfolding count_return
drop p lock = elim lock [
  | free ↦ count_return released
  | busy ↦ record released { pending = p.pending + 1 }
  | busy_no_runtime ↦ record released { uncounted = p.uncounted + 1 }
]
  where
    released : Pool
    released = record p { held = p.held - 1; available_permits = p.available_permits + 1 }

-- The spawned task gets the lock.
unfoldable pub late_return : Pool → Pool
unfolding count_return
late_return p = count_return (record p { pending = p.pending - 1 })

-- What can happen next, with what must be there for it. The counter of active connections is taken
-- to be below its end, 2^64.
pub data Step (p : Pool) : Pool → Type 0 where
  acquires : 0 < p.available_permits → Step p (get_client p permit).0
  refused : Step p (get_client p closed).0
  times_out : Step p (get_client p elapsed).0
  counts : 0 < p.acquired → p.stats.active_connections + 1 < 2 ^ 64 → Step p (count_client p)
  drops : (lock : Lock) → 0 < p.held → Step p (drop p lock)
  returns_late : 0 < p.pending → Step p (late_return p)

pub data Reach (p : Pool) : Pool → Type 0 where
  here : Reach p p
  next : {q r : Pool} → Reach p q → Step q r → Reach p r
