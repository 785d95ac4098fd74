-- ===== src/Monitoring.antt =====
-- src/monitoring.rs: the WebSocket connections that the gateway counts.
pub mod Counts
pub mod Durations
pub mod Cleanup
use taproot_assets_rest_gate.Prelude.{
  ℕ, suc, ◌+◌, ◌-◌, ◌/◌, Text, ascii, Bool, true, false, Option, none, some, List, [], ◌∷◌, ◌++◌,
  Map, get, insert, remove, modify, values, length, ltb, if◌then◌else◌, secs, text_key, add_u64,
  next_u64, is_empty,
}

-- Durations are in nanoseconds.
pub record WebSocketMetrics : Type 0 where
  pub active_connections : ℕ
  pub total_connections : ℕ
  pub total_messages_sent : ℕ
  pub total_messages_received : ℕ
  pub total_bytes_sent : ℕ
  pub total_bytes_received : ℕ
  pub average_connection_duration : ℕ
  pub longest_connection_duration : ℕ
  pub failed_connections : ℕ
  pub auth_failures : ℕ
  pub rate_limit_hits : ℕ

abbrev pub default : WebSocketMetrics
default = record {
  active_connections = 0;
  total_connections = 0;
  total_messages_sent = 0;
  total_messages_received = 0;
  total_bytes_sent = 0;
  total_bytes_received = 0;
  average_connection_duration = 0;
  longest_connection_duration = 0;
  failed_connections = 0;
  auth_failures = 0;
  rate_limit_hits = 0;
}

pub record ConnectionInfo : Type 0 where
  pub id : Text
  pub receiver_id : Option Text
  pub remote_addr : Text
  pub connected_at : ℕ
  pub last_activity : ℕ
  pub messages_sent : ℕ
  pub messages_received : ℕ
  pub bytes_sent : ℕ
  pub bytes_received : ℕ
  pub state : Text

pub record MonitoringService : Type 0 where
  pub metrics : WebSocketMetrics
  pub connections : Map Text ConnectionInfo
  pub connection_durations : List ℕ

unfoldable pub new : MonitoringService
new = record { metrics = default; connections = []; connection_durations = [] }

unfoldable pub record_connection : Text → Text → ℕ → MonitoringService → MonitoringService
record_connection connection_id remote_addr now s = record s {
  metrics = record s.metrics {
    active_connections = next_u64 s.metrics.active_connections;
    total_connections = next_u64 s.metrics.total_connections;
  };
  connections =
      insert connection_id
        (record {
          id = connection_id;
          receiver_id = none;
          remote_addr = remote_addr;
          connected_at = now;
          last_activity = now;
          messages_sent = 0;
          messages_received = 0;
          bytes_sent = 0;
          bytes_received = 0;
          state = ascii "connected";
        })
        s.connections;
}

unfoldable pub update_receiver_id : Text → Text → MonitoringService → MonitoringService
update_receiver_id connection_id receiver_id s = record s {
  connections =
      modify connection_id
        (λ conn. record conn { receiver_id = some receiver_id; state = ascii "authenticated" })
        s.connections;
}

unfoldable pub record_message_sent : Text → ℕ → ℕ → MonitoringService → MonitoringService
record_message_sent connection_id size now s = record s {
  metrics = record s.metrics {
    total_messages_sent = next_u64 s.metrics.total_messages_sent;
    total_bytes_sent = add_u64 s.metrics.total_bytes_sent size;
  };
  connections =
      modify connection_id
        (λ conn. record conn {
          messages_sent = next_u64 conn.messages_sent;
          bytes_sent = add_u64 conn.bytes_sent size;
          last_activity = now;
        })
        s.connections;
}

unfoldable pub record_message_received : Text → ℕ → ℕ → MonitoringService → MonitoringService
record_message_received connection_id size now s = record s {
  metrics = record s.metrics {
    total_messages_received = next_u64 s.metrics.total_messages_received;
    total_bytes_received = add_u64 s.metrics.total_bytes_received size;
  };
  connections =
      modify connection_id
        (λ conn. record conn {
          messages_received = next_u64 conn.messages_received;
          bytes_received = add_u64 conn.bytes_received size;
          last_activity = now;
        })
        s.connections;
}

abbrev pub sum : List ℕ → ℕ
sum [] = 0
sum (d ∷ ds) = d + sum ds

-- `remove(0)` where there are more than 1000.
abbrev pub cap_durations : List ℕ → List ℕ
cap_durations [] = []
cap_durations (d ∷ ds) = if ltb 1000 (length (d ∷ ds)) then ds else d ∷ ds

-- The average, unless there is nothing to divide by.
abbrev pub average_or : ℕ → List ℕ → ℕ
average_or old ds = if is_empty ds then old else sum ds / length ds

unfoldable pub close_metrics : WebSocketMetrics → ℕ → List ℕ → WebSocketMetrics
close_metrics m duration durations = record m {
  active_connections = m.active_connections - 1;
  average_connection_duration = average_or m.average_connection_duration durations;
  longest_connection_duration =
      if ltb m.longest_connection_duration duration
      then duration
      else m.longest_connection_duration;
}

unfoldable pub record_connection_closed : Text → ℕ → MonitoringService → MonitoringService
unfolding close_metrics
record_connection_closed connection_id now s = elim (get connection_id s.connections) [
  | none ↦ s
  | some conn ↦
      (let duration : ℕ = now - conn.connected_at in
        let durations = cap_durations (s.connection_durations ++ duration ∷ []) in
        record s {
          metrics = close_metrics s.metrics duration durations;
          connections = remove connection_id s.connections;
          connection_durations = durations;
        })
]

unfoldable pub record_auth_failure : Text → MonitoringService → MonitoringService
record_auth_failure connection_id s = record s {
  metrics = record s.metrics { auth_failures = next_u64 s.metrics.auth_failures };
  connections =
      modify connection_id (λ conn. record conn { state = ascii "auth_failed" }) s.connections;
}

unfoldable pub record_rate_limit_hit : Text → MonitoringService → MonitoringService
record_rate_limit_hit connection_id s = record s {
  metrics = record s.metrics { rate_limit_hits = next_u64 s.metrics.rate_limit_hits };
  connections =
      modify connection_id (λ conn. record conn { state = ascii "rate_limited" }) s.connections;
}

unfoldable pub record_failed_connection : MonitoringService → MonitoringService
record_failed_connection s = record s {
  metrics = record s.metrics { failed_connections = next_u64 s.metrics.failed_connections };
}

unfoldable pub get_active_connections : MonitoringService → List ConnectionInfo
get_active_connections s = values s.connections

unfoldable pub get_connection_info : Text → MonitoringService → Option ConnectionInfo
get_connection_info connection_id s = get connection_id s.connections

-- Inactive for more than ten minutes.
abbrev pub is_stale : ℕ → ConnectionInfo → Bool
is_stale now conn = ltb (conn.last_activity + secs 600) now

-- The identifiers that the first loop of the cleanup collects.
unfoldable pub stale_ids : ℕ → Map Text ConnectionInfo → List Text
stale_ids now [] = []
stale_ids now ((id, conn) ∷ connections) =
    let rest = stale_ids now connections in if is_stale now conn then id ∷ rest else rest

-- The body of the second loop.
unfoldable pub clean_one : Text → MonitoringService → MonitoringService
clean_one id s = elim (get id s.connections) [
  | none ↦ s
  | some conn ↦ record s {
    metrics = record s.metrics { active_connections = s.metrics.active_connections - 1 };
    connections = remove id s.connections;
  }
]

unfoldable pub clean_all : List Text → MonitoringService → MonitoringService
unfolding clean_one
clean_all [] s = s
clean_all (id ∷ ids) s = clean_all ids (clean_one id s)

unfoldable pub cleanup_stale_connections : ℕ → MonitoringService → MonitoringService
unfolding stale_ids clean_all
cleanup_stale_connections now s = clean_all (stale_ids now s.connections) s

-- The operations that change the service, with the time at which each is done.
pub data Operation : Type 0 where
  connection : Text → Text → Operation
  receiver : Text → Text → Operation
  sent received : Text → ℕ → Operation
  connection_closed auth_failure rate_limit_hit : Text → Operation
  failed_connection cleanup : Operation

unfoldable pub apply : ℕ → Operation → MonitoringService → MonitoringService
apply now (connection id addr) s = record_connection id addr now s
apply now (receiver id receiver_id) s = update_receiver_id id receiver_id s
apply now (sent id size) s = record_message_sent id size now s
apply now (received id size) s = record_message_received id size now s
apply now (connection_closed id) s = record_connection_closed id now s
apply now (auth_failure id) s = record_auth_failure id s
apply now (rate_limit_hit id) s = record_rate_limit_hit id s
apply now failed_connection s = record_failed_connection s
apply now cleanup s = cleanup_stale_connections now s
