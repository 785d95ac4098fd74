-- ===== src/Monitoring/Counts.antt =====
-- The number of active connections is the number of connections that are tracked.
use taproot_assets_rest_gate.Prelude.{
  ℕ, ◌+◌, ◌<◌, ◌^◌, Text, none, List, [], ◌∷◌, get, modify, length, IsMap, IsMap-insert,
  IsMap-remove, IsMap-modify, length-insert_new, length-remove, length-modify, Option-cases, ◌≡◌,
  refl, subst, sym, ap, arith, inl, inr, text_key,
}
use taproot_assets_rest_gate.Monitoring.{
  MonitoringService, ConnectionInfo, new, record_connection, update_receiver_id,
  record_message_sent, record_message_received, record_connection_closed, record_auth_failure,
  record_rate_limit_hit, record_failed_connection, stale_ids, clean_one, clean_all,
  cleanup_stale_connections, Operation, connection, receiver, sent, received, connection_closed,
  auth_failure, rate_limit_hit, failed_connection, cleanup, apply,
}

pub record IsCounted (s : MonitoringService) : Type 0 where
  pub distinct : IsMap s.connections
  pub active : s.metrics.active_connections ≡ length s.connections

-- A new connection comes under a new identifier, and fewer than 2^64 are tracked.
abbrev pub IsFresh : Operation → MonitoringService → Type 0
IsFresh (connection id addr) s = (get id s.connections ≡ none) × (length s.connections + 1 < 2 ^ 64)
IsFresh op s = Unit

connection-IsCounted :
    (id addr : Text) (now : ℕ) (s : MonitoringService)
    → IsFresh (connection id addr) s
    → IsCounted s
    → IsCounted (record_connection id addr now s)
unfolding record_connection
connection-IsCounted id addr now s f c = record {
  distinct = IsMap-insert id _ s.connections c.distinct;
  active = omega (arith, length-insert_new id _ s.connections f.0, c.active);
}

modify-IsCounted :
    (id : Text) (f : ConnectionInfo → ConnectionInfo) (s t : MonitoringService)
    → IsCounted s
    → t.metrics.active_connections ≡ s.metrics.active_connections
    → t.connections ≡ modify id f s.connections
    → IsCounted t
modify-IsCounted id f s t c m e = record {
  distinct = subst IsMap (sym e) (IsMap-modify id f s.connections c.distinct);
  active = omega (arith, ap length e, length-modify id f s.connections, c.active);
}

closed-IsCounted :
    (id : Text) (now : ℕ) (s : MonitoringService)
    → IsCounted s
    → IsCounted (record_connection_closed id now s)
unfolding record_connection_closed
closed-IsCounted id now s c = elim (Option-cases (get id s.connections)) [
  | inl e ↦ rw (e, record_connection_closed) c
  | inr (conn, e) ↦
      rw (e, record_connection_closed)
        (record {
          distinct = IsMap-remove id s.connections c.distinct;
          active = omega (arith, length-remove id s.connections conn c.distinct e, c.active);
        })
]

clean_one-IsCounted : (id : Text) (s : MonitoringService) → IsCounted s → IsCounted (clean_one id s)
unfolding clean_one
clean_one-IsCounted id s c = elim (Option-cases (get id s.connections)) [
  | inl e ↦ rw (e, clean_one) c
  | inr (conn, e) ↦
      rw (e, clean_one)
        (record {
          distinct = IsMap-remove id s.connections c.distinct;
          active = omega (arith, length-remove id s.connections conn c.distinct e, c.active);
        })
]

clean_all-IsCounted :
    (ids : List Text) (s : MonitoringService) → IsCounted s → IsCounted (clean_all ids s)
unfolding clean_all
clean_all-IsCounted [] s c = c
clean_all-IsCounted (id ∷ ids) s c =
    clean_all-IsCounted ids (clean_one id s) (clean_one-IsCounted id s c)

apply-IsCounted :
    (now : ℕ) (op : Operation) (s : MonitoringService)
    → IsFresh op s
    → IsCounted s
    → IsCounted (apply now op s)
unfolding apply update_receiver_id record_message_sent record_message_received record_auth_failure
    record_rate_limit_hit record_failed_connection cleanup_stale_connections
apply-IsCounted now (connection id addr) s f c = connection-IsCounted id addr now s f c
apply-IsCounted now (receiver id receiver_id) s f c = modify-IsCounted id _ s _ c refl refl
apply-IsCounted now (sent id size) s f c = modify-IsCounted id _ s _ c refl refl
apply-IsCounted now (received id size) s f c = modify-IsCounted id _ s _ c refl refl
apply-IsCounted now (connection_closed id) s f c = closed-IsCounted id now s c
apply-IsCounted now (auth_failure id) s f c = modify-IsCounted id _ s _ c refl refl
apply-IsCounted now (rate_limit_hit id) s f c = modify-IsCounted id _ s _ c refl refl
apply-IsCounted now failed_connection s f c = record { distinct = c.distinct; active = c.active }
apply-IsCounted now cleanup s f c = clean_all-IsCounted (stale_ids now s.connections) s c

unfoldable pub run : MonitoringService → List (ℕ × Operation) → MonitoringService
run s [] = s
run s ((now, op) ∷ ops) = run (apply now op s) ops

-- Each connection of a history is new when it is recorded.
abbrev pub AllFresh : MonitoringService → List (ℕ × Operation) → Type 0
AllFresh s [] = Unit
AllFresh s ((now, op) ∷ ops) = IsFresh op s × AllFresh (apply now op s) ops

run-IsCounted :
    (s : MonitoringService) (ops : List (ℕ × Operation))
    → AllFresh s ops
    → IsCounted s
    → IsCounted (run s ops)
unfolding run
run-IsCounted s [] f c = c
run-IsCounted s ((now, op) ∷ ops) f c =
    run-IsCounted (apply now op s) ops f.1 (apply-IsCounted now op s f.0 c)

-- After any history in which each connection is recorded under a new identifier, the number of
-- active connections is the number of tracked ones, and no identifier is tracked twice.
pub active-IsCounted : (ops : List (ℕ × Operation)) → AllFresh new ops → IsCounted (run new ops)
unfolding new
active-IsCounted ops f = run-IsCounted new ops f (record { distinct = tt; active = refl })
