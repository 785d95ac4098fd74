-- ===== src/Monitoring/Durations.antt =====
-- The statistics of closed connections.
use native.Mathlib.Nat.{div-le_of_le-mul}
use taproot_assets_rest_gate.Prelude.{
  ℕ, ◌-◌, ◌*◌, ◌≤◌, Text, List, [], ◌∷◌, ◌++◌, All, All-snoc, get, length, length-append,
  Option-cases, arith, inl, inr, text_key,
}
use taproot_assets_rest_gate.Monitoring.{
  MonitoringService, WebSocketMetrics, new, sum, cap_durations, average_or, close_metrics,
  record_connection_closed, clean_one, clean_all, cleanup_stale_connections, record_connection,
  update_receiver_id, record_message_sent, record_message_received, record_auth_failure,
  record_rate_limit_hit, record_failed_connection, stale_ids, Operation, connection_closed, cleanup,
  apply,
}
use taproot_assets_rest_gate.Monitoring.Counts.{run}

abbrev pub AtMost : ℕ → List ℕ → Type 0
AtMost m = All (λ d. d ≤ m)

AtMost-mono : (m n : ℕ) (ds : List ℕ) → m ≤ n → AtMost m ds → AtMost n ds
AtMost-mono m n [] h a = tt
AtMost-mono m n (d ∷ ds) h a = (omega arith, AtMost-mono m n ds h a.1)

AtMost-cap : (m : ℕ) (ds : List ℕ) → AtMost m ds → AtMost m (cap_durations ds)
AtMost-cap m [] a = tt
AtMost-cap m (d ∷ ds) a = ground arith

length-cap : (ds : List ℕ) → length ds ≤ 1001 → length (cap_durations ds) ≤ 1000
length-cap [] h = omega arith
length-cap (d ∷ ds) h = ground arith

sum-le : (m : ℕ) (ds : List ℕ) → AtMost m ds → sum ds ≤ length ds * m
sum-le m [] a = omega arith
sum-le m (d ∷ ds) a = omega (arith, sum-le m ds a.1)

average-le : (old m : ℕ) (ds : List ℕ) → old ≤ m → AtMost m ds → average_or old ds ≤ m
average-le old m [] h a = h
average-le old m (d ∷ ds) h a = div-le_of_le-mul (length (d ∷ ds)) (sum-le m (d ∷ ds) a)

-- The last thousand durations are kept, and neither they nor their average passes the longest.
pub record IsAveraged (s : MonitoringService) : Type 0 where
  pub few : length s.connection_durations ≤ 1000
  pub longest : AtMost s.metrics.longest_connection_duration s.connection_durations
  pub average : s.metrics.average_connection_duration ≤ s.metrics.longest_connection_duration

close_metrics-le :
    (m : WebSocketMetrics) (duration : ℕ) (ds : List ℕ)
    → AtMost m.longest_connection_duration ds
    → m.average_connection_duration ≤ m.longest_connection_duration
    → let durations = cap_durations (ds ++ duration ∷ []) in
      let m' = close_metrics m duration durations in
      AtMost m'.longest_connection_duration durations
      × (m'.average_connection_duration ≤ m'.longest_connection_duration)
unfolding close_metrics
close_metrics-le m duration ds a h = (
  all,
  average-le m.average_connection_duration longest durations (omega (arith, longest_ge)) all,
)
  where
    durations : List ℕ
    durations = cap_durations (ds ++ duration ∷ [])

    longest : ℕ
    longest = (close_metrics m duration durations).longest_connection_duration

    longest_ge : (m.longest_connection_duration ≤ longest) × (duration ≤ longest)
    longest_ge = ground arith

    all : AtMost longest durations
    all = AtMost-cap longest (ds ++ duration ∷ []) (
        All-snoc (λ d. d ≤ longest) ds duration
          (AtMost-mono m.longest_connection_duration longest ds longest_ge.0 a) longest_ge.1)

closed-IsAveraged :
    (id : Text) (now : ℕ) (s : MonitoringService)
    → IsAveraged s
    → IsAveraged (record_connection_closed id now s)
unfolding record_connection_closed
closed-IsAveraged id now s a = elim (Option-cases (get id s.connections)) [
  | inl e ↦ rw (e, record_connection_closed) a
  | inr (conn, e) ↦
      let duration : ℕ = now - conn.connected_at in
      let m' = close_metrics-le s.metrics duration s.connection_durations a.longest a.average in
      rw (e, record_connection_closed)
        (record {
          few =
              length-cap (s.connection_durations ++ duration ∷ [])
                (omega (arith, length-append s.connection_durations (duration ∷ []), a.few));
          longest = m'.0;
          average = m'.1;
        })
]

clean_one-IsAveraged :
    (id : Text) (s : MonitoringService) → IsAveraged s → IsAveraged (clean_one id s)
unfolding clean_one
clean_one-IsAveraged id s a = elim (Option-cases (get id s.connections)) [
  | inl e ↦ rw (e, clean_one) a
  | inr (conn, e) ↦
      rw (e, clean_one) (record { few = a.few; longest = a.longest; average = a.average })
]

clean_all-IsAveraged :
    (ids : List Text) (s : MonitoringService) → IsAveraged s → IsAveraged (clean_all ids s)
unfolding clean_all
clean_all-IsAveraged [] s a = a
clean_all-IsAveraged (id ∷ ids) s a =
    clean_all-IsAveraged ids (clean_one id s) (clean_one-IsAveraged id s a)

-- Any operation but the closing and the cleanup leaves the durations alone.
apply-IsAveraged :
    (now : ℕ) (op : Operation) (s : MonitoringService) → IsAveraged s → IsAveraged (apply now op s)
unfolding apply record_connection update_receiver_id record_message_sent record_message_received
    record_auth_failure record_rate_limit_hit record_failed_connection cleanup_stale_connections
apply-IsAveraged now (connection_closed id) s a = closed-IsAveraged id now s a
apply-IsAveraged now cleanup s a = clean_all-IsAveraged (stale_ids now s.connections) s a
apply-IsAveraged now _ s a = record { few = a.few; longest = a.longest; average = a.average }

run-IsAveraged :
    (s : MonitoringService) (ops : List (ℕ × Operation)) → IsAveraged s → IsAveraged (run s ops)
unfolding run
run-IsAveraged s [] a = a
run-IsAveraged s ((now, op) ∷ ops) a =
    run-IsAveraged (apply now op s) ops (apply-IsAveraged now op s a)

-- After any history at most a thousand durations are kept, none of them is longer than the longest
-- duration reported, and so is their average.
pub durations-IsAveraged : (ops : List (ℕ × Operation)) → IsAveraged (run new ops)
unfolding new
durations-IsAveraged ops =
    run-IsAveraged new ops (record { few = omega arith; longest = tt; average = omega arith })
