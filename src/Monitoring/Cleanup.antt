-- ===== src/Monitoring/Cleanup.antt =====
-- What the periodic cleanup removes.
use taproot_assets_rest_gate.Prelude.{
  ℕ, ◌+◌, ◌≤◌, ◌↔◌, secs, Text, Bool, false, not, Option, none, some, List, [], ◌∷◌, Map, get,
  get-remove, if_kept, IsMap, Option-cases, if◌then◌else◌, ◌≡◌, refl, arith, inl, inr, text_key,
  text_eq_iff, ◌==◌, any,
}
use taproot_assets_rest_gate.Monitoring.{
  MonitoringService, ConnectionInfo, is_stale, stale_ids, clean_one, clean_all,
  cleanup_stale_connections,
}

get-clean_one :
    (id j : Text) (s : MonitoringService)
    → get j (clean_one id s).connections ≡ (if id == j then none else get j s.connections)
unfolding clean_one
get-clean_one id j s = ground (arith, get-remove id j s.connections, text_eq_iff id j)

get-clean_all :
    (ids : List Text) (j : Text) (s : MonitoringService)
    → get j (clean_all ids s).connections
      ≡ (if any (λ id. id == j) ids then none else get j s.connections)
unfolding clean_all any
get-clean_all [] j s = refl
get-clean_all (id ∷ ids) j s =
    ground (arith, get-clean_all ids j (clean_one id s), get-clean_one id j s)

abbrev stale_entry : ℕ → Option ConnectionInfo → Bool
stale_entry now none = false
stale_entry now (some conn) = is_stale now conn

any-stale_ids :
    (now : ℕ) (j : Text) (m : Map Text ConnectionInfo)
    → IsMap m
    → any (λ id. id == j) (stale_ids now m) ≡ stale_entry now (get j m)
unfolding any stale_ids get
any-stale_ids now j [] d = refl
any-stale_ids now j ((id, conn) ∷ m) d = ground (arith, any-stale_ids now j m d.1, text_eq_iff id j)

get-cleanup :
    (now : ℕ) (j : Text) (s : MonitoringService)
    → IsMap s.connections
    → get j (cleanup_stale_connections now s).connections
      ≡ if_kept (λ id conn. not (is_stale now conn)) j (get j s.connections)
unfolding cleanup_stale_connections
get-cleanup now j s d =
    ground
      (arith, get-clean_all (stale_ids now s.connections) j s, any-stale_ids now j s.connections d)

-- After the cleanup of connections with distinct identifiers exactly those are tracked that were
-- tracked and have been active in the last ten minutes, each as it was.
pub cleanup_exact :
    (now : ℕ) (j : Text) (conn : ConnectionInfo) (s : MonitoringService)
    → IsMap s.connections
    → (get j (cleanup_stale_connections now s).connections ≡ some conn)
      ↔ ((get j s.connections ≡ some conn) × (now ≤ conn.last_activity + secs 600))
cleanup_exact now j conn s d = elim (Option-cases (get j s.connections)) [
  | inl e ↦ rw (get-cleanup now j s d, e) (ground arith)
  | inr (c, e) ↦ rw (get-cleanup now j s d, e) (ground arith)
]
