-- ===== src/Connections/Table.antt =====
-- The table of connections: what a cleanup removes, and which connections count as healthy.
use taproot_assets_rest_gate.Prelude.{
  ℕ, Bool, true, false, Option, none, some, List, [], ◌∷◌, Map, get, remove, any, IsMap,
  IsMap-remove, get-remove, if◌then◌else◌, nat_key, nat_eq_iff, ◌==◌, ◌≡◌, ◌↔◌, refl, arith, inl,
  inr, is_some, Option-cases,
}
use taproot_assets_rest_gate.Connections.{
  BackendConnection, WebSocketConnectionManager, is_idle, idle_ids, remove_all,
  cleanup_stale_connections, is_connection_healthy,
}

get-remove_all :
    (ids : List ℕ) (j : ℕ) (m : Map ℕ BackendConnection)
    → get j (remove_all ids m) ≡ (if any (λ id. id == j) ids then none else get j m)
unfolding remove_all any
get-remove_all [] j m = refl
get-remove_all (id ∷ ids) j m =
    ground (arith, get-remove_all ids j (remove id m), get-remove id j m)

IsMap-remove_all : (ids : List ℕ) (m : Map ℕ BackendConnection) → IsMap m → IsMap (remove_all ids m)
unfolding remove_all
IsMap-remove_all [] m d = d
IsMap-remove_all (id ∷ ids) m d = IsMap-remove_all ids (remove id m) (IsMap-remove id m d)

abbrev idle_entry : ℕ → ℕ → Option BackendConnection → Bool
idle_entry now limit none = false
idle_entry now limit (some c) = is_idle now limit c

any-idle_ids :
    (now limit j : ℕ) (m : Map ℕ BackendConnection)
    → IsMap m
    → any (λ id. id == j) (idle_ids now limit m) ≡ idle_entry now limit (get j m)
unfolding any idle_ids get
any-idle_ids now limit j [] d = refl
any-idle_ids now limit j ((id, c) ∷ m) d =
    ground (arith, any-idle_ids now limit j m d.1, nat_eq_iff id j)

-- A cleanup of connections with distinct identifiers keeps exactly those that are healthy by the
-- same limit, each as it was, and returns the identifiers of the others that were tracked.
cleanup-healthy :
    (now limit id : ℕ) (c : BackendConnection) (m : WebSocketConnectionManager)
    → IsMap m.connections
    → let (m', removed) = cleanup_stale_connections now limit m in
      ((get id m'.connections ≡ some c)
        ↔ ((get id m.connections ≡ some c) × (is_connection_healthy now id limit m ≡ true)))
      × ((any (λ other. other == id) removed ≡ true) ↔ (
          (is_some (get id m.connections) ≡ true) × (is_connection_healthy now id limit m ≡ false)))
unfolding cleanup_stale_connections is_connection_healthy
cleanup-healthy now limit id c m d =
    let gone = any-idle_ids now limit id m.connections d in
    let left = get-remove_all (idle_ids now limit m.connections) id m.connections in
    elim (Option-cases (get id m.connections)) [
      | inl e ↦ ground (arith, gone, left)
      | inr (x, e) ↦ ground (arith, gone, left)
    ]
