-- ===== src/Proxy/Sweep.antt =====
-- Which sessions a sweep ends.
use taproot_assets_rest_gate.Prelude.{
  ℕ, Text, Bool, true, false, Option, none, some, List, [], ◌∷◌, Map, get, any, get-remove, IsMap,
  if◌then◌else◌, text_key, nat_key, ◌==◌, ==_iff, ==_refl, ◌≡◌, ◌↔◌, refl, arith, Bool-cases,
  Option-cases, inl, inr,
}
use taproot_assets_rest_gate.Connections.{WebSocketConnectionManager, remove_connection}
use taproot_assets_rest_gate.Proxy.{
  Moment, epoch_secs, ProxySession, WebSocketProxyHandler, is_stale, stale_sessions, remove_found,
  remove_session, remove_sessions, cleanup_stale_sessions,
}

get-remove_sessions :
    (ids : List Text) (j : Text) (h : WebSocketProxyHandler)
    → get j (remove_sessions ids h).active_proxies
      ≡ (if any (λ id. id == j) ids then none else get j h.active_proxies)
unfolding remove_sessions remove_session any
get-remove_sessions [] j h = refl
get-remove_sessions (id ∷ ids) j h =
    ground
      (arith, get-remove_sessions ids j (remove_session id h), get-remove id j h.active_proxies)

abbrev stale_entry : ℕ → ℕ → Option ProxySession → Bool
stale_entry now max_idle none = false
stale_entry now max_idle (some p) = is_stale now max_idle p

any-stale_sessions :
    (now max_idle : ℕ) (j : Text) (m : Map Text ProxySession)
    → IsMap m
    → any (λ id. id == j) (stale_sessions now max_idle m) ≡ stale_entry now max_idle (get j m)
unfolding any stale_sessions get
any-stale_sessions now max_idle j [] d = refl
any-stale_sessions now max_idle j ((id, p) ∷ m) d =
    ground (arith, any-stale_sessions now max_idle j m d.1, ==_iff id j)

remove_found-none :
    (o : Option ProxySession) (k : ℕ) (m : WebSocketConnectionManager)
    → get k m.connections ≡ none
    → get k (remove_found o m).connections ≡ none
unfolding remove_connection
remove_found-none none k m h = h
remove_found-none (some p) k m h = ground (arith, get-remove p.backend_conn_id k m.connections)

remove_sessions-none :
    (ids : List Text) (k : ℕ) (h : WebSocketProxyHandler)
    → get k h.connection_manager.connections ≡ none
    → get k (remove_sessions ids h).connection_manager.connections ≡ none
unfolding remove_sessions remove_session
remove_sessions-none [] k h e = e
remove_sessions-none (id ∷ ids) k h e =
    remove_sessions-none ids k (remove_session id h)
      (remove_found-none (get id h.active_proxies) k h.connection_manager e)

remove_sessions-closes :
    (ids : List Text) (j : Text) (p : ProxySession) (h : WebSocketProxyHandler)
    → get j h.active_proxies ≡ some p
    → any (λ id. id == j) ids ≡ true
    → get p.backend_conn_id (remove_sessions ids h).connection_manager.connections ≡ none
unfolding remove_sessions remove_session any remove_connection
remove_sessions-closes [] j p h e m = absurd (ground arith)
remove_sessions-closes (id ∷ ids) j p h e m = elim (Bool-cases (id == j)) [
  | inl y ↦
      let same : id ≡ j = (==_iff id j).0 y in
      remove_sessions-none ids p.backend_conn_id (remove_session id h) (
        rw (same, e)
          (ground (
            arith,
            get-remove p.backend_conn_id p.backend_conn_id h.connection_manager.connections,
            ==_refl p.backend_conn_id,
          )))
  | inr n ↦
      remove_sessions-closes ids j p (remove_session id h)
        (ground (arith, get-remove id j h.active_proxies)) (ground arith)
]

-- A sweep of a table with distinct identifiers keeps exactly the sessions whose idle time, in whole
-- seconds, is at most the limit, each as it was, and the connection of each of the others is no
-- longer tracked.
pub cleanup_stale_sessions_iff :
    (at : Moment) (max_idle : ℕ) (h : WebSocketProxyHandler) (id : Text) (p : ProxySession)
    → IsMap h.active_proxies
    → let h' = cleanup_stale_sessions at max_idle h in
      ((get id h'.active_proxies ≡ some p)
        ↔ ((get id h.active_proxies ≡ some p) × (is_stale (epoch_secs at) max_idle p ≡ false)))
      × ((get id h.active_proxies ≡ some p) × (is_stale (epoch_secs at) max_idle p ≡ true)
          → get p.backend_conn_id h'.connection_manager.connections ≡ none)
unfolding cleanup_stale_sessions
cleanup_stale_sessions_iff at max_idle h id p d =
    let now = epoch_secs at in
    let ids = stale_sessions now max_idle h.active_proxies in
    let left = get-remove_sessions ids id h in
    let gone = any-stale_sessions now max_idle id h.active_proxies d in
    (
      elim (Option-cases (get id h.active_proxies)) [
        | inl e ↦ ground (arith, left, gone)
        | inr (q, e) ↦ ground (arith, left, gone)
      ],
      λ s. remove_sessions-closes ids id p h s.0 (ground (arith, gone, s.0, s.1)),
    )
