-- ===== src/Proxy/Sessions.antt =====
-- The table of sessions and that of connections agree.
use taproot_assets_rest_gate.Prelude.{
  ℕ, Text, none, some, List, [], ◌∷◌, get, remove_absent, text_key, nat_key, ◌≡◌, ◌⊎◌, arith,
  Option-cases, inl, inr,
}
use taproot_assets_rest_gate.Error.{AppError, Result, ok, err, Result-cases}
use taproot_assets_rest_gate.Crypto.{Parsed, parsed, rejected}
use taproot_assets_rest_gate.Connections.{
  WebSocketConnectionManager, Network, connect_to_backend, remove_connection, track, dial,
  update_activity,
}
use taproot_assets_rest_gate.Proxy.{
  Moment, epoch_secs, ProxySession, WebSocketProxyHandler, Opening, proxy_session, store_session,
  answer, handle_websocket, cleanup_session, stale_sessions, remove_session, remove_sessions,
  cleanup_stale_sessions, store_activity, new,
}
use taproot_assets_rest_gate.Proxy.Pairs.{
  IsPaired, Pairs-remove, Pairs-session, Pairs-modify, Pairs-activity,
}

-- The UUID drawn for the connection is not in use.
abbrev pub IsFresh : ℕ → WebSocketProxyHandler → Type 0
IsFresh conn_id h = get conn_id h.connection_manager.connections ≡ none

connect_to_backend-cases :
    (n : Network) (id now : ℕ) (endpoint : Text) (m : WebSocketConnectionManager)
    → (connect_to_backend n id now endpoint m ≡ (track id now endpoint m, ok id))
      ⊎ ((e : AppError) × (connect_to_backend n id now endpoint m ≡ (m, err e)))
unfolding connect_to_backend
connect_to_backend-cases n id now endpoint m = elim (Result-cases (dial n now endpoint m)) [
  | inl (u, e) ↦ inl (rw (e, connect_to_backend))
  | inr (e, f) ↦ inr (e, rw (f, connect_to_backend))
]

answer-IsPaired :
    (o : Opening) (h : WebSocketProxyHandler) (r : WebSocketConnectionManager × Result ℕ)
    → IsFresh o.backend_conn_id h
    → IsPaired h
    → (r ≡ (
      track o.backend_conn_id o.at.instant o.backend_endpoint h.connection_manager,
      ok o.backend_conn_id,
    ))
      ⊎ ((e : AppError) × (r ≡ (h.connection_manager, err e)))
    → IsPaired (answer o h r).0
unfolding answer store_session track
answer-IsPaired o h r fresh v (inl e) = rw e (
    Pairs-session h.connection_manager.connections h.active_proxies o.session_id (proxy_session o) _
      fresh v)
answer-IsPaired o h r fresh v (inr (e, f)) = rw f v

handle_websocket-IsPaired :
    (n : Network) (upgraded : Parsed (Unit {0})) (o : Opening) (h : WebSocketProxyHandler)
    → IsFresh o.backend_conn_id h
    → IsPaired h
    → IsPaired (handle_websocket n upgraded o h).0
unfolding handle_websocket
handle_websocket-IsPaired n (rejected e) o h fresh v = v
handle_websocket-IsPaired n (parsed u) o h fresh v = answer-IsPaired o h _ fresh v (
    connect_to_backend-cases n o.backend_conn_id o.at.instant o.backend_endpoint
      h.connection_manager)

cleanup_session-IsPaired :
    (id : Text) (p : ProxySession) (h : WebSocketProxyHandler)
    → get id h.active_proxies ≡ some p
    → IsPaired h
    → IsPaired (cleanup_session id p.backend_conn_id h)
unfolding cleanup_session remove_connection
cleanup_session-IsPaired id p h found v =
    Pairs-remove h.connection_manager.connections h.active_proxies id p found v

remove_session-IsPaired :
    (id : Text) (h : WebSocketProxyHandler) → IsPaired h → IsPaired (remove_session id h)
unfolding remove_session remove_connection
remove_session-IsPaired id h v = elim (Option-cases (get id h.active_proxies)) [
  | inl e ↦ rw (e, remove_absent id h.active_proxies e) v
  | inr (p, e) ↦ rw e (Pairs-remove h.connection_manager.connections h.active_proxies id p e v)
]

remove_sessions-IsPaired :
    (ids : List Text) (h : WebSocketProxyHandler) → IsPaired h → IsPaired (remove_sessions ids h)
unfolding remove_sessions
remove_sessions-IsPaired [] h v = v
remove_sessions-IsPaired (id ∷ ids) h v =
    remove_sessions-IsPaired ids (remove_session id h) (remove_session-IsPaired id h v)

-- What happens to the tables: a client connects with UUIDs that are not in use, a session or a
-- connection is used, a session ends that still stands in the table or that was swept, and stale
-- sessions are swept.
pub data Step (h : WebSocketProxyHandler) : WebSocketProxyHandler → Type 0 where
  opens :
      (n : Network) (upgraded : Parsed (Unit {0})) (o : Opening)
      → IsFresh o.backend_conn_id h
      → Step h (handle_websocket n upgraded o h).0
  notes : (epoch : ℕ) (id : Text) → Step h (store_activity epoch id h)
  refreshes :
      (now conn_id : ℕ)
      → Step h (record h { connection_manager = update_activity now conn_id h.connection_manager })
  ends :
      (id : Text) (p : ProxySession)
      → get id h.active_proxies ≡ some p
      → Step h (cleanup_session id p.backend_conn_id h)
  ends_swept :
      (id : Text) (conn_id : ℕ)
      → get id h.active_proxies ≡ none
      → IsFresh conn_id h
      → Step h (cleanup_session id conn_id h)
  sweeps : (at : Moment) (max_idle : ℕ) → Step h (cleanup_stale_sessions at max_idle h)

pub data Reach (m : WebSocketConnectionManager) : WebSocketProxyHandler → Type 0 where
  start : Reach m (new m)
  next : {h h' : WebSocketProxyHandler} → Reach m h → Step h h' → Reach m h'

Step-IsPaired : {h h' : WebSocketProxyHandler} → Step h h' → IsPaired h → IsPaired h'
unfolding store_activity update_activity cleanup_session remove_connection cleanup_stale_sessions
Step-IsPaired {h} (opens n upgraded o fresh) v = handle_websocket-IsPaired n upgraded o h fresh v
Step-IsPaired {h} (notes epoch id) v =
    Pairs-modify h.connection_manager.connections h.active_proxies id epoch v
Step-IsPaired {h} (refreshes now conn_id) v =
    Pairs-activity h.connection_manager.connections h.active_proxies conn_id now v
Step-IsPaired {h} (ends id p found) v = cleanup_session-IsPaired id p h found v
Step-IsPaired {h} (ends_swept id conn_id absent fresh) v =
    rw
      (
        remove_absent id h.active_proxies absent,
        remove_absent conn_id h.connection_manager.connections fresh,
      )
      v
Step-IsPaired {h} (sweeps at max_idle) v =
    remove_sessions-IsPaired (stale_sessions (epoch_secs at) max_idle h.active_proxies) h v

-- From a new proxy on, each session in the table has its own tracked connection, however clients
-- come and go and sessions are swept, provided that the UUID drawn for a connection is not in use.
pub Reach-IsPaired :
    {m : WebSocketConnectionManager} {h : WebSocketProxyHandler} → Reach m h → IsPaired h
unfolding get
Reach-IsPaired start = record {
  tracked = λ id p e. absurd (ground arith);
  apart = λ i j p q e f same. absurd (ground arith);
}
Reach-IsPaired (next r st) = Step-IsPaired st (Reach-IsPaired r)
