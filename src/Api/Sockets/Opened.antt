-- ===== src/Api/Sockets/Opened.antt =====
-- What the proxy and tapd are asked, and what the proxy holds, after a socket was asked for.
use taproot_assets_rest_gate.Prelude.{
  ℕ, Text, ascii, Bool, true, false, some, [], ◌∷◌, ◌++◌, contains, is_some, get, text_key, nat_key,
  ◌≡◌, ◌⊎◌, arith,
}
use taproot_assets_rest_gate.Error.{Result, ok, err, AppError}
use taproot_assets_rest_gate.Crypto.{Parsed, parsed, rejected}
use taproot_assets_rest_gate.Connections.{
  Network, BackendConnection, WebSocketConnectionManager, websocket_url, dial, tracked,
}
use taproot_assets_rest_gate.Proxy.{Opening, ProxySession, WebSocketProxyHandler, accepted}
use taproot_assets_rest_gate.Api.Sockets.{
  SocketAnswer, proxied, bad_request, SocketRoute, asset_mint, asset_receive, asset_send,
  send_payment, mailbox_receive,
}

-- The query of a client after `method=POST`.
abbrev pub further : Text → Text
further [] = []
further (c ∷ query) = ascii "&" ++ (c ∷ query)

-- Where a route leads below tapd's address, and whether its requests are tracked.
abbrev pub target : SocketRoute → Text
target (asset_mint query) =
    (ascii "/v1/taproot-assets/events/asset-mint?method=POST") ++ further query
target (asset_receive query) =
    (ascii "/v1/taproot-assets/events/asset-receive?method=POST") ++ further query
target (asset_send query) =
    (ascii "/v1/taproot-assets/events/asset-send?method=POST") ++ further query
target (send_payment query) = ascii "/v1/taproot-assets/channels/send-payment?stream=true"
target mailbox_receive = ascii "/v1/taproot-assets/mailbox/receive?stream=true"

abbrev pub is_tracked : SocketRoute → Bool
is_tracked (send_payment query) = true
is_tracked mailbox_receive = true
is_tracked _ = false

-- A payment is to say that it is a POST.
abbrev pub is_allowed : SocketRoute → Bool
is_allowed (send_payment query) = contains (ascii "method=POST") query
is_allowed _ = true

-- tapd took a connection at the place, below the address that is set up, with the macaroon.
abbrev pub IsConnected : Network → ℕ → Text → WebSocketConnectionManager → Type 0
IsConnected n now place m =
    (host : Text) × (n.connect now (record {
      uri = websocket_url m.backend_url ++ place;
      host = host;
      macaroon = m.macaroon_hex;
      tls_verify = m.tls_verify;
    })
      ≡ parsed tt)

-- A session of the proxy towards the place, under the identifiers that were drawn for it.
pub record IsServed (session_id : Text) (conn_id : ℕ) (place : Text) (tracked : Bool)
    (h : WebSocketProxyHandler) : Type 0 where
  pub session : ProxySession
  pub connection : BackendConnection
  pub stored : get session_id h.active_proxies ≡ some session
  pub endpoint : session.backend_endpoint ≡ place
  pub carried_by : session.backend_conn_id ≡ conn_id
  pub required : session.correlation_required ≡ tracked
  pub tracker : is_some session.correlation_tracker ≡ tracked
  pub open_at : get conn_id h.connection_manager.connections ≡ some connection
  pub connected_to : connection.endpoint ≡ place

-- The proxy answers with an error.
abbrev pub IsError : SocketAnswer → Type 0
IsError (proxied accepted) = ⊥
IsError (proxied a) = Unit
IsError (bad_request m) = ⊥

-- Why a socket that is let through was not opened.
abbrev pub Failure : Network → Parsed (Unit {0}) → Opening → Text → WebSocketProxyHandler → Type 0
Failure n upgraded o place h =
    ((e : Text) × (upgraded ≡ rejected e))
    ⊎ ((e : AppError) × (dial n o.at.instant place h.connection_manager ≡ err e))

-- What the proxy does for a place: a session with its connection, or nothing and an error.
abbrev pub Outcome :
    Network
    → Parsed (Unit {0})
    → Opening
    → Text
    → Bool
    → WebSocketProxyHandler
    → WebSocketProxyHandler
    → SocketAnswer
    → Type 0
Outcome n upgraded o place tracked h h' a =
    ((a ≡ proxied accepted)
      × IsServed o.session_id o.backend_conn_id place tracked h'
      × IsConnected n o.at.instant place h.connection_manager)
    ⊎ ((h' ≡ h) × IsError a × Failure n upgraded o place h)

err-ok : {A : Type 0} {e : AppError} {a : A} → ¬ (Result.err e ≡ ok a)
err-ok p = ground arith

-- Through: as `Outcome` says. Refused: nothing happens, and the request is bad.
abbrev pub Answered :
    SocketRoute
    → Network
    → Parsed (Unit {0})
    → Opening
    → WebSocketProxyHandler
    → WebSocketProxyHandler
    → SocketAnswer
    → Type 0
Answered route n upgraded o h h' a =
    ((is_allowed route ≡ true) × Outcome n upgraded o (target route) (is_tracked route) h h' a)
    ⊎ ((is_allowed route ≡ false) × (h' ≡ h) × (m : Text) × (a ≡ bad_request m))
