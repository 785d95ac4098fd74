-- ===== src/Mailbox/Entrance.antt =====
-- `receive_websocket`: a mailbox's socket goes through the proxy where there is one, and is a session
-- of the gateway's own otherwise.
use taproot_assets_rest_gate.Prelude.{ℕ, Text, Option, none, some, []}
use taproot_assets_rest_gate.Crypto.{Parsed, parsed, rejected}
use taproot_assets_rest_gate.Connections.{Network}
use taproot_assets_rest_gate.Monitoring.{MonitoringService, record_connection}
use taproot_assets_rest_gate.MailboxAuth.Flow.{State}
use taproot_assets_rest_gate.Proxy.{Opening, or_unknown, WebSocketProxyHandler}
use taproot_assets_rest_gate.Api.Sockets.{SocketAnswer, receive_websocket_with_proxy}
use taproot_assets_rest_gate.Mailbox.Session.{awaiting_init}
use taproot_assets_rest_gate.Mailbox.Loop.{Connection, monitored}

-- Where `handle_mailbox_websocket_connection` begins.
abbrev pub connection : ℕ → Option MonitoringService → State → Connection
connection now monitoring shared = record {
  session = record {
    state = awaiting_init;
    pending_init = none;
    sent = [];
    requests = [];
    monitoring = monitoring;
    shared = shared;
  };
  limits = record { message_count = 0; last_reset = now };
}

-- The proxy's answer, a session whose loop is started, or the error of the upgrade.
pub data Entered : Type 0 where
  through_proxy : WebSocketProxyHandler × SocketAnswer → Entered
  own : Connection → Entered
  not_upgraded : Text → Entered

abbrev pub own_session :
    Parsed (Unit {0}) → Text → Opening → Option MonitoringService → State → Entered
own_session (rejected e) connection_id o monitoring shared = not_upgraded e
own_session (parsed upgraded) connection_id o monitoring shared =
    let now = o.at.instant in
    own (
      connection now
        (monitored (record_connection connection_id (or_unknown o.peer_addr) now) monitoring)
        shared)

unfoldable pub receive_websocket :
    Option WebSocketProxyHandler
    → Network
    → Parsed (Unit {0})
    → Text
    → Opening
    → Option MonitoringService
    → State
    → Entered
receive_websocket (some handler) n upgraded connection_id o monitoring shared =
    through_proxy (receive_websocket_with_proxy n upgraded o handler)
receive_websocket none n upgraded connection_id o monitoring shared =
    own_session upgraded connection_id o monitoring shared
