-- ===== src/Examples/Sockets.antt =====
-- The socket of RFQ events with one poll that tapd answers and one that fails, and a payment.
use taproot_assets_rest_gate.Prelude.{
  ◌≤◌, ◌≡◌, Text, ascii, true, false, none, some, List, [], ◌∷◌, ◌++◌, map, length, refl,
}
use taproot_assets_rest_gate.Json.{null}
use taproot_assets_rest_gate.Api.Upstream.{Client, done, failed}
use taproot_assets_rest_gate.Proxy
use taproot_assets_rest_gate.Proxy.{WebSocketProxyHandler}
use taproot_assets_rest_gate.Proxy.Frames.{ClientMessage, received}
use taproot_assets_rest_gate.Api.Rfq.Socket.{Action, client, tick, poll, opened, run}
use taproot_assets_rest_gate.Api.Rfq.Socket.Feed.{texts, feed, question, feed_order}
use taproot_assets_rest_gate.Examples.Addresses.{gateway}
use taproot_assets_rest_gate.Examples.Proxies.{manager}

abbrev answers : Client
answers request = done (record { status = 200; text = none; json = done null })

abbrev silent : Client
silent request = failed (record { is_timeout = true; is_connect = false; shown = ascii "timeout" })

-- A poll, its text, a pause, and a poll whose text is still to be sent.
abbrev polls : List Action
polls =
    tick true
    ∷ poll answers true
    ∷ client (some (received (ClientMessage.ping (ascii "x")))) true
    ∷ poll answers true
    ∷ poll answers true
    ∷ poll silent true
    ∷ []

feed_order_example :
    let s = run gateway polls (opened true) in
    ((rest : List Text) × (texts s.handed ++ rest ≡ feed gateway s.fetched) × (length rest ≤ 1))
    × (s.requests ≡ map (question gateway) s.fetched)
    × (s.live ≡ false → run gateway polls s ≡ s)
feed_order_example = feed_order gateway polls polls

-- A failure of tapd is told, and the polling goes on.
two_polls : length (run gateway polls (opened true)).fetched ≡ 2
unfolding run opened
two_polls = refl

abbrev handler : WebSocketProxyHandler
handler = Proxy.new manager

abbrev payment : Text
payment = ascii "method=POST"
