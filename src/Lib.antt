-- ===== src/Lib.antt =====
-- Verification of the Taproot Assets REST gateway: an HTTP and WebSocket proxy in front of tapd.
--
-- A request comes in through the middleware (src/middleware.rs), which checks the API key and limits
-- the requests of each client. A handler (src/api/) validates its parameters, calls tapd with the
-- macaroon, and answers with what tapd said or with an error (src/error.rs). The mailbox
-- (src/api/mailbox.rs, src/api/mailbox_auth.rs) authenticates a receiver by a challenge that it signs
-- (src/crypto.rs), and records it (src/database.rs). WebSockets are counted (src/monitoring.rs), and
-- messages of the proxy carry correlation identifiers (src/websocket/correlation.rs).
--
-- Prelude is shared: Boolean tests, lists, association lists for `HashMap`, texts as lists of UTF-8
-- bytes, instants as nanoseconds, `i64` with its wrap-around, and decimal numerals. Json has the
-- documents of serde_json; reader and writer are a parameter, `Serde`, and `SerdeLaws` says that what
-- is written can be read back.
-- Error is src/error.rs: `AppError`, and the response to each error. The `http` crate's two tests on
-- status codes are a parameter, `Http`.
-- Api/Params is the validators of src/api/mod.rs, Api/Upstream the calls of tapd there. `reqwest`'s
-- client is a function from a request to an answer or an error, and a call returns the requests that
-- it sent beside its result. Api/Answers is about what a relayed call is answered, Api/Burn is
-- src/api/burn.rs.
-- Config is src/config.rs, and the choice of src/main.rs whether to start without an API key.
-- Middleware/Auth, Middleware/RateLimit and Middleware/RequestId are `ApiKeyAuth`, `RateLimiter` and
-- `RequestIdMiddleware`. One state of the limiter is that of one worker, in which `call` runs under
-- the locks.
-- Pool is src/connection_pool.rs as a step relation: the waits of `get_client` and of the drop stand
-- between steps, so that any interleaving is a sequence of steps.
-- Monitoring is src/monitoring.rs, one function for each operation, and `apply` for any of them.
-- Crypto is src/crypto.rs over a record of the libraries' parsers and verifiers.
-- Database is src/database.rs: a list of rows for the SQLite table, and two maps for the Redis keys.
-- `Conditions` says which commands are answered. The creation of the tables is left out.
-- MailboxAuth is src/api/mailbox_auth.rs: Challenges the table of challenges and the tolerance of
-- times, Credentials and Receivers the checks, and Flow `validate_authentication`. The clock, the
-- client, the libraries and the database's conditions are in `World`. The lookup of a challenge and
-- its removal are two critical sections, which Flow/Races takes apart.
-- Correlation is src/websocket/correlation.rs.
-- Mailbox is src/api/mailbox.rs: Stream the polling of tapd, over a list of polls, which may end
-- before the stream does, Session `handle_mailbox_message`, and Loop the frames of a client, with the
-- shared state that each of them finds. A frame to the client is taken or not by the number of frames
-- before it. Entrance chooses between such a session and the proxy.
-- Connections is src/websocket/connection_manager.rs over a record of what the network does.
-- Proxy is src/websocket/proxy_handler.rs: the table of sessions, and below it `forward_messages`.
-- Proxy/Frames has what is done to one message, Proxy/State a session between two steps, and
-- Proxy/Forward its tasks: a step takes one of the two directions, the ticker or the main task up to
-- its next await. The streams of the client and of tapd are lists, a step says how the send that it
-- awaits ends, and a schedule is a list of steps. The files below Proxy are the theorems.
-- Api/Endpoint is what the endpoints share: the gateway's parameters, requests with the macaroon, and
-- answers. Api/Bodies has the bodies of requests and how serde writes them. Api/Universe, Api/Assets,
-- Api/Wallet, Api/Channels, Api/Proofs, Api/Rfq, Api/Send and Api/Info are the files of these names
-- below src/api: the calls of tapd, in Handlers the handlers, in Routes `configure` as a function
-- from a route to its handler, and in Relayed that a handler makes the request of its route.
-- Api/Confined has the lemmas for that, and Api/Service puts the routes together as
-- src/api/routes.rs does. A path is modelled by its parts, which the web framework has decoded.
-- Api/Assets/Listing is the listing of assets and of mint batches, Api/Addresses is
-- src/api/addresses.rs, Api/Events the endpoints of src/api/events.rs, Mailbox/Mail those of
-- src/api/mailbox.rs, and Api/Stop is src/api/stop.rs and src/api/health.rs. What serde reads into a
-- typed answer is a parameter there. Api/Sockets has the WebSockets that the proxy carries, and
-- Api/Rfq/Socket that of RFQ events: its two tasks, again by steps, where a schedule brings the
-- client's frames, the answers of tapd, and whether the session takes a frame.
-- Examples holds concrete libraries and the theorems at concrete inputs.
--
-- Nothing here runs on fuel but `digits` of Prelude/Decimal, which is given one more than the number
-- and needs at most one step for each digit. Counters of 64 bits wrap around, as in a release build.
-- White space that `trim` takes away is that of ASCII.
-- Not modelled: logging, and the set-up of server, TLS and databases.
pub mod Prelude
pub mod Json
pub mod Error
pub mod Api
pub mod Config
pub mod Middleware
pub mod Pool
pub mod Monitoring
pub mod Crypto
pub mod Database
pub mod MailboxAuth
pub mod Mailbox
pub mod Correlation
pub mod Connections
pub mod Proxy
pub mod Examples
