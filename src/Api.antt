-- ===== src/Api.antt =====
-- src/api: the REST handlers over tapd.
pub mod Params
pub mod Upstream
pub mod Burn
pub mod Answers
pub mod Endpoint
pub mod Confined
pub mod Bodies
pub mod Universe
pub mod Assets
pub mod Wallet
pub mod Channels
pub mod Proofs
pub mod Rfq
pub mod Send
pub mod Info
pub mod Service
pub mod Addresses
pub mod Stop
pub mod Events
pub mod Sockets
