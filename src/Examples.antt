-- ===== src/Examples.antt =====
-- Tests, and the theorems at concrete inputs.
pub mod Parts
pub mod Auth
pub mod Limits
pub mod Storage
pub mod Requests
pub mod Correlations
pub mod Routes
pub mod Addresses
pub mod Networks
pub mod Proxies
pub mod Sockets
pub mod Mailboxes
