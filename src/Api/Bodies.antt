-- ===== src/Api/Bodies.antt =====
-- The bodies of requests, by the file that declares them.
pub mod Universe
pub mod Assets
pub mod Wallet
pub mod Channels
pub mod Proofs
pub mod Rfq
pub mod Send
pub mod Addresses
