-- ===== src/MailboxAuth.antt =====
-- src/api/mailbox_auth.rs: the challenges, and what a receiver must show to be served.
pub mod Challenges
pub mod Credentials
pub mod Receivers
pub mod Flow
