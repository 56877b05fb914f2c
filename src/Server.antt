-- ===== src/Server.antt =====
-- The server's work on messages, a_cat/server/work/work.c.
pub mod Online
pub mod Accounts
pub mod Texts
pub mod State
pub mod Handler
pub mod Rendezvous
pub mod Relay
pub mod Files
pub mod Main
