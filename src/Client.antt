-- ===== src/Client.antt =====
-- The client, a_cat/client.
pub mod Blocks
pub mod Sender
pub mod Receiver
pub mod Copy
pub mod Screens
pub mod Manager
pub mod Handover
pub mod Printing
mod Tests
