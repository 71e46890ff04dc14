-- ===== src/First.antt =====
-- The first version of the client: hw1_client/src/client.c.
pub mod Protocol
pub mod Strings
pub mod Login
pub mod Chat
pub mod Print
pub mod Talk
pub mod Main
mod Tests
