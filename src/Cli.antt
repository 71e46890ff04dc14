-- ===== src/Cli.antt =====
-- The client with chat windows, hw1_cli/client.c.
pub mod State
pub mod Buffer
pub mod Text
pub mod Users
pub mod Login
pub mod Chat
pub mod Invariant
pub mod Conversation
pub mod Schedule
pub mod Main
mod Tests
