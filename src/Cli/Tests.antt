-- ===== src/Cli/Tests.antt =====
-- Runs of the client on concrete inputs: the data, a whole session, and instances of the theorems.
mod Data
mod Session
mod Messages
mod Invariants
mod Logins
mod Loops
mod Conversations
