-- ===== src/Client.antt =====
-- The client: sending one file to its targets.
pub mod Targets
pub mod Files
pub mod Sender
pub mod Cli
