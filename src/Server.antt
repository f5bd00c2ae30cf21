-- ===== src/Server.antt =====
-- The server: the files it receives and the requests it answers.
pub mod FileManager
pub mod Service
pub mod Config
pub mod Main
pub mod Life
pub mod Overlap
