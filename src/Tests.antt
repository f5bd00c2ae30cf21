-- ===== src/Tests.antt =====
-- Concrete messages, connections and files that the theorems apply to.
mod Wire
mod Server
mod Config
mod Main
mod Overlap
mod Client
mod Cluster
