-- ===== src/Server.antt =====
-- The server: server_f/*.c.
pub mod Paths
pub mod SyncLog
pub mod Sync
pub mod Offices
pub mod Parse
pub mod Requests
pub mod Office
pub mod Main
pub mod Threads
pub mod Pool
mod Tests
