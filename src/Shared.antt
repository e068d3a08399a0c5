-- ===== src/Shared.antt =====
-- The code that the server and its users share: shared/*.c.
pub mod Crypto
pub mod Log
pub mod Accounts
pub mod Utilities
pub mod Protocol
pub mod Queue
