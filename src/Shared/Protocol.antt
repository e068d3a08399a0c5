-- ===== src/Shared/Protocol.antt =====
-- shared/com_protocol.c: the messages between a user and the server.
pub mod Request
pub mod Reply
pub mod Bytes
pub mod FifoName
pub mod Delivery
pub mod RoundTrip
pub mod ReplyBytes
pub mod Pipe
mod Tests
unfoldable pub use Request.*
unfoldable pub use Reply.*
