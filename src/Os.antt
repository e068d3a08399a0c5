-- ===== src/Os.antt =====
-- What the code asks of the C library, POSIX and the program's globals, as calls that a program
-- makes, and a run of one thread over them.
pub mod Run
pub mod Calls
pub mod Programs
pub use Calls.*
pub use Programs.*
