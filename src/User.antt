-- ===== src/User.antt =====
-- The user's program: user_f/*.c.
pub mod Arguments
pub mod Process
pub mod Parse
mod Tests
