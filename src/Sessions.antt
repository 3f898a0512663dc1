-- ===== src/Sessions.antt =====
-- apps/api/src/auth/token.service.ts: refresh tokens, their rotation with reuse detection, and the
-- ends of sessions.
pub mod Rows
pub mod Rotation
pub mod Revoked
pub mod Ended
pub mod Steps
pub mod Logout
mod Tests
