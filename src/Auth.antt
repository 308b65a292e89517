-- ===== src/Auth.antt =====
-- backend/src/auth/auth.service.ts: the operations of `AuthService`, one group to a child.
pub mod Session
pub mod Login
pub mod Refresh
pub mod Internal
pub mod Life
