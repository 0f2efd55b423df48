-- ===== src/Admin.antt =====
-- The administration side (src/casino_bot/admin/ and src/casino_bot/core/security.py).
pub mod Security
pub mod Sessions
pub mod Lockout
pub mod Login
pub mod Guards
pub mod Accounts
pub mod Staff
pub mod Users
pub mod Logout
pub mod Locked
pub mod Books
