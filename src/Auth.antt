-- ===== src/Auth.antt =====
-- Signing in: backend/app/auth.
pub mod Passwords
pub mod Tokens
pub mod Totp
pub mod Mfa
pub mod Sessions
pub mod Passkeys
pub mod Deletion
