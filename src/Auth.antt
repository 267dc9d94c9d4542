-- ===== src/Auth.antt =====
-- modules/auth and shared/auth: accounts, refresh tokens and the login lockout.
pub mod Data
pub mod Lockout
pub mod Tokens
pub mod Accounts
pub mod Step
pub mod Family
pub mod Locked
pub mod Oauth
mod Examples
