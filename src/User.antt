-- ===== src/User.antt =====
-- services/user-service/app/: users, tokens, lockout, login, accounts and administration.
pub mod Models
pub mod Client
pub mod Login
pub mod Account
pub mod Admin
pub mod Changes
pub mod Requests
