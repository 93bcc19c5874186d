-- ===== src/Tests.antt =====
-- Concrete inputs of the theorems.
mod Breakers
mod Signing
mod Middleware
mod Streams
mod TaskRequests
mod Accounts
mod Users
mod Chaos
