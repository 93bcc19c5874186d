-- ===== src/Gateway.antt =====
-- The API gateway, services/api-gateway/app: a module per file of that folder.
pub mod Breaker
pub mod Proxy
pub mod RateLimiter
pub mod Keyring
pub mod Auth
pub mod BodySize
pub mod Correlation
pub mod Pipeline
pub mod SecurityHeaders
pub mod Config
