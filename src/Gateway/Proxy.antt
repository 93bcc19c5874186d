-- ===== src/Gateway/Proxy.antt =====
-- services/api-gateway/app/routes/proxy.py: routing, forwarding and retrying.
pub mod Dispatch
pub mod Retry
pub mod Headers
pub mod Owned
pub mod Trust
pub mod Route
