-- ===== src/Chaos.antt =====
-- services/chaos-controller/app/: a simulated cluster and the failures that are played on it.
pub mod Script
pub mod Cluster
pub mod Ambient
pub mod Noise
pub mod Pods
pub mod Actions
pub mod Outages
pub mod Cascades
pub mod Steady
pub mod Regions
pub mod Commands
pub mod OneService
pub mod Quiet
pub mod Recovery
pub mod Completion
pub mod Overlap
pub mod Hub
pub mod Scenario
pub mod Routes
pub mod Config
