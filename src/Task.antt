-- ===== src/Task.antt =====
-- services/task-service/app/: projects and tasks.
pub mod Pagination
pub mod Models
pub mod Idempotency
pub mod Routes
