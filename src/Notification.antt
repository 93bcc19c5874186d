-- ===== src/Notification.antt =====
-- services/notification-service/app/: the consumer of the task events and the per-user streams.
pub mod Broadcaster
pub mod Consumer
