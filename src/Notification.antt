-- ===== src/Notification.antt =====
-- The notification service (backend/cmd/notification-service).
pub mod Hub
pub mod Service
