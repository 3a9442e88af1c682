-- ===== src/Order.antt =====
-- The order service (backend/internal/order).
pub mod Domain
pub mod Ports
pub mod Repository
pub mod Service
pub mod History
pub mod Consumer
pub mod Http
