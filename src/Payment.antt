-- ===== src/Payment.antt =====
-- The payment service (backend/internal/payment).
pub mod Domain
pub mod History
pub mod Repository
pub mod Service
pub mod Http
