-- ===== src/Admin.antt =====
-- The admin service (backend/internal/admin).
pub mod Domain
pub mod Currencies
pub mod Config
pub mod Vietcombank
pub mod Service
