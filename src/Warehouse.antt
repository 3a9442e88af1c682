-- ===== src/Warehouse.antt =====
-- The warehouse service (backend/internal/warehouse).
pub mod Domain
pub mod Repository
pub mod Service
pub mod Http
