-- ===== src/Quotation.antt =====
-- The quotation service (backend/internal/quotation).
pub mod Domain
pub mod Extraction
pub mod Price
pub mod Repository
pub mod Service
pub mod Http
pub mod Rates
