-- ===== src/Quotation/Extraction.antt =====
-- backend/internal/quotation/adapters/extraction: which addresses a product is fetched from.
pub mod Hosts
pub mod Safety
pub mod Addresses
pub mod Client
pub mod Routing
pub mod Config
