-- ===== src/Outbox.antt =====
-- The transactional outbox: the table, and the worker that publishes it.
pub mod Table
pub mod Worker
