-- ===== src/Tests.antt =====
-- Runs of the model on concrete inputs, and the theorems at such inputs.
mod World
mod Notification
mod Extraction
mod Handlers
mod Admin
mod Callbacks
mod Order
mod Payment
mod Outbox
mod Quotation
mod Recreated
mod Warehouse
