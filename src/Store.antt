-- ===== src/Store.antt =====
-- internal/store: the durable records.
pub mod Cleanup
