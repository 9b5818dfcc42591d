-- ===== src/Collect.antt =====
-- internal/collect: what the collectors record of an entry.
pub mod Fingerprint
