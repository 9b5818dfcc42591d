-- ===== src/Safety.antt =====
-- internal/safety: the engine that decides whether a path may be mutated.
pub mod Remediation
pub mod Input
pub mod Guards
pub mod Risk
pub mod Engine
pub mod Revalidate
