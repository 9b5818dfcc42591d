-- ===== src/Core.antt =====
-- internal/core: the domain contracts that every component shares.
pub mod Contract
pub mod ActionKind
pub mod ArtifactClass
pub mod EntryKind
pub mod EvidenceSource
pub mod ProtectionKind
pub mod Retention
pub mod Paths
pub mod Origin
pub mod ActionStatus
pub mod Errors
pub mod Entry
pub mod Verdict
pub mod Action
pub mod Cleanup
pub mod Capacity
pub mod CollectorStatus
pub mod ScanStatus
pub mod PlanStatus
pub mod Scan
pub mod Plan
