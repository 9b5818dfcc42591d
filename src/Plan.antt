-- ===== src/Plan.antt =====
-- internal/plan: from inventory evidence to reviewable decisions.
pub mod Policy
pub mod Durations
pub mod Adapters
pub mod Classify
pub mod Proposals
pub mod Rules
pub mod Advice
pub mod Digest
pub mod Collisions
pub mod Build
