-- ===== src/Safety/Guards.antt =====
-- internal/safety/guards.go: the core invariants, one function for each guard.
pub mod Raise
pub mod Observed
pub mod Location
pub mod Destination
