-- ===== src/Lib.antt =====
-- workspace-janitor: the decisions of the workspace cleaner.
--
-- The program scans directories, lets rules (and perhaps a model) propose what to do with each entry,
-- asks a safety engine whether a mutation is permitted, checks again immediately before it, and
-- journals every move so that it can be undone or expired.
--
-- Parts and files:
--   Prelude     Go strings, int64, sorting, path/filepath and filepath.Match, as far as they are used.
--   Core        internal/core: the enumerations, entries, protections and retention windows
--               (contract.go, entry.go, retention.go), containment of paths (paths.go), verdicts
--               (verdict.go), actions, scans, plans with their summaries, model usage and approvals
--               (plan.go), cleanup items (cleanup.go), pressure (capacity.go).
--   Safety      internal/safety: the input (safety.go), the twelve guards (guards.go), `Evaluate` and
--               `ClampRecommendation` (safety.go), `Revalidate` (revalidate.go). Safety/Risk reads the
--               same input without any guard: it is the specification of the engine.
--   Collect     internal/collect/fingerprint.go: the digest that binds a plan to its evidence.
--   Plan        internal/plan: classification (classify.go, adapters.go), proposals and the decision
--               (rules.go), and plan.go: what an advisor's answer may do to a decision (Advice), the
--               digests and the binding (Digest), relocations that collide (Collisions), and the
--               plan of a whole inventory (Build).
--   Store       internal/store/cleanup.go with its tables and triggers (migrations.go): the journal
--               as a table and a list of events, and the stores that committed calls lead to.
--   Actions     internal/action, the executor: paths and identities (Paths), directories opened one
--               component at a time (Dirs, mkdir_linux.go), renames (Rename, rename_linux.go), the
--               deletion marker (Marker, marker_linux.go), the receipt's manifest (Manifest,
--               manifest.go), the removal (Delete, delete_linux.go); from engine.go and retention.go
--               the fresh observation (Observe, with internal/collect/evidence.go), the eligibility of
--               an expired receipt (Eligible), what became of a missing object (Settle), the journal
--               writes (Journal, with internal/store/store.go), Prepare and Quarantine (Move), and
--               Reconcile, Restore and Delete (Reconcile, Restore, Expire), and the
--               preflights of mutations that others make (Preflight). Actions/Runs is the relation of
--               the machines that sequences of these calls lead to.
--   Examples    sample data, runs of the code on it, and each theorem at a concrete input.
--
-- How they interact: Plan asks Safety for a verdict and decides; Safety reads entries of Core and
-- digests of Collect; Store keeps the cleanup items of Core. The verdict is the only thing that passes
-- from Safety to Plan, and the gate of Plan/Rules is where it is enforced. Actions asks Safety again,
-- with an observation of its own, before every move and deletion, and writes to Store around it.
--
-- How the code is read: a struct is a record, a string type with constants is a data type whose last
-- constructor is any other string (the states of cleanup and of pressure stay strings), a pointer is
-- an Option. A time is the number of nanoseconds since Go's zero time, so that `UTC` changes nothing;
-- times before it are not modelled. int64 sums wrap around (Prelude/Int). A confidence is a number of
-- thousandths or not a number. A field error keeps its format and arguments. Arguments of the model
-- stand for SHA-256, the JSON encodings, `%g`, the advisor, the collector that observes again and the
-- open handle. What the executor asks of the operating system, Git, the collectors and the database is
-- a record of functions, System, on a state of the files: a call that reads leaves the state as it is,
-- a call that writes answers the next state, whatever that is, and the clock is read from the state, so
-- that other processes act on the files only together with such a call or between the executor's
-- operations. A Go error is its text; a deferred close or rollback that the caller cannot see is left
-- out. Loops are structural recursion; decimal printing has the number itself as fuel, which is more
-- than its digits.
--
-- Not modelled: of internal/action the recursive walks that remove or verify a tree, the Git commands,
-- and the reclaim estimate; the collectors, archives, the HTTP client of
-- internal/jev, the command line, YAML and JSON, and the SQL tables other than the cleanup journal's:
-- they are input and output around the decisions modelled here.
pub mod Prelude
pub mod Core
pub mod Safety
pub mod Collect
pub mod Plan
pub mod Store
pub mod Actions
pub mod Examples
