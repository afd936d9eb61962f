-- ===== src/Runs.antt =====
-- Runs of a conversation: accepting, claiming, executing, cancelling and ending them
-- (backend/src/application/services.py, backend/src/application/run_execution.py and the repositories
-- under them).
pub mod Records
pub mod Inputs
pub mod Store
pub mod Routing
pub mod Sessions
pub mod Lifecycle
pub mod Complete
pub mod Claim
pub mod Context
pub mod Accept
pub mod Rerun
pub mod View
pub mod Writes
pub mod Recorded
pub mod Journal
pub mod Steps
pub mod Transition
pub mod Schedule
pub mod Refinement
pub mod EventData
pub mod Execute
pub mod Samples
mod Tests
pub mod Returns
pub mod Stage
pub mod Settles
pub mod Liveness
pub mod Reread
pub mod RoundTrip
pub mod ContextBounds
pub mod Whitelist
pub mod Replay
pub mod Facts
