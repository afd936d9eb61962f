-- ===== src/Stream.antt =====
-- The guard of executor streams, backend/src/application/runtime_safety.py, and the closed failure
-- codes of backend/src/application/run_execution.py.
pub mod Guard
pub mod Run
pub mod Runtime
mod Tests
