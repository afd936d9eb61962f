-- ===== src/Actions.antt =====
-- Controlled actions: a repair proposal is approved or rejected by a person, claimed, executed
-- by a fixed executor and verified (backend/src/domain/actions.py,
-- backend/src/application/action_services.py and the repositories under it).
pub mod Records
pub mod Store
pub mod Events
pub mod Approval
pub mod Claim
pub mod Execution
pub mod Execute
pub mod View
pub mod Diagram
pub mod Sound
pub mod Schedule
pub mod Guards
pub mod Replay
mod Tests
