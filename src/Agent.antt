-- ===== src/Agent.antt =====
-- The main agent of backend/src/core: a bounded loop that asks a model for decisions, loads skills,
-- calls one tool and delivers an answer, a question or a comparison.
pub mod Records
pub mod Budget
pub mod Comparison
pub mod Registry
pub mod Bindings
pub mod Kernel
pub mod Nodes
pub mod Skill
pub mod Invoke
pub mod Graph
pub mod Rules
pub mod Finish
pub mod Steady
pub mod Ending
pub mod Limits
pub mod Grounding
pub mod Delivered
pub mod Lookup
pub mod Keys
pub mod Wording
mod Tests
pub mod Validation
pub mod Grants
