-- ===== src/Agent/Grants.antt =====
-- The grants of the budget of backend/src/core/main_agent_budget.py.
use oper_mind.Base.{
  ℕ, ◌+◌, ◌≤◌, ◌<◌, ◌≡◌, inl, inr, false, Option, none, some, leb, Bool-cases, arith,
}
use oper_mind.Agent.Budget.{
  BudgetGrant, MainAgentBudget, grant, remaining, max_model_call, max_tool_wait, start_decision,
  start_tool_call,
}

-- A grant at `now` is positive, keeps to its own limit and ends by the deadline.
abbrev pub IsTimely : (limit now : ℕ) → MainAgentBudget → Option BudgetGrant → Type 0
IsTimely limit now b none = Unit
IsTimely limit now b (some g) =
    (0 < g.effective) × (g.effective ≤ limit) × (now + g.effective ≤ b.deadline)

grant-IsTimely :
    (limit now : ℕ) (b : MainAgentBudget)
    → 0 < limit
    → leb (remaining now b) 0 ≡ false
    → IsTimely limit now b (some (grant limit (remaining now b)))
grant-IsTimely limit now b some_limit left = (ground arith, ground arith, ground arith)

decision-IsTimely :
    (now : ℕ) (b : MainAgentBudget) → IsTimely max_model_call now b (start_decision now b).0
unfolding start_decision
decision-IsTimely now b = elim (Bool-cases (leb b.max_decisions b.decisions)) [
  | inl out ↦ rw out tt
  | inr left ↦ elim (Bool-cases (leb (remaining now b) 0)) [
    | inl late ↦ rw (left, late) tt
    | inr early ↦ rw (left, early) (grant-IsTimely max_model_call now b (omega arith) early)
  ]
]

tool_call-IsTimely :
    (now : ℕ) (b : MainAgentBudget) → IsTimely max_tool_wait now b (start_tool_call now b).0
unfolding start_tool_call
tool_call-IsTimely now b = elim (Bool-cases (leb b.max_calls b.tool_calls)) [
  | inl out ↦ rw out tt
  | inr left ↦ elim (Bool-cases (leb (remaining now b) 0)) [
    | inl late ↦ rw (left, late) tt
    | inr early ↦ rw (left, early) (grant-IsTimely max_tool_wait now b (omega arith) early)
  ]
]

-- The time that the budget grants to a model decision is positive, at most 30 seconds, and ends by
-- the deadline of the run; the same holds of a tool call with 3 seconds.
pub start_calls-IsTimely :
    (now : ℕ) (b : MainAgentBudget)
    → IsTimely 30000 now b (start_decision now b).0 × IsTimely 3000 now b (start_tool_call now b).0
start_calls-IsTimely now b = (decision-IsTimely now b, tool_call-IsTimely now b)
