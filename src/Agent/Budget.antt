-- ===== src/Agent/Budget.antt =====
-- The budget of one run, backend/src/core/main_agent_budget.py. Times are milliseconds; `now` is the
-- reading of the clock in `remaining`.
use oper_mind.Base.{ℕ, suc, ◌+◌, ◌-◌, min, Option, none, some, Bool, ltb, leb, ◌&&◌, if◌then◌else◌}

abbrev pub max_main_decisions : ℕ
max_main_decisions = 6

abbrev pub max_knowledge_loads : ℕ
max_knowledge_loads = 2

abbrev pub max_agent_tool_calls : ℕ
max_agent_tool_calls = 3

abbrev pub max_run_wall_clock : ℕ
max_run_wall_clock = 120000

abbrev pub max_model_call : ℕ
max_model_call = 30000

abbrev pub max_tool_wait : ℕ
max_tool_wait = 3000

pub record BudgetGrant : Type 0 where
  pub effective : ℕ
  pub clipped : Bool

pub record MainAgentBudget : Type 0 where
  pub deadline : ℕ
  pub max_decisions : ℕ
  pub max_loads : ℕ
  pub max_calls : ℕ
  pub decisions : ℕ
  pub knowledge_loads : ℕ
  pub tool_calls : ℕ

-- `MainAgentBudget()`, made at `now`
abbrev pub new_budget : ℕ → MainAgentBudget
new_budget now = record {
  deadline = now + max_run_wall_clock;
  max_decisions = max_main_decisions;
  max_loads = max_knowledge_loads;
  max_calls = max_agent_tool_calls;
  decisions = 0;
  knowledge_loads = 0;
  tool_calls = 0;
}

abbrev pub remaining : ℕ → MainAgentBudget → ℕ
remaining now b = b.deadline - now

-- The grant of a call whose own limit is `limit`.
abbrev pub grant : (limit left : ℕ) → BudgetGrant
grant limit left = record { effective = min limit left; clipped = ltb left limit }

unfoldable pub start_decision : ℕ → MainAgentBudget → Option BudgetGrant × MainAgentBudget
start_decision now b =
    if leb b.max_decisions b.decisions
    then (none, b)
    else if leb (remaining now b) 0
    then (none, b)
    else (some (grant max_model_call (remaining now b)), record b { decisions = suc b.decisions })

unfoldable pub can_load_knowledge : ℕ → MainAgentBudget → Bool
can_load_knowledge now b = ltb b.knowledge_loads b.max_loads && ltb 0 (remaining now b)

-- `none` is the ValueError.
unfoldable pub record_knowledge_load : MainAgentBudget → Option MainAgentBudget
record_knowledge_load b =
    if leb b.max_loads b.knowledge_loads
    then none
    else some (record b { knowledge_loads = suc b.knowledge_loads })

unfoldable pub start_tool_call : ℕ → MainAgentBudget → Option BudgetGrant × MainAgentBudget
start_tool_call now b =
    if leb b.max_calls b.tool_calls
    then (none, b)
    else if leb (remaining now b) 0
    then (none, b)
    else (some (grant max_tool_wait (remaining now b)), record b { tool_calls = suc b.tool_calls })
