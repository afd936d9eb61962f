-- ===== src/Agent/Graph.antt =====
-- The graph of `_build_graph` of backend/src/core/main_agent_react.py and its run. One unit of fuel
-- is one node; langgraph raises when `recursion_limit` nodes have run and the next is not END.
use oper_mind.Base.{ℕ, zero, suc, Bool, Option, none, some, is_some, ◌||◌, if◌then◌else◌}
use oper_mind.Agent.Budget.{MainAgentBudget}
use oper_mind.Agent.Records.{MainDecision, MainReactState, MainReactOutcome}
use oper_mind.Agent.Kernel.{MainReactKernel, Round, initial_state, outcome_from_state}
use oper_mind.Agent.Nodes.{decide_node, finalize_answer_node, finalize_needs_input_node}
use oper_mind.Agent.Skill.{load_skill_node}
use oper_mind.Agent.Invoke.{invoke_capability_node}

pub data Node : Type 0 where
  decide finalize_answer finalize_needs_input load_skill invoke_capability : Node

abbrev pub is_stopped : MainReactState → Bool
is_stopped st = is_some st.failure || st.canceled

abbrev pub node_of : Option MainDecision → Option Node
node_of none = none
node_of (some (MainDecision.answer _)) = some Node.finalize_answer
node_of (some (MainDecision.needs_input _)) = some Node.finalize_needs_input
node_of (some (MainDecision.load_skill _ _)) = some Node.load_skill
node_of (some (MainDecision.invoke _ _ _)) = some Node.invoke_capability

-- `_route_after_decide`; `none` is END.
unfoldable pub route_after_decide : MainReactState → Option Node
route_after_decide st = if is_stopped st then none else node_of st.decision

-- `_route_after_step`
unfoldable pub route_after_step : MainReactState → Option Node
route_after_step st = if is_stopped st then none else some Node.decide

-- The round of a node: `decide` begins the next one.
abbrev pub round_at : Node → ℕ → ℕ
round_at Node.decide step = suc step
round_at _ step = step

-- The edges of the graph
unfoldable pub next_node : Node → MainReactState → Option Node
next_node Node.decide st = route_after_decide st
next_node Node.load_skill st = route_after_step st
next_node _ st = none

-- `none` is an exception that leaves the node.
unfoldable pub visit : MainReactKernel → Round → Node → MainReactState → Option MainReactState
visit k w Node.decide st = some (decide_node k w st)
visit k w Node.finalize_answer st = finalize_answer_node st
visit k w Node.finalize_needs_input st = some (finalize_needs_input_node k st)
visit k w Node.load_skill st = load_skill_node k w st
visit k w Node.invoke_capability st = some (invoke_capability_node k w st)

-- `rounds n` is what happens in round n.
unfoldable pub run_graph :
    MainReactKernel → (ℕ → Round) → ℕ → Option Node → MainReactState → Option MainReactState
run_graph k rounds fuel none st = some st
run_graph k rounds zero (some node) st = none
run_graph k rounds (suc fuel) (some node) st =
    elim (visit k (rounds (round_at node st.step)) node st) [
      | none ↦ none
      | some next ↦ run_graph k rounds fuel (next_node node next) next
    ]

abbrev pub recursion_limit : ℕ
recursion_limit = 50

unfoldable pub final_outcome : Option MainReactState → Option MainReactOutcome
final_outcome none = none
final_outcome (some st) = some (outcome_from_state st)

-- `MainReactKernel.run`
unfoldable pub run : MainReactKernel → (ℕ → Round) → MainAgentBudget → Option MainReactOutcome
unfolding final_outcome
run k rounds budget =
    final_outcome (run_graph k rounds recursion_limit (some Node.decide) (initial_state k budget))
