-- ===== src/Agent/Invoke.antt =====
-- `_invoke_capability_node` of backend/src/core/main_agent_react.py.
use oper_mind.Base.{
  ℕ, String, str_eq, Bool, true, false, ◌&&◌, Option, none, some, get_or_else, List, [], ◌∷◌, ◌++◌,
  map, all, find, if◌then◌else◌,
}
use oper_mind.Agent.Budget.{BudgetGrant, start_tool_call}
use oper_mind.Agent.Records.{
  CapabilityKind, CapabilityDefinition, CapabilityTag, MainDecision, MaterialRefs,
  ObservationStatus, MainAgentFailure, RouteDecision, RouteStatus, ToolStatus, StepSignal,
  GatewayResult, MainReactState,
}
use oper_mind.Agent.Comparison.{TextComparison}
use oper_mind.Agent.Registry.{resolve}
use oper_mind.Agent.Bindings.{Inputs, ToolBinding, get_binding, is_number}
use oper_mind.Agent.Kernel.{
  MainReactKernel, Round, with_signals, tag, failed, capability_failure, budget_exhausted,
}
use oper_mind.Agent.Nodes.{same_set}

-- `getattr(self._material_refs, slot, None)`
abbrev pub reference_of : String → MaterialRefs → Option ℕ
reference_of slot refs =
    if str_eq slot "text_a" then refs.text_a else if str_eq slot "text_b" then refs.text_b else none

-- `{slot: UUID(decision.inputs[slot]) for slot in declared_slots}`, `none` where a text is no UUID
unfoldable pub parse_inputs :
    (String → Option ℕ) → List String → List (String × String) → Option Inputs
parse_inputs parse_uuid [] given = some []
parse_inputs parse_uuid (slot ∷ slots) given =
    let rest = parse_inputs parse_uuid slots given in
    elim (find (λ (i : String × String). str_eq i.0 slot) given) [
      | none ↦ none
      | some i ↦ elim (parse_uuid i.1) [
        | none ↦ none
        | some id ↦ elim rest [ none ↦ none | some inputs ↦ some ((slot, id) ∷ inputs) ]
      ]
    ]

abbrev pub is_owned : MaterialRefs → Inputs → Bool
is_owned refs inputs = all (λ (i : String × ℕ). is_number (reference_of i.0 refs) i.1) inputs

pub tool_signal : CapabilityDefinition → GatewayResult → ℕ → StepSignal
tool_signal d r step = StepSignal.tool step d.capability_id d.version r.status r.duration_ms

unfoldable pub is_timeout : ToolStatus → Bool
is_timeout ToolStatus.timeout = true
is_timeout _ = false

unfoldable pub call_signals :
    CapabilityDefinition
    → GatewayResult
    → RouteDecision
    → RouteStatus
    → MainReactState
    → MainReactState
unfolding tool_signal
call_signals d r decision status st =
    with_signals
      (StepSignal.route st.step decision (some (tag d)) status ∷ tool_signal d r st.step ∷ []) st

-- A call whose status is not `ok`
unfoldable pub call_failed :
    CapabilityDefinition → BudgetGrant → GatewayResult → MainReactState → MainReactState
unfolding call_signals
call_failed d g r st =
    if g.clipped && is_timeout r.status
    then call_signals d r RouteDecision.budget_exhausted RouteStatus.unavailable
        (record st { failure = some MainAgentFailure.budget_exhausted })
    else call_signals d r RouteDecision.invoke_capability RouteStatus.unavailable
        (record st { failure = some MainAgentFailure.tool_failed })

unfoldable pub deliver :
    CapabilityDefinition → GatewayResult → Option TextComparison → MainReactState → MainReactState
unfolding call_signals
deliver d r none st =
    call_signals d r RouteDecision.invoke_capability RouteStatus.unavailable
      (record st { failure = some MainAgentFailure.delivery_invalid })
deliver d r (some c) st =
    call_signals d r RouteDecision.invoke_capability RouteStatus.ok (record st {
      comparison = some c;
      used =
          st.used
          ++ record {
            capability_id = d.capability_id;
            capability_version = d.version;
            kind = d.kind;
            status = ObservationStatus.ok;
          }
            ∷ [];
    })

unfoldable pub is_ok : ToolStatus → Bool
is_ok ToolStatus.ok = true
is_ok _ = false

unfoldable pub after_call :
    MainReactKernel
    → Round
    → CapabilityDefinition
    → BudgetGrant
    → ToolBinding
    → Inputs
    → Option GatewayResult
    → MainReactState
    → MainReactState
unfolding call_failed deliver is_ok
after_call k w d g binding inputs none st =
    capability_failure (tag d) RouteDecision.invoke_capability st
after_call k w d g binding inputs (some r) st =
    if w.cancelled_called
    then record st { canceled = true }
    else if is_ok r.status
    then deliver d r (binding.parse_result d r.output k.run_id inputs k.rule_version) st
    else call_failed d g r st

-- The arguments, then the call through the gateway; `none` where either raises.
unfoldable pub call_through :
    Round → BudgetGrant → ToolBinding → Option String → Option GatewayResult
call_through w g binding none = none
call_through w g binding (some arguments) = w.call_tool binding.name arguments g.effective

unfoldable pub call_bound :
    MainReactKernel
    → Round
    → CapabilityDefinition
    → BudgetGrant
    → Inputs
    → Option ToolBinding
    → MainReactState
    → MainReactState
unfolding after_call call_through
call_bound k w d g inputs none st = capability_failure (tag d) RouteDecision.invoke_capability st
call_bound k w d g inputs (some binding) st =
    after_call k w d g binding inputs
      (call_through w g binding (binding.build_arguments d inputs k.rule_version)) st

abbrev pub is_comparison : Option String → Bool
is_comparison none = false
is_comparison (some kind) = str_eq kind "comparison"

-- `definition.tool_bindings[0]`, after the tests on the declaration
unfoldable pub call_declared :
    MainReactKernel
    → Round
    → CapabilityDefinition
    → BudgetGrant
    → Inputs
    → List String
    → MainReactState
    → MainReactState
unfolding call_bound
call_declared k w d g inputs [] st = capability_failure (tag d) RouteDecision.invoke_capability st
call_declared k w d g inputs (name ∷ names) st =
    if is_comparison d.delivery_kind
    then call_bound k w d g inputs (get_binding name k.tool_bindings) st
    else capability_failure (tag d) RouteDecision.invoke_capability st

unfoldable pub call_with :
    MainReactKernel
    → Round
    → CapabilityDefinition
    → BudgetGrant
    → Option Inputs
    → MainReactState
    → MainReactState
unfolding call_declared
call_with k w d g none st = failed MainAgentFailure.model_decision_invalid (some (tag d)) st
call_with k w d g (some inputs) st =
    if is_owned k.material_refs inputs
    then call_declared k w d g inputs d.tool_bindings st
    else capability_failure (tag d) RouteDecision.invoke_capability st

abbrev pub declared_slots : CapabilityDefinition → List String
declared_slots d = map (λ s. s.slot) d.material_slots

unfoldable pub invoke_granted :
    MainReactKernel
    → Round
    → CapabilityDefinition
    → List (String × String)
    → Option BudgetGrant
    → MainReactState
    → MainReactState
unfolding call_with parse_inputs
invoke_granted k w d given none st = budget_exhausted (tag d) st
invoke_granted k w d given (some g) st =
    if same_set (map (λ (i : String × String). i.0) given) (declared_slots d)
    then call_with k w d g (parse_inputs k.parse_uuid (declared_slots d) given) st
    else failed MainAgentFailure.model_decision_invalid (some (tag d)) st

unfoldable pub invoke_resolved :
    MainReactKernel
    → Round
    → Option CapabilityDefinition
    → CapabilityTag
    → List (String × String)
    → MainReactState
    → MainReactState
unfolding invoke_granted
invoke_resolved k w none tag given st = capability_failure tag RouteDecision.invoke_capability st
invoke_resolved k w (some d) tag given st =
    let (g, budget) = start_tool_call w.now_call st.budget in
    invoke_granted k w d given g (record st { budget = budget })

unfoldable pub invoke :
    MainReactKernel → Round → Option MainDecision → MainReactState → MainReactState
unfolding invoke_resolved
invoke k w (some (MainDecision.invoke id version given)) st =
    let r = resolve id version (some CapabilityKind.execution) k.capabilities in
    invoke_resolved k w r.definition
      (record {
        capability_id = id;
        capability_version = version;
        capability_kind = get_or_else r.actual_kind CapabilityKind.execution;
      })
      given st
invoke k w _ st = failed MainAgentFailure.model_decision_invalid none st

unfoldable pub invoke_capability_node : MainReactKernel → Round → MainReactState → MainReactState
unfolding invoke
invoke_capability_node k w st = invoke k w st.decision st
