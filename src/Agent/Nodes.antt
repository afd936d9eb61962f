-- ===== src/Agent/Nodes.antt =====
-- The nodes of the graph of backend/src/core/main_agent_react.py.
use oper_mind.Base.{
  suc, ◌==◌, leb, String, str_eq, count, Bool, true, not, ◌&&◌, ◌||◌, Option, none, some,
  get_or_else, List, [], ◌∷◌, length, any, all, if◌then◌else◌,
}
use oper_mind.Agent.Budget.{BudgetGrant, start_decision}
use oper_mind.Agent.Records.{
  KnowledgeGrounding, MainDecision, ModelDecisionResult, DecisionFailureCode, MainAgentFailure,
  RouteDecision, RouteStatus, StepSignal, MainReactState,
}
use oper_mind.Agent.Kernel.{
  MainReactKernel, Round, with_signals, failed, fail, budget_signal, needs_input_prompt,
  decision_request, grounding_for,
}

-- `_decide_node`

unfoldable pub decision_failure :
    BudgetGrant → DecisionFailureCode → MainReactState → MainReactState
decision_failure g DecisionFailureCode.model_unavailable st =
    if g.clipped
    then fail MainAgentFailure.budget_exhausted RouteDecision.budget_exhausted none st
    else fail MainAgentFailure.model_unavailable RouteDecision.failed none st
decision_failure g DecisionFailureCode.model_decision_invalid st =
    fail MainAgentFailure.model_decision_invalid RouteDecision.failed none st

unfoldable pub decided : BudgetGrant → ModelDecisionResult → MainReactState → MainReactState
unfolding decision_failure
decided g (ModelDecisionResult.success d) st = record st { decision = some d }
decided g (ModelDecisionResult.failure code) st = decision_failure g code st

unfoldable pub decide_granted :
    MainReactKernel → Round → Option BudgetGrant → MainReactState → MainReactState
unfolding decided
decide_granted k w none st =
    with_signals (budget_signal st.step ∷ [])
      (record st { failure = some MainAgentFailure.budget_exhausted })
decide_granted k w (some g) st =
    let next = record st { step = suc st.step } in
    if w.cancelled_granted || w.cancelled_decided
    then record next { canceled = true }
    else decided g
        (get_or_else (w.decide (decision_request k st) g.effective)
          (ModelDecisionResult.failure DecisionFailureCode.model_unavailable))
        next

unfoldable pub decide_node : MainReactKernel → Round → MainReactState → MainReactState
unfolding decide_granted
decide_node k w st =
    let (g, budget) = start_decision w.now_decision st.budget in
    if w.cancelled_before
    then record st { canceled = true }
    else decide_granted k w g (record st { budget = budget })

-- `_finalize_answer_node`

-- The bounds of `MainAnswerDeliveryV1.text`; a native text holds scalar values only.
abbrev pub is_valid_answer : String → Bool
is_valid_answer text = leb 1 (count text) && leb (count text) 4000

-- What follows `_grounding_for`.
unfoldable pub finalize_grounded :
    String → Option KnowledgeGrounding → MainReactState → MainReactState
finalize_grounded text grounding st =
    if is_valid_answer text
    then with_signals (StepSignal.route st.step RouteDecision.answer none RouteStatus.ok ∷ [])
        (record st { answer = some (record { text = text; knowledge_grounding = grounding }) })
    else failed MainAgentFailure.delivery_invalid none st

-- `none` is the ValidationError of the grounding, which the node does not catch.
unfoldable pub finalize_answer : Option MainDecision → MainReactState → Option MainReactState
finalize_answer (some (MainDecision.answer text)) st = elim (grounding_for st.loaded_skills) [
  | none ↦ none
  | some grounding ↦ some (finalize_grounded text grounding st)
]
finalize_answer _ st = some (failed MainAgentFailure.model_decision_invalid none st)

unfoldable pub finalize_answer_node : MainReactState → Option MainReactState
unfolding finalize_answer
finalize_answer_node st = finalize_answer st.decision st

-- `_finalize_needs_input_node`

unfoldable pub is_subset : List String → List String → Bool
is_subset xs ys = all (λ x. any (str_eq x) ys) xs

-- `set(xs) == set(ys)`
abbrev pub same_set : List String → List String → Bool
same_set xs ys = is_subset xs ys && is_subset ys xs

unfoldable pub is_unique : List String → Bool
is_unique [] = true
is_unique (x ∷ xs) = not (any (str_eq x) xs) && is_unique xs

abbrev pub is_slot : String → Bool
is_slot s = str_eq s "text_a" || str_eq s "text_b"

-- The bounds of `MainNeedsInputDeliveryV1`
abbrev pub is_valid_question : List String → String → Bool
is_valid_question missing prompt =
    leb 1 (length missing)
    && leb (length missing) 2
    && all is_slot missing
    && is_unique missing
    && leb 1 (count prompt)
    && leb (count prompt) 1000

unfoldable pub finalize_needs_input :
    MainReactKernel → Option MainDecision → MainReactState → MainReactState
finalize_needs_input k (some (MainDecision.needs_input slots)) st =
    if length k.actual_missing == 0 || not (same_set slots k.actual_missing)
    then failed MainAgentFailure.model_decision_invalid none st
    else if is_valid_question k.actual_missing (needs_input_prompt k.actual_missing)
    then with_signals (StepSignal.route st.step RouteDecision.needs_input none RouteStatus.ok ∷ [])
        (record st {
          needs_input =
              some (record {
                missing = k.actual_missing;
                prompt = needs_input_prompt k.actual_missing;
              });
        })
    else failed MainAgentFailure.delivery_invalid none st
finalize_needs_input k _ st = failed MainAgentFailure.model_decision_invalid none st

unfoldable pub finalize_needs_input_node : MainReactKernel → MainReactState → MainReactState
unfolding finalize_needs_input
finalize_needs_input_node k st = finalize_needs_input k st.decision st
