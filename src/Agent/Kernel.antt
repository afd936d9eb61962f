-- ===== src/Agent/Kernel.antt =====
-- What a run of the main agent is given, `MainReactKernel.__init__` of
-- backend/src/core/main_agent_react.py, and the helpers of its nodes.
use oper_mind.Base.{
  ℕ, suc, min, String, str_eq, first_chars, append_text, Bool, false, Option, none, some, List, [],
  ◌∷◌, ◌++◌, map, length, last?, if◌then◌else◌, ◌&&◌, leb, count, is_namespaced, Bool,
}
use oper_mind.Agent.Budget.{MainAgentBudget, max_main_decisions}
use oper_mind.Agent.Records.{
  CapabilityKind, CapabilityDefinition, SkillDeclaration, SkillUnavailableReason, SkillLoad,
  ModelDecisionResult, MaterialRefs, ObservationStatus, ObservationSummary, DegradedCapability,
  CapabilityUse, Role, Content, MainPromptMessage, MainDecisionRequest, KnowledgeGrounding,
  MainDelivery, MainAnswerDelivery, MainNeedsInputDelivery, MainAgentFailure, RouteDecision,
  RouteStatus, CapabilityTag, StepSignal, GatewayResult, MainReactState, MainReactOutcome,
  LoadedSkill,
}
use oper_mind.Agent.Comparison.{TextComparison}
use oper_mind.Agent.Registry.{Registry, summaries}
use oper_mind.Agent.Bindings.{ToolBinding}

pub record MainReactKernel : Type 0 where
  pub capabilities : Registry
  pub tool_bindings : List ToolBinding
  pub run_id : ℕ
  pub query : String
  pub context : List (Role × String)
  pub material_refs : MaterialRefs
  pub actual_missing : List String
  pub rule_version : String
  pub parse_uuid : String → Option ℕ

-- What the callables of the kernel answer in one round: whether the run is cancelled at each of the
-- four places that ask, the clock of each budget test, the model, the skill source and the tool. An
-- exception of the model or the tool is `none`.
pub record Round : Type 0 where
  pub cancelled_before : Bool
  pub cancelled_granted : Bool
  pub cancelled_decided : Bool
  pub cancelled_called : Bool
  pub now_decision : ℕ
  pub now_load : ℕ
  pub now_call : ℕ
  pub decide : MainDecisionRequest → ℕ → Option ModelDecisionResult
  pub load : SkillDeclaration → SkillLoad
  pub call_tool : String → String → ℕ → Option GatewayResult

abbrev pub max_observation_messages : ℕ
max_observation_messages = 6

abbrev pub with_signals : List StepSignal → MainReactState → MainReactState
with_signals new st = record st { signals = st.signals ++ new }

abbrev pub tag : CapabilityDefinition → CapabilityTag
tag d = record {
  capability_id = d.capability_id;
  capability_version = d.version;
  capability_kind = d.kind;
}

-- A node that ends the run with a failure: `_failed`, `_capability_failure`, `_budget_exhausted`.
abbrev pub fail :
    MainAgentFailure → RouteDecision → Option CapabilityTag → MainReactState → MainReactState
fail failure decision tag st =
    with_signals (StepSignal.route st.step decision tag RouteStatus.unavailable ∷ [])
      (record st { failure = some failure })

abbrev pub failed : MainAgentFailure → Option CapabilityTag → MainReactState → MainReactState
failed failure tag st = fail failure RouteDecision.failed tag st

abbrev pub capability_failure : CapabilityTag → RouteDecision → MainReactState → MainReactState
capability_failure tag decision st =
    fail MainAgentFailure.capability_unavailable decision (some tag) st

abbrev pub budget_exhausted : CapabilityTag → MainReactState → MainReactState
budget_exhausted tag st =
    fail MainAgentFailure.budget_exhausted RouteDecision.budget_exhausted (some tag) st

-- `_budget_signal`
abbrev pub budget_signal : ℕ → StepSignal
budget_signal previous =
    StepSignal.route (min (suc previous) max_main_decisions) RouteDecision.budget_exhausted none
      RouteStatus.unavailable

pub degraded_ref : SkillUnavailableReason → String
degraded_ref SkillUnavailableReason.missing = "source_missing"
degraded_ref SkillUnavailableReason.too_large = "source_too_large"
degraded_ref SkillUnavailableReason.digest_mismatch = "source_digest_mismatch"
degraded_ref SkillUnavailableReason.version_mismatch = "version_mismatch"
degraded_ref SkillUnavailableReason.invalid = "source_invalid"

unfoldable pub slot_label : String → String
slot_label slot =
    if str_eq slot "text_a" then "文本 A（旧）" else if str_eq slot "text_b" then "文本 B（新）" else slot

unfoldable pub join_and : List String → String
join_and [] = ""
join_and (s ∷ []) = s
join_and (s ∷ t ∷ ts) = append_text s (append_text "和" (join_and (t ∷ ts)))

unfoldable pub needs_input_prompt : List String → String
unfolding slot_label join_and
needs_input_prompt slots =
    first_chars 1000
      (append_text "请提供" (append_text (join_and (map slot_label slots)) "，我会做逐行字面比较。"))

abbrev pub user_message : Content → MainPromptMessage
user_message content = record { role = Role.user; content = content }

-- `_initial_transcript`
pub initial_transcript : MainReactKernel → List MainPromptMessage
initial_transcript k =
    record { role = Role.system; content = Content.system_prompt (summaries k.capabilities) }
      ∷ map (λ (m : Role × String). record { role = m.0; content = Content.plain m.1 }) k.context
    ++ user_message (Content.goal_prompt k.query k.material_refs) ∷ []

history_message : List ObservationSummary → List MainPromptMessage
history_message [] = []
history_message (o ∷ os) = user_message (Content.history (o ∷ os)) ∷ []

-- `_decision_request`
pub decision_request : MainReactKernel → MainReactState → MainDecisionRequest
unfolding history_message
decision_request k st = record {
  messages = st.transcript ++ history_message st.observations;
  material_refs = k.material_refs;
  observation_count = length st.observations;
}

-- The bounds that `KnowledgeGroundingV1` puts on an identifier with its version.
unfoldable pub is_grounding_key : String → ℕ → Bool
is_grounding_key id version = is_namespaced id && leb (count id) 64 && leb 1 version

abbrev pub grounding_from : LoadedSkill → KnowledgeGrounding
grounding_from l = record {
  capability_id = l.capability_id;
  capability_version = l.capability_version;
  skill_id = l.skill.skill_id;
  skill_version = l.skill.skill_version;
}

-- The constructor `KnowledgeGroundingV1`; `none` is its ValidationError.
unfoldable pub new_grounding : KnowledgeGrounding → Option KnowledgeGrounding
new_grounding g =
    if is_grounding_key g.capability_id g.capability_version
      && is_grounding_key g.skill_id g.skill_version
    then some g
    else none

unfoldable pub grounding_of : Option LoadedSkill → Option (Option KnowledgeGrounding)
grounding_of none = some none
grounding_of (some l) = elim (new_grounding (grounding_from l)) [
  | none ↦ none
  | some g ↦ some (some g)
]

-- `_grounding_for`; `none` is the ValidationError.
unfoldable pub grounding_for : List LoadedSkill → Option (Option KnowledgeGrounding)
unfolding grounding_of
grounding_for loaded = grounding_of (last? loaded)

-- The initial state of `stream`
abbrev pub initial_state : MainReactKernel → MainAgentBudget → MainReactState
initial_state k budget = record {
  step = 0;
  transcript = initial_transcript k;
  observations = [];
  loaded_skills = [];
  degraded = [];
  used = [];
  answer = none;
  needs_input = none;
  comparison = none;
  failure = none;
  canceled = false;
  decision = none;
  signals = [];
  budget = budget;
}

abbrev pub degraded_use : DegradedCapability → CapabilityUse
degraded_use d = record {
  capability_id = d.capability_id;
  capability_version = d.capability_version;
  kind = CapabilityKind.knowledge;
  status = ObservationStatus.unavailable;
}

abbrev pub delivery_of :
    Option MainAnswerDelivery
    → Option MainNeedsInputDelivery
    → Option TextComparison
    → Option MainDelivery
delivery_of (some a) _ _ = some (MainDelivery.answered a)
delivery_of none (some n) _ = some (MainDelivery.asked n)
delivery_of none none (some c) = some (MainDelivery.compared c)
delivery_of none none none = none

abbrev pub final_failure :
    Option MainDelivery → Option MainAgentFailure → Bool → Option MainAgentFailure
final_failure none none false = some MainAgentFailure.delivery_invalid
final_failure _ failure _ = failure

-- `_outcome_from_state`
unfoldable pub outcome_from_state : MainReactState → MainReactOutcome
outcome_from_state st =
    let delivery = delivery_of st.answer st.needs_input st.comparison in
    record {
      delivery = delivery;
      failure = final_failure delivery st.failure st.canceled;
      steps = st.step;
      used = st.used;
      degraded = map degraded_use st.degraded;
      canceled = st.canceled;
    }
