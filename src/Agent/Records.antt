-- ===== src/Agent/Records.antt =====
-- The data of the main agent: capability declarations (backend/src/capabilities/contract.py), model
-- decisions (core/main_agent_decisions.py), observations (core/observation.py), deliveries
-- (domain/main_agent.py), and the state of the graph (core/main_agent_react.py).
use oper_mind.Base.{ℕ, String, Option, List, Bool, false}
use oper_mind.Agent.Budget.{MainAgentBudget}
use oper_mind.Agent.Comparison.{TextComparison}

pub data CapabilityKind : Type 0 where
  knowledge execution : CapabilityKind

abbrev pub same_kind : CapabilityKind → CapabilityKind → Bool
same_kind CapabilityKind.knowledge CapabilityKind.knowledge = Bool.true
same_kind CapabilityKind.execution CapabilityKind.execution = Bool.true
same_kind _ _ = false

pub data CompletionSemantics : Type 0 where
  response typed_result : CompletionSemantics

pub data FailureSemantics : Type 0 where
  input_missing input_invalid source_unavailable source_invalid : FailureSemantics
  tool_unavailable tool_timeout result_invalid budget_exhausted : FailureSemantics

pub record MaterialSlot : Type 0 where
  pub slot : String
  pub label : String

pub record SkillDeclaration : Type 0 where
  pub skill_id : String
  pub skill_version : ℕ
  pub title : String
  pub expected_sha256 : String
  pub max_codepoints : ℕ

pub record CapabilityDefinition : Type 0 where
  pub capability_id : String
  pub version : ℕ
  pub kind : CapabilityKind
  pub title : String
  pub description : String
  pub usage_guide : String
  pub instruction : String
  pub material_slots : List MaterialSlot
  pub delivery_kind : Option String
  pub resources : List String
  pub permissions : List String
  pub tool_bindings : List String
  pub completion : CompletionSemantics
  pub failure : List FailureSemantics
  pub skill : Option SkillDeclaration
  pub rule_version : Option String

pub record CapabilitySummary : Type 0 where
  pub capability_id : String
  pub version : ℕ
  pub kind : CapabilityKind
  pub title : String
  pub description : String
  pub usage_guide : String
  pub input_slots : List MaterialSlot

pub data ResolutionKind : Type 0 where
  resolved unknown_id unknown_version inactive_version kind_mismatch : ResolutionKind

pub record CapabilityResolution : Type 0 where
  pub kind : ResolutionKind
  pub definition : Option CapabilityDefinition
  pub expected_kind : Option CapabilityKind
  pub actual_kind : Option CapabilityKind

pub record ManagedSkill : Type 0 where
  pub skill_id : String
  pub skill_version : ℕ
  pub content : String

pub data SkillUnavailableReason : Type 0 where
  missing too_large digest_mismatch version_mismatch invalid : SkillUnavailableReason

-- `SkillSource.load` returns, raises SkillUnavailableError, or raises another exception.
pub data SkillLoad : Type 0 where
  read : ManagedSkill → SkillLoad
  unavailable : SkillUnavailableReason → SkillLoad
  raised : SkillLoad

-- The inputs of `invoke` are pairs of a slot and the text of a material id.
pub data MainDecision : Type 0 where
  answer : (text : String) → MainDecision
  needs_input : (slots : List String) → MainDecision
  load_skill : (capability_id : String) (version : ℕ) → MainDecision
  invoke : (capability_id : String) (version : ℕ) (inputs : List (String × String)) → MainDecision

pub data DecisionFailureCode : Type 0 where
  model_unavailable model_decision_invalid : DecisionFailureCode

pub data ModelDecisionResult : Type 0 where
  success : MainDecision → ModelDecisionResult
  failure : DecisionFailureCode → ModelDecisionResult

pub record MaterialRefs : Type 0 where
  pub text_a : Option ℕ
  pub text_b : Option ℕ

pub data ObservationStatus : Type 0 where
  loaded ok unavailable : ObservationStatus

pub record ObservationSummary : Type 0 where
  pub capability_id : String
  pub capability_version : ℕ
  pub kind : CapabilityKind
  pub step : ℕ
  pub status : ObservationStatus
  pub ref : String × Option ℕ

pub record LoadedSkill : Type 0 where
  pub capability_id : String
  pub capability_version : ℕ
  pub skill : ManagedSkill
  pub step : ℕ

pub record DegradedCapability : Type 0 where
  pub capability_id : String
  pub capability_version : ℕ
  pub reason : SkillUnavailableReason
  pub step : ℕ

pub record CapabilityUse : Type 0 where
  pub capability_id : String
  pub capability_version : ℕ
  pub kind : CapabilityKind
  pub status : ObservationStatus

pub data Role : Type 0 where
  system user assistant : Role

-- The content of a message, before its template is filled in.
pub data Content : Type 0 where
  system_prompt : List CapabilitySummary → Content
  plain : String → Content
  goal_prompt : (query : String) → MaterialRefs → Content
  skill_message : CapabilityDefinition → ManagedSkill → Content
  observation_message : ObservationSummary → Content
  history : List ObservationSummary → Content

pub record MainPromptMessage : Type 0 where
  pub role : Role
  pub content : Content

pub record MainDecisionRequest : Type 0 where
  pub messages : List MainPromptMessage
  pub material_refs : MaterialRefs
  pub observation_count : ℕ

pub record KnowledgeGrounding : Type 0 where
  pub capability_id : String
  pub capability_version : ℕ
  pub skill_id : String
  pub skill_version : ℕ

pub record MainAnswerDelivery : Type 0 where
  pub text : String
  pub knowledge_grounding : Option KnowledgeGrounding

-- The prompt is filled in from the missing slots.
pub record MainNeedsInputDelivery : Type 0 where
  pub missing : List String
  pub prompt : String

pub data MainAgentFailure : Type 0 where
  model_unavailable model_decision_invalid capability_unavailable : MainAgentFailure
  tool_failed delivery_invalid budget_exhausted : MainAgentFailure

pub data RouteDecision : Type 0 where
  answer needs_input load_skill invoke_capability budget_exhausted failed : RouteDecision

pub data RouteStatus : Type 0 where
  ok unavailable : RouteStatus

-- The capability that a signal names: its id, version and kind.
pub record CapabilityTag : Type 0 where
  pub capability_id : String
  pub capability_version : ℕ
  pub capability_kind : CapabilityKind

pub data ToolStatus : Type 0 where
  ok unavailable rejected timeout error : ToolStatus

pub data StepSignal : Type 0 where
  route : (step : ℕ) → RouteDecision → Option CapabilityTag → RouteStatus → StepSignal
  tool :
      (step : ℕ) (capability_id : String) (capability_version : ℕ)
      → ToolStatus
      → (duration_ms : ℕ) → StepSignal

pub record GatewayResult : Type 0 where
  pub output : String
  pub status : ToolStatus
  pub duration_ms : ℕ

pub data MainDelivery : Type 0 where
  answered : MainAnswerDelivery → MainDelivery
  asked : MainNeedsInputDelivery → MainDelivery
  compared : TextComparison → MainDelivery

-- The state of the graph. The last field is the kernel's own `_budget`, which changes along with it.
pub record MainReactState : Type 0 where
  pub step : ℕ
  pub transcript : List MainPromptMessage
  pub observations : List ObservationSummary
  pub loaded_skills : List LoadedSkill
  pub degraded : List DegradedCapability
  pub used : List CapabilityUse
  pub answer : Option MainAnswerDelivery
  pub needs_input : Option MainNeedsInputDelivery
  pub comparison : Option TextComparison
  pub failure : Option MainAgentFailure
  pub canceled : Bool
  pub decision : Option MainDecision
  pub signals : List StepSignal
  pub budget : MainAgentBudget

pub record MainReactOutcome : Type 0 where
  pub delivery : Option MainDelivery
  pub failure : Option MainAgentFailure
  pub steps : ℕ
  pub used : List CapabilityUse
  pub degraded : List CapabilityUse
  pub canceled : Bool
