-- ===== src/Agent/Skill.antt =====
-- `_load_skill_node` and `_degrade` of backend/src/core/main_agent_react.py.
use oper_mind.Base.{
  ◌==◌, leb, ℕ, String, str_eq, Bool, not, ◌&&◌, Option, none, some, get_or_else, List, [], ◌∷◌,
  ◌++◌, length, any, if◌then◌else◌,
}
use oper_mind.Agent.Budget.{MainAgentBudget, can_load_knowledge, record_knowledge_load}
use oper_mind.Agent.Records.{
  CapabilityKind, CapabilityDefinition, ManagedSkill, SkillDeclaration, SkillUnavailableReason,
  SkillLoad, MainDecision, ObservationStatus, ObservationSummary, DegradedCapability, Content,
  MainAgentFailure, RouteDecision, RouteStatus, CapabilityTag, StepSignal, MainReactState,
}
use oper_mind.Agent.Registry.{resolve}
use oper_mind.Agent.Kernel.{
  MainReactKernel, Round, max_observation_messages, with_signals, tag, failed, capability_failure,
  budget_exhausted, degraded_ref, user_message,
}

abbrev pub observation :
    CapabilityDefinition → ℕ → ObservationStatus → String × Option ℕ → ObservationSummary
observation d step status ref = record {
  capability_id = d.capability_id;
  capability_version = d.version;
  kind = d.kind;
  step = step;
  status = status;
  ref = ref;
}

-- `_degrade`
unfoldable pub degrade :
    CapabilityDefinition → SkillUnavailableReason → MainReactState → MainReactState
degrade d reason st =
    let seen = observation d st.step ObservationStatus.unavailable (degraded_ref reason, none) in
    with_signals
      (StepSignal.route st.step RouteDecision.load_skill (some (tag d)) RouteStatus.unavailable
        ∷ [])
      (record st {
        degraded =
            st.degraded
            ++ record {
              capability_id = d.capability_id;
              capability_version = d.version;
              reason = reason;
              step = st.step;
            }
              ∷ [];
        observations = st.observations ++ seen ∷ [];
        transcript = st.transcript ++ user_message (Content.observation_message seen) ∷ [];
      })

-- The result of a successful load, under the budget that records it.
unfoldable pub take_in :
    CapabilityDefinition → ManagedSkill → MainAgentBudget → MainReactState → MainReactState
take_in d skill budget st =
    let seen =
      observation d st.step ObservationStatus.loaded (skill.skill_id, some skill.skill_version) in
    with_signals
      (StepSignal.route st.step RouteDecision.load_skill (some (tag d)) RouteStatus.ok ∷ [])
      (record st {
        loaded_skills =
            st.loaded_skills
            ++ record {
              capability_id = d.capability_id;
              capability_version = d.version;
              skill = skill;
              step = st.step;
            }
              ∷ [];
        observations = st.observations ++ seen ∷ [];
        used =
            st.used
            ++ record {
              capability_id = d.capability_id;
              capability_version = d.version;
              kind = d.kind;
              status = ObservationStatus.loaded;
            }
              ∷ [];
        transcript =
            st.transcript
            ++ user_message (Content.skill_message d skill)
              ∷ user_message (Content.observation_message seen)
              ∷ [];
        budget = budget;
      })

-- `none` is the ValueError of the budget, which the node does not catch.
unfoldable pub record_loaded :
    CapabilityDefinition
    → ManagedSkill
    → Option MainAgentBudget
    → MainReactState
    → Option MainReactState
unfolding take_in
record_loaded d skill none st = none
record_loaded d skill (some budget) st = some (take_in d skill budget st)

unfoldable pub after_load :
    CapabilityDefinition → SkillLoad → MainReactState → Option MainReactState
unfolding degrade record_loaded
after_load d (SkillLoad.read skill) st = record_loaded d skill (record_knowledge_load st.budget) st
after_load d (SkillLoad.unavailable reason) st = some (degrade d reason st)
after_load d SkillLoad.raised st = some (degrade d SkillUnavailableReason.invalid st)

abbrev pub was_degraded : String → ℕ → List DegradedCapability → Bool
was_degraded id version degraded =
    any (λ d. str_eq d.capability_id id && d.capability_version == version) degraded

unfoldable pub load_declared :
    Round
    → CapabilityDefinition
    → SkillDeclaration
    → CapabilityTag
    → MainReactState
    → Option MainReactState
unfolding after_load
load_declared w d s tag st =
    if not (can_load_knowledge w.now_load st.budget)
    then some (budget_exhausted tag st)
    else if leb max_observation_messages (length st.observations)
    then some (budget_exhausted tag st)
    else if was_degraded tag.capability_id tag.capability_version st.degraded
    then some (capability_failure tag RouteDecision.load_skill st)
    else after_load d (w.load s) st

unfoldable pub load_resolved :
    Round → Option CapabilityDefinition → CapabilityTag → MainReactState → Option MainReactState
unfolding load_declared
load_resolved w none tag st = some (capability_failure tag RouteDecision.load_skill st)
load_resolved w (some d) tag st = elim d.skill [
  | none ↦ some (capability_failure tag RouteDecision.load_skill st)
  | some s ↦ load_declared w d s tag st
]

unfoldable pub load_skill :
    MainReactKernel → Round → Option MainDecision → MainReactState → Option MainReactState
unfolding load_resolved
load_skill k w (some (MainDecision.load_skill id version)) st =
    let r = resolve id version (some CapabilityKind.knowledge) k.capabilities in
    load_resolved w r.definition
      (record {
        capability_id = id;
        capability_version = version;
        capability_kind = get_or_else r.actual_kind CapabilityKind.knowledge;
      })
      st
load_skill k w _ st = some (failed MainAgentFailure.model_decision_invalid none st)

unfoldable pub load_skill_node : MainReactKernel → Round → MainReactState → Option MainReactState
unfolding load_skill
load_skill_node k w st = load_skill k w st.decision st
