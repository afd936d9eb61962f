-- ===== src/Agent/Rules.antt =====
-- What each node of the main agent's graph can answer: one rule per node, for any property.
use oper_mind.Base.{
  ap, get_or_else, ℕ, suc, ◌<◌, ◌≡◌, refl, ◌⊎◌, inl, inr, String, Bool, true, false, not, ◌||◌,
  Option, none, some, List, length, leb, Bool-cases, Option-cases, if◌then◌else◌, arith,
}
use oper_mind.Agent.Budget.{
  remaining, grant, max_model_call, max_tool_wait, MainAgentBudget, BudgetGrant, start_decision,
  can_load_knowledge, record_knowledge_load, start_tool_call,
}
use oper_mind.Agent.Records.{
  MainDecisionRequest, CapabilityKind, CapabilityDefinition, CapabilityTag, ManagedSkill,
  SkillDeclaration, SkillLoad, SkillUnavailableReason, MainDecision, ModelDecisionResult,
  DecisionFailureCode, MainAgentFailure, StepSignal, MainReactState,
}
use oper_mind.Agent.Registry.{resolve}
use oper_mind.Agent.Kernel.{MainReactKernel, Round, with_signals, max_observation_messages}
use oper_mind.Agent.Nodes.{decide_node, decide_granted, decided, decision_failure}
use oper_mind.Agent.Skill.{
  load_skill_node, load_skill, load_resolved, load_declared, after_load, record_loaded, degrade,
  take_in, was_degraded,
}

-- The node answers a state of which P holds.
abbrev pub Returns : (MainReactState → Type 0) → Option MainReactState → Type 0
Returns P none = ⊥
Returns P (some st) = P st

pub if-rule {ℓ κ} :
    {A : Type ℓ} (P : A → Type κ) (b : Bool) (x y : A)
    → (b ≡ true → P x)
    → (b ≡ false → P y)
    → P (if b then x else y)
if-rule P true x y p q = p refl
if-rule P false x y p q = q refl

-- The run ended with a failure, after these signals.
abbrev pub failing : MainAgentFailure → List StepSignal → MainReactState → MainReactState
failing f sigs st = with_signals sigs (record st { failure = some f })

abbrev pub decision_taken : MainAgentBudget → MainAgentBudget
decision_taken b = record b { decisions = suc b.decisions }

abbrev pub load_taken : MainAgentBudget → MainAgentBudget
load_taken b = record b { knowledge_loads = suc b.knowledge_loads }

abbrev pub call_taken : MainAgentBudget → MainAgentBudget
call_taken b = record b { tool_calls = suc b.tool_calls }

pub start_decision-cases :
    (now : ℕ) (b : MainAgentBudget)
    → (start_decision now b ≡ (none, b))
      ⊎ ((g : BudgetGrant) × (start_decision now b ≡ (some g, decision_taken b))
          × (b.decisions < b.max_decisions))
unfolding start_decision
start_decision-cases now b = elim (Bool-cases (leb b.max_decisions b.decisions)) [
  | inl out ↦ inl (rw out refl)
  | inr left ↦ elim (Bool-cases (leb (remaining now b) 0)) [
    | inl late ↦ inl (rw (left, late) refl)
    | inr early ↦ inr (grant max_model_call (remaining now b), rw (left, early) refl, ground arith)
  ]
]

pub start_tool_call-cases :
    (now : ℕ) (b : MainAgentBudget)
    → (start_tool_call now b ≡ (none, b))
      ⊎ ((g : BudgetGrant) × (start_tool_call now b ≡ (some g, call_taken b))
          × (b.tool_calls < b.max_calls))
unfolding start_tool_call
start_tool_call-cases now b = elim (Bool-cases (leb b.max_calls b.tool_calls)) [
  | inl out ↦ inl (rw out refl)
  | inr left ↦ elim (Bool-cases (leb (remaining now b) 0)) [
    | inl late ↦ inl (rw (left, late) refl)
    | inr early ↦ inr (grant max_tool_wait (remaining now b), rw (left, early) refl, ground arith)
  ]
]

-- A load that was tested is recorded.
pub record_load-can :
    (now : ℕ) (b : MainAgentBudget)
    → can_load_knowledge now b ≡ true
    → (record_knowledge_load b ≡ some (load_taken b)) × (b.knowledge_loads < b.max_loads)
unfolding can_load_knowledge record_knowledge_load
record_load-can now b h = (ground arith, ground arith)

-- The model of the round took the decision, for some request within some time.
abbrev pub DecidedBy : Round → MainDecision → Type 0
DecidedBy w d =
    (request : MainDecisionRequest) × (wait : ℕ) × (w.decide request wait
      ≡ some (ModelDecisionResult.success d))

answered_by :
    (o : Option ModelDecisionResult) (d : MainDecision)
    → get_or_else o (ModelDecisionResult.failure DecisionFailureCode.model_unavailable)
      ≡ ModelDecisionResult.success d
    → o ≡ some (ModelDecisionResult.success d)
answered_by none d h = absurd (cc (h))
answered_by (some r) d h = ap some h

module _ (k : MainReactKernel) (w : Round) (P : MainReactState → Type 0) (st : MainReactState) where
  decided-rule :
      (g : BudgetGrant) (r : ModelDecisionResult)
      → ((d : MainDecision) → r ≡ ModelDecisionResult.success d → DecidedBy w d)
      → ((f : MainAgentFailure) (sigs : List StepSignal) → P (failing f sigs st))
      → ((d : MainDecision) → DecidedBy w d → P (record st { decision = some d }))
      → P (decided g r st)
  unfolding decided decision_failure
  decided-rule g (ModelDecisionResult.success d) by fails goes = goes d (by d refl)
  decided-rule g (ModelDecisionResult.failure DecisionFailureCode.model_unavailable) by fails goes =
      if-rule P g.clipped _ _ (λ _. fails _ _) (λ _. fails _ _)
  decided-rule g (ModelDecisionResult.failure DecisionFailureCode.model_decision_invalid) by fails
        goes =
      fails _ _

-- The state of a decision that the budget grants.
abbrev pub counted : MainReactState → MainReactState
counted st = record st { step = suc st.step; budget = decision_taken st.budget }

pub decide-rule :
    (k : MainReactKernel) (w : Round) (P : MainReactState → Type 0) (st : MainReactState)
    → P (record st { canceled = true })
    → ((f : MainAgentFailure) (sigs : List StepSignal) → P (failing f sigs st))
    → (st.budget.decisions < st.budget.max_decisions
        → P (record (counted st) { canceled = true })
          × ((f : MainAgentFailure) (sigs : List StepSignal) → P (failing f sigs (counted st)))
          × ((d : MainDecision) → DecidedBy w d → P (record (counted st) { decision = some d })))
    → P (decide_node k w st)
unfolding decide_node decide_granted
decide-rule k w P st stops fails goes =
    if-rule P w.cancelled_before _ _ (λ _. stops)
      λ _. elim (start_decision-cases w.now_decision st.budget) [
        | inl none_left ↦ rw none_left (fails _ _)
        | inr (g, given, left) ↦ rw given (
            if-rule P (w.cancelled_granted || w.cancelled_decided) _ _ (λ _. (goes left).0)
              λ _.
                decided-rule k w P (counted st) g _ (λ d h. (_, _, answered_by _ d h)) (goes left).1
                  (goes left).2)
      ]

-- What a load went through: the capability resolves as knowledge, its declaration names a skill,
-- and the skill source reads it.
abbrev pub LoadedFrom : MainReactKernel → Round → CapabilityDefinition → ManagedSkill → Type 0
LoadedFrom k w d skill =
    (id : String) × (version : ℕ) × (s : SkillDeclaration) × ((resolve id version
        (some CapabilityKind.knowledge) k.capabilities).definition
      ≡ some d)
    × (d.skill ≡ some s)
    × (w.load s ≡ SkillLoad.read skill)

module _ (k : MainReactKernel) (w : Round) (P : MainReactState → Type 0) (st : MainReactState) where
  abbrev Degrades : Type 0
  Degrades =
      length st.observations < max_observation_messages
      → (d : CapabilityDefinition) (r : SkillUnavailableReason) → P (degrade d r st)

  abbrev Loads : Type 0
  Loads =
      length st.observations < max_observation_messages
      → st.budget.knowledge_loads < st.budget.max_loads
      → (d : CapabilityDefinition) (skill : ManagedSkill) → LoadedFrom k w d skill
      → P (take_in d skill (load_taken st.budget) st)

  after_load-rule :
      length st.observations < max_observation_messages
      → can_load_knowledge w.now_load st.budget ≡ true
      → (d : CapabilityDefinition) (l : SkillLoad)
      → ((skill : ManagedSkill) → l ≡ SkillLoad.read skill → LoadedFrom k w d skill)
      → Degrades
      → Loads
      → Returns P (after_load d l st)
  unfolding after_load record_loaded
  after_load-rule few can d (SkillLoad.unavailable r) from degrades loads = degrades few d r
  after_load-rule few can d SkillLoad.raised from degrades loads =
      degrades few d SkillUnavailableReason.invalid
  after_load-rule few can d (SkillLoad.read skill) from degrades loads =
      let (recorded, left) = record_load-can w.now_load st.budget can in
      rw recorded (loads few left d skill (from skill refl))

  load_declared-rule :
      (d : CapabilityDefinition) (s : SkillDeclaration) (t : CapabilityTag)
      → ((skill : ManagedSkill) → w.load s ≡ SkillLoad.read skill → LoadedFrom k w d skill)
      → ((f : MainAgentFailure) (sigs : List StepSignal) → P (failing f sigs st))
      → Degrades
      → Loads
      → Returns P (load_declared w d s t st)
  unfolding load_declared
  load_declared-rule d s t from fails degrades loads =
      if-rule (Returns P) (not (can_load_knowledge w.now_load st.budget)) _ _ (λ _. fails _ _)
        λ can.
          if-rule (Returns P) (leb max_observation_messages (length st.observations)) _ _
            (λ _. fails _ _)
            λ few.
              if-rule (Returns P) (was_degraded t.capability_id t.capability_version st.degraded) _
                _ (λ _. fails _ _)
                λ _. after_load-rule (ground arith) (ground arith) d (w.load s) from degrades loads

  load_resolved-rule :
      (o : Option CapabilityDefinition) (t : CapabilityTag)
      → ((d : CapabilityDefinition) (s : SkillDeclaration) (skill : ManagedSkill)
          → o ≡ some d
          → d.skill ≡ some s
          → w.load s ≡ SkillLoad.read skill
          → LoadedFrom k w d skill)
      → ((f : MainAgentFailure) (sigs : List StepSignal) → P (failing f sigs st))
      → Degrades
      → Loads
      → Returns P (load_resolved w o t st)
  unfolding load_resolved
  load_resolved-rule none t from fails degrades loads = fails _ _
  load_resolved-rule (some d) t from fails degrades loads = elim (Option-cases d.skill) [
    | inl bare ↦ rw bare (fails _ _)
    | inr (s, declared) ↦
        rw declared
          (load_declared-rule d s t (λ skill. from d s skill refl declared) fails degrades loads)
  ]

  load-rule :
      (o : Option MainDecision)
      → ((f : MainAgentFailure) (sigs : List StepSignal) → P (failing f sigs st))
      → Degrades
      → Loads
      → Returns P (load_skill k w o st)
  unfolding load_skill
  load-rule none fails degrades loads = fails _ _
  load-rule (some (MainDecision.answer _)) fails degrades loads = fails _ _
  load-rule (some (MainDecision.needs_input _)) fails degrades loads = fails _ _
  load-rule (some (MainDecision.invoke _ _ _)) fails degrades loads = fails _ _
  load-rule (some (MainDecision.load_skill id version)) fails degrades loads =
      load_resolved-rule
        (resolve id version (some CapabilityKind.knowledge) k.capabilities).definition _
        (λ d s skill found declared read. (id, version, s, found, declared, read)) fails degrades
        loads

  pub load_node-rule :
      ((f : MainAgentFailure) (sigs : List StepSignal) → P (failing f sigs st))
      → Degrades
      → Loads
      → Returns P (load_skill_node k w st)
  unfolding load_skill_node
  load_node-rule = load-rule st.decision
