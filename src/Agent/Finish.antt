-- ===== src/Agent/Finish.antt =====
-- What the nodes that end a run of the main agent can answer: one rule per node, for any property.
use oper_mind.Base.{
  ℕ, ◌<◌, ◌≡◌, refl, inl, inr, String, Bool, true, false, not, ◌&&◌, ◌||◌, ◌==◌, Option, none, some,
  List, [], ◌∷◌, length, map, arith,
}
use oper_mind.Agent.Budget.{BudgetGrant}
use oper_mind.Agent.Records.{
  CapabilityKind, CapabilityDefinition, CapabilityTag, CapabilityUse, MainDecision,
  KnowledgeGrounding, MainAgentFailure, MainNeedsInputDelivery, StepSignal, GatewayResult,
  MainReactState,
}
use oper_mind.Agent.Comparison.{TextComparison}
use oper_mind.Agent.Registry.{resolve}
use oper_mind.Agent.Bindings.{Inputs, ToolBinding, get_binding}
use oper_mind.Agent.Kernel.{MainReactKernel, Round, with_signals, grounding_for, needs_input_prompt}
use oper_mind.Agent.Nodes.{
  same_set, is_valid_answer, is_valid_question, finalize_grounded, finalize_answer,
  finalize_answer_node, finalize_needs_input, finalize_needs_input_node,
}
use oper_mind.Agent.Invoke.{
  is_owned, is_ok, is_timeout, is_comparison, declared_slots, parse_inputs, call_signals,
  call_failed, deliver, after_call, call_bound, call_declared, call_with, invoke_granted,
  invoke_resolved, invoke, invoke_capability_node,
}
use oper_mind.Agent.Rules.{failing, if-rule, call_taken, start_tool_call-cases}

-- What a comparison went through: an execution capability, inputs that are the run's own materials,
-- and the parser of a bound tool.
abbrev pub ComparedBy : MainReactKernel → TextComparison → Type 0
ComparedBy k c =
    (id : String) × (version : ℕ) × (d : CapabilityDefinition) × (name : String)
    × (binding : ToolBinding) × (inputs : Inputs) × (output : String) × ((resolve id version
          (some CapabilityKind.execution) k.capabilities).definition
        ≡ some d)
    × (get_binding name k.tool_bindings ≡ some binding)
    × (is_owned k.material_refs inputs ≡ true)
    × (binding.parse_result d output k.run_id inputs k.rule_version ≡ some c)

-- The state of an answer that is delivered.
abbrev pub answering :
    String → Option KnowledgeGrounding → List StepSignal → MainReactState → MainReactState
answering text g sigs st =
    with_signals sigs
      (record st { answer = some (record { text = text; knowledge_grounding = g }) })

module _ (Q : Option MainReactState → Type 0) (st : MainReactState) where
  -- The node raises, fails, or answers with the grounding.
  abbrev Answers : Type 0
  Answers =
      (text : String) (g : Option KnowledgeGrounding) (sigs : List StepSignal)
      → grounding_for st.loaded_skills ≡ some g
      → Q (some (answering text g sigs st))

  grounded-rule :
      (text : String) (o : Option (Option KnowledgeGrounding))
      → grounding_for st.loaded_skills ≡ o
      → (grounding_for st.loaded_skills ≡ none → Q none)
      → ((f : MainAgentFailure) (sigs : List StepSignal) → Q (some (failing f sigs st)))
      → Answers
      → Q (elim o [ none ↦ none | some g ↦ some (finalize_grounded text g st) ])
  unfolding finalize_grounded
  grounded-rule text none at raises fails goes = raises at
  grounded-rule text (some g) at raises fails goes =
      if-rule (λ next. Q (some next)) (is_valid_answer text) _ _ (λ _. goes text g _ at)
        (λ _. fails _ _)

  answer-rule :
      (o : Option MainDecision)
      → (grounding_for st.loaded_skills ≡ none → Q none)
      → ((f : MainAgentFailure) (sigs : List StepSignal) → Q (some (failing f sigs st)))
      → Answers
      → Q (finalize_answer o st)
  unfolding finalize_answer
  answer-rule none raises fails goes = fails _ _
  answer-rule (some (MainDecision.needs_input _)) raises fails goes = fails _ _
  answer-rule (some (MainDecision.load_skill _ _)) raises fails goes = fails _ _
  answer-rule (some (MainDecision.invoke _ _ _)) raises fails goes = fails _ _
  answer-rule (some (MainDecision.answer text)) raises fails goes =
      grounded-rule text (grounding_for st.loaded_skills) refl raises fails goes

  pub answer_node-rule :
      (grounding_for st.loaded_skills ≡ none → Q none)
      → ((f : MainAgentFailure) (sigs : List StepSignal) → Q (some (failing f sigs st)))
      → Answers
      → Q (finalize_answer_node st)
  unfolding finalize_answer_node
  answer_node-rule = answer-rule st.decision

module _ (k : MainReactKernel) (P : MainReactState → Type 0) (st : MainReactState) where
  abbrev Asks : Type 0
  Asks =
      (slots : List String) (q : MainNeedsInputDelivery) (sigs : List StepSignal)
      → st.decision ≡ some (MainDecision.needs_input slots)
      → same_set slots k.actual_missing ≡ true
      → q.missing ≡ k.actual_missing
      → q.prompt ≡ needs_input_prompt q.missing
      → is_valid_question q.missing q.prompt ≡ true
      → P (with_signals sigs (record st { needs_input = some q }))

  question-rule :
      (o : Option MainDecision)
      → st.decision ≡ o
      → ((f : MainAgentFailure) (sigs : List StepSignal) → P (failing f sigs st))
      → Asks
      → P (finalize_needs_input k o st)
  unfolding finalize_needs_input
  question-rule none at fails asks = fails _ _
  question-rule (some (MainDecision.answer _)) at fails asks = fails _ _
  question-rule (some (MainDecision.load_skill _ _)) at fails asks = fails _ _
  question-rule (some (MainDecision.invoke _ _ _)) at fails asks = fails _ _
  question-rule (some (MainDecision.needs_input slots)) at fails asks =
      if-rule P (length k.actual_missing == 0 || not (same_set slots k.actual_missing)) _ _
        (λ _. fails _ _)
        λ same.
          if-rule P (is_valid_question k.actual_missing (needs_input_prompt k.actual_missing)) _ _
            (λ valid.
              asks slots
                (record {
                  missing = k.actual_missing;
                  prompt = needs_input_prompt k.actual_missing;
                })
                _ at (or_not (length k.actual_missing == 0) _ same) refl refl valid)
            (λ _. fails _ _)
    where
      or_not : (a b : Bool) → (a || not b) ≡ false → b ≡ true
      or_not a b h = ground arith

  pub question_node-rule :
      ((f : MainAgentFailure) (sigs : List StepSignal) → P (failing f sigs st))
      → Asks
      → P (finalize_needs_input_node k st)
  unfolding finalize_needs_input_node
  question_node-rule = question-rule st.decision refl

module _ (k : MainReactKernel) (w : Round) (P : MainReactState → Type 0) where
  -- The ways in which a node that called a tool ends.
  abbrev pub Ends : MainReactState → Type 0
  Ends st =
      ((f : MainAgentFailure) (sigs : List StepSignal) → P (failing f sigs st))
      × P (record st { canceled = true })
      × ((c : TextComparison) (sigs : List StepSignal) (uses : List CapabilityUse)
          → ComparedBy k c
          → P (with_signals sigs (record st { comparison = some c; used = uses })))

  deliver-rule :
      (st : MainReactState) (d : CapabilityDefinition) (r : GatewayResult)
      (o : Option TextComparison)
      → ((c : TextComparison) → o ≡ some c → ComparedBy k c)
      → Ends st
      → P (deliver d r o st)
  unfolding deliver call_signals
  deliver-rule st d r none from ends = ends.0 _ _
  deliver-rule st d r (some c) from ends = ends.2 c _ _ (from c refl)

  after_call-rule :
      (st : MainReactState) (d : CapabilityDefinition) (g : BudgetGrant) (b : ToolBinding)
      (inputs : Inputs) (o : Option GatewayResult)
      → ((output : String) (c : TextComparison)
          → b.parse_result d output k.run_id inputs k.rule_version ≡ some c
          → ComparedBy k c)
      → Ends st
      → P (after_call k w d g b inputs o st)
  unfolding after_call call_failed call_signals
  after_call-rule st d g b inputs none from ends = ends.0 _ _
  after_call-rule st d g b inputs (some r) from ends =
      if-rule P w.cancelled_called _ _ (λ _. ends.1)
        λ _.
          if-rule P (is_ok r.status) _ _ (λ _. deliver-rule st d r _ (from r.output) ends)
            λ _.
              if-rule P (g.clipped && is_timeout r.status) _ _ (λ _. ends.0 _ _) (λ _. ends.0 _ _)

  call_bound-rule :
      (st : MainReactState) (d : CapabilityDefinition) (g : BudgetGrant) (inputs : Inputs)
      (o : Option ToolBinding)
      → ((b : ToolBinding) (output : String) (c : TextComparison)
          → o ≡ some b
          → b.parse_result d output k.run_id inputs k.rule_version ≡ some c
          → ComparedBy k c)
      → Ends st
      → P (call_bound k w d g inputs o st)
  unfolding call_bound
  call_bound-rule st d g inputs none from ends = ends.0 _ _
  call_bound-rule st d g inputs (some b) from ends =
      after_call-rule st d g b inputs _ (λ output c. from b output c refl) ends

  call_declared-rule :
      (st : MainReactState) (d : CapabilityDefinition) (g : BudgetGrant) (inputs : Inputs)
      (names : List String)
      → ((name : String) (b : ToolBinding) (output : String) (c : TextComparison)
          → get_binding name k.tool_bindings ≡ some b
          → b.parse_result d output k.run_id inputs k.rule_version ≡ some c
          → ComparedBy k c)
      → Ends st
      → P (call_declared k w d g inputs names st)
  unfolding call_declared
  call_declared-rule st d g inputs [] from ends = ends.0 _ _
  call_declared-rule st d g inputs (name ∷ names) from ends =
      if-rule P (is_comparison d.delivery_kind) _ _
        (λ _. call_bound-rule st d g inputs _ (from name) ends) (λ _. ends.0 _ _)

  call_with-rule :
      (st : MainReactState) (d : CapabilityDefinition) (g : BudgetGrant) (o : Option Inputs)
      → ((inputs : Inputs) (name : String) (b : ToolBinding) (output : String) (c : TextComparison)
          → is_owned k.material_refs inputs ≡ true
          → get_binding name k.tool_bindings ≡ some b
          → b.parse_result d output k.run_id inputs k.rule_version ≡ some c
          → ComparedBy k c)
      → Ends st
      → P (call_with k w d g o st)
  unfolding call_with
  call_with-rule st d g none from ends = ends.0 _ _
  call_with-rule st d g (some inputs) from ends =
      if-rule P (is_owned k.material_refs inputs) _ _
        (λ owned.
          call_declared-rule st d g inputs d.tool_bindings
            (λ name b output c. from inputs name b output c owned) ends)
        (λ _. ends.0 _ _)

  abbrev Counted : MainReactState → Type 0
  Counted st =
      st.budget.tool_calls < st.budget.max_calls
      → Ends (record st { budget = call_taken st.budget })

  resolved-rule :
      (st : MainReactState) (o : Option CapabilityDefinition) (t : CapabilityTag)
      (given : List (String × String)) (id : String) (version : ℕ)
      → (resolve id version (some CapabilityKind.execution) k.capabilities).definition ≡ o
      → ((f : MainAgentFailure) (sigs : List StepSignal) → P (failing f sigs st))
      → Counted st
      → P (invoke_resolved k w o t given st)
  unfolding invoke_resolved invoke_granted
  resolved-rule st none t given id version found fails ends = fails _ _
  resolved-rule st (some d) t given id version found fails ends =
      elim (start_tool_call-cases w.now_call st.budget) [
        | inl none_left ↦ rw none_left (fails _ _)
        | inr (g, granted, left) ↦ rw granted (
            if-rule P (same_set (map (λ (i : String × String). i.0) given) (declared_slots d)) _ _
              (λ _.
                call_with-rule (record st { budget = call_taken st.budget }) d g
                  (parse_inputs k.parse_uuid (declared_slots d) given)
                  (λ inputs name b output c owned bound parsed.
                    (id, version, d, name, b, inputs, output, found, bound, owned, parsed))
                  (ends left))
              (λ _. (ends left).0 _ _))
      ]

  invoke-rule :
      (st : MainReactState) (o : Option MainDecision)
      → ((f : MainAgentFailure) (sigs : List StepSignal) → P (failing f sigs st))
      → Counted st
      → P (invoke k w o st)
  unfolding invoke
  invoke-rule st none fails ends = fails _ _
  invoke-rule st (some (MainDecision.answer _)) fails ends = fails _ _
  invoke-rule st (some (MainDecision.needs_input _)) fails ends = fails _ _
  invoke-rule st (some (MainDecision.load_skill _ _)) fails ends = fails _ _
  invoke-rule st (some (MainDecision.invoke id version given)) fails ends =
      resolved-rule st _ _ given id version refl fails ends

  pub invoke_node-rule :
      (st : MainReactState)
      → ((f : MainAgentFailure) (sigs : List StepSignal) → P (failing f sigs st))
      → Counted st
      → P (invoke_capability_node k w st)
  unfolding invoke_capability_node
  invoke_node-rule st = invoke-rule st st.decision
