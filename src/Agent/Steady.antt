-- ===== src/Agent/Steady.antt =====
-- Runs of the graph of backend/src/core/main_agent_react.py: their fuel, and the properties of
-- states that every node keeps.
use oper_mind.Base.{
  ℕ, zero, suc, ◌<◌, ◌≤◌, ◌≡◌, true, String, Option, none, some, List, length, arith,
}
use oper_mind.Agent.Records.{
  CapabilityDefinition, CapabilityUse, ManagedSkill, SkillUnavailableReason, MainDecision,
  KnowledgeGrounding, MainAgentFailure, MainNeedsInputDelivery, StepSignal, MainReactState,
}
use oper_mind.Agent.Comparison.{TextComparison}
use oper_mind.Agent.Kernel.{
  MainReactKernel, Round, with_signals, grounding_for, needs_input_prompt, max_observation_messages,
}
use oper_mind.Agent.Nodes.{is_valid_question, same_set}
use oper_mind.Agent.Skill.{degrade, take_in, load_skill_node}
use oper_mind.Agent.Graph.{Node, visit, next_node, run_graph, round_at}
use oper_mind.Agent.Rules.{
  Returns, failing, counted, load_taken, call_taken, LoadedFrom, DecidedBy, decide-rule,
  load_node-rule,
}
use oper_mind.Agent.Finish.{
  ComparedBy, answering, answer_node-rule, question_node-rule, invoke_node-rule,
}

-- What holds of an optional state if there is one.
abbrev pub IfSome : (MainReactState → Type 0) → Option MainReactState → Type 0
IfSome P none = Unit
IfSome P (some st) = P st

IfSome-Returns :
    (P : MainReactState → Type 0) (o : Option MainReactState) → Returns P o → IfSome P o
IfSome-Returns P none h = tt
IfSome-Returns P (some st) h = h

then-IfSome :
    (P : MainReactState → Type 0) (o : Option MainReactState)
    (f : MainReactState → Option MainReactState)
    → IfSome P o
    → ((st : MainReactState) → P st → IfSome P (f st))
    → IfSome P (elim o [ none ↦ none | some next ↦ f next ])
then-IfSome P none f h g = tt
then-IfSome P (some st) f h g = g st h

then-rule :
    (Q : MainReactState → Type 0) (R : Option MainReactState → Type 0) (o : Option MainReactState)
    (f : MainReactState → Option MainReactState)
    → Returns Q o
    → ((st : MainReactState) → Q st → R (f st))
    → R (elim o [ none ↦ none | some next ↦ f next ])
then-rule Q R none f h g = absurd h
then-rule Q R (some st) f h g = g st h

-- A property of states that every update of the nodes keeps.
pub record Steady (k : MainReactKernel) (rounds : ℕ → Round) (P : MainReactState → Type 0)
    : Type 0 where
  pub stops : (st : MainReactState) → P st → P (record st { canceled = true })
  pub fails :
      (st : MainReactState) (f : MainAgentFailure) (sigs : List StepSignal)
      → P st
      → P (failing f sigs st)
  pub counts :
      (st : MainReactState) → st.budget.decisions < st.budget.max_decisions → P st → P (counted st)
  pub decides :
      (st : MainReactState) (n : ℕ) (d : MainDecision)
      → DecidedBy (rounds n) d
      → P st
      → P (record st { decision = some d })
  pub degrades :
      (st : MainReactState) (d : CapabilityDefinition) (r : SkillUnavailableReason)
      → length st.observations < max_observation_messages
      → P st
      → P (degrade d r st)
  pub loads :
      (st : MainReactState) (n : ℕ) (d : CapabilityDefinition) (skill : ManagedSkill)
      → length st.observations < max_observation_messages
      → st.budget.knowledge_loads < st.budget.max_loads
      → LoadedFrom k (rounds n) d skill
      → P st
      → P (take_in d skill (load_taken st.budget) st)
  pub calls :
      (st : MainReactState)
      → st.budget.tool_calls < st.budget.max_calls
      → P st
      → P (record st { budget = call_taken st.budget })
  pub answers :
      (st : MainReactState) (text : String) (g : Option KnowledgeGrounding) (sigs : List StepSignal)
      → grounding_for st.loaded_skills ≡ some g
      → P st
      → P (answering text g sigs st)
  pub asks :
      (st : MainReactState) (slots : List String) (q : MainNeedsInputDelivery)
      (sigs : List StepSignal)
      → st.decision ≡ some (MainDecision.needs_input slots)
      → same_set slots k.actual_missing ≡ true
      → q.missing ≡ k.actual_missing
      → q.prompt ≡ needs_input_prompt q.missing
      → is_valid_question q.missing q.prompt ≡ true
      → P st
      → P (with_signals sigs (record st { needs_input = some q }))
  pub compares :
      (st : MainReactState) (c : TextComparison) (sigs : List StepSignal)
      (uses : List CapabilityUse)
      → ComparedBy k c
      → P st
      → P (with_signals sigs (record st { comparison = some c; used = uses }))

module _ (k : MainReactKernel) (rounds : ℕ → Round) (P : MainReactState → Type 0)
    (s : Steady k rounds P) where
  visit-Steady :
      (n : ℕ) (node : Node) (st : MainReactState) → P st → IfSome P (visit k (rounds n) node st)
  unfolding visit
  visit-Steady n Node.decide st p =
      decide-rule k (rounds n) P st (s.stops st p) (λ f sigs. s.fails st f sigs p)
        λ left.
          let q = s.counts st left p in
          (
            s.stops (counted st) q,
            λ f sigs. s.fails (counted st) f sigs q,
            λ d by. s.decides (counted st) n d by q,
          )
  visit-Steady n Node.finalize_answer st p =
      answer_node-rule (IfSome P) st (λ raised. tt) (λ f sigs. s.fails st f sigs p)
        (λ text g sigs at. s.answers st text g sigs at p)
  visit-Steady n Node.finalize_needs_input st p =
      question_node-rule k P st (λ f sigs. s.fails st f sigs p)
        λ slots q sigs at set same prompt valid. s.asks st slots q sigs at set same prompt valid p
  visit-Steady n Node.load_skill st p = IfSome-Returns P (load_skill_node k (rounds n) st) (
      load_node-rule k (rounds n) P st (λ f sigs. s.fails st f sigs p)
        (λ few d r. s.degrades st d r few p)
        (λ few left d skill from. s.loads st n d skill few left from p))
  visit-Steady n Node.invoke_capability st p =
      invoke_node-rule k (rounds n) P st (λ f sigs. s.fails st f sigs p)
        λ left.
          let called = record st { budget = call_taken st.budget } in
          let q = s.calls st left p in
          (
            λ f sigs. s.fails called f sigs q,
            s.stops called q,
            λ c sigs uses by. s.compares called c sigs uses by q,
          )

  -- What every update keeps holds at the end of a run.
  pub run_graph-Steady :
      (fuel : ℕ) (o : Option Node) (st : MainReactState)
      → P st
      → IfSome P (run_graph k rounds fuel o st)
  unfolding run_graph
  run_graph-Steady fuel none st p = p
  run_graph-Steady zero (some node) st p = tt
  run_graph-Steady (suc fuel) (some node) st p =
      then-IfSome P (visit k (rounds (round_at node st.step)) node st)
        (λ next. run_graph k rounds fuel (next_node node next) next)
        (visit-Steady (round_at node st.step) node st p)
        λ next q. run_graph-Steady fuel (next_node node next) next q

-- A run whose measure decreases at every node ends within the fuel.
module _ (k : MainReactKernel) (rounds : ℕ → Round) (I : Node → MainReactState → Type 0)
    (E : MainReactState → Type 0) (measure : Node → MainReactState → ℕ) where
  abbrev pub Goes : ℕ → Option Node → MainReactState → Type 0
  Goes bound none st = E st
  Goes bound (some node) st = I node st × (measure node st < bound)

  weaken :
      (a b : ℕ) (o : Option Node) (next : MainReactState) → a ≤ b → Goes a o next → Goes b o next
  weaken a b none next le g = g
  weaken a b (some m) next le g = (g.0, omega (arith, g.1, le))

  pub run_graph-Returns :
      ((n : ℕ) (node : Node) (st : MainReactState)
        → I node st
        → Returns
            (λ next. Goes (measure node st) (next_node node next) next)
            (visit k (rounds n) node st))
      → (fuel : ℕ) (o : Option Node) (st : MainReactState) → Goes fuel o st
      → Returns E (run_graph k rounds fuel o st)
  unfolding run_graph
  run_graph-Returns step fuel none st h = h
  run_graph-Returns step zero (some node) st h = absurd (omega (arith, h.1))
  run_graph-Returns step (suc fuel) (some node) st h =
      then-rule (λ next. Goes (measure node st) (next_node node next) next) (Returns E)
        (visit k (rounds (round_at node st.step)) node st)
        (λ next. run_graph k rounds fuel (next_node node next) next)
        (step (round_at node st.step) node st h.0)
        λ next g.
          run_graph-Returns step fuel (next_node node next) next
            (weaken (measure node st) fuel (next_node node next) next (omega (arith, h.1)) g)
