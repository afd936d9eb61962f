-- ===== src/Agent/Ending.antt =====
-- How a run of backend/src/core/main_agent_react.py ends.
use oper_mind.Base.{
  ℕ, ◌+◌, ◌*◌, ◌-◌, ◌<◌, ◌≤◌, ◌≡◌, refl, Bool, true, false, Option, none, some, is_some, ◌||◌,
  arith, sym, ◌∙◌, All, All-append,
}
use oper_mind.Agent.Budget.{MainAgentBudget}
use oper_mind.Agent.Records.{
  SkillDeclaration, SkillLoad, ManagedSkill, MainDecision, MainAgentFailure, MainAnswerDelivery,
  MainNeedsInputDelivery, MainReactState, MainReactOutcome,
}
use oper_mind.Agent.Comparison.{TextComparison}
use oper_mind.Agent.Kernel.{
  MainReactKernel, Round, initial_state, delivery_of, final_failure, outcome_from_state,
}
use oper_mind.Agent.Keys.{IsValidLoad, IsGroundable, valid_grounding, loaded-IsValidLoad}
use oper_mind.Agent.Skill.{degrade, take_in}
use oper_mind.Agent.Graph.{
  Node, visit, next_node, run_graph, run, final_outcome, recursion_limit, is_stopped, node_of,
  route_after_decide, route_after_step,
}
use oper_mind.Agent.Rules.{Returns, if-rule, counted, decide-rule, load_node-rule}
use oper_mind.Agent.Finish.{answer_node-rule, question_node-rule, invoke_node-rule}
use oper_mind.Agent.Steady.{Goes, run_graph-Returns}

abbrev pub bit : Bool → ℕ
bit true = 1
bit false = 0

-- How many endings a state records.
abbrev pub marks : MainReactState → ℕ
marks st =
    bit (is_some st.answer)
    + bit (is_some st.needs_input)
    + bit (is_some st.comparison)
    + bit (is_some st.failure)
    + bit st.canceled

-- How many of delivery, failure and cancellation an outcome reports.
abbrev pub endings : MainReactOutcome → ℕ
endings o = bit (is_some o.delivery) + bit (is_some o.failure) + bit o.canceled

abbrev Running : Node → MainReactState → Type 0
Running node st =
    (marks st ≡ 0)
    × (st.budget.decisions ≤ st.budget.max_decisions)
    × All IsValidLoad st.loaded_skills

abbrev pub Ended : MainReactState → Type 0
Ended st = marks st ≤ 1

abbrev own_cost : Node → ℕ
own_cost Node.decide = 1
own_cost _ = 2

-- The nodes that may still run.
abbrev to_go : Node → MainReactState → ℕ
to_go node st = 2 * (st.budget.max_decisions - st.budget.decisions) + own_cost node

module _ (k : MainReactKernel) (rounds : ℕ → Round) (groundable : All IsGroundable k.capabilities)
    (reads : (n : ℕ) (s : SkillDeclaration) (skill : ManagedSkill)
      → (rounds n).load s ≡ SkillLoad.read skill
      → (skill.skill_id ≡ s.skill_id) × (skill.skill_version ≡ s.skill_version)) where
  abbrev Next : Node → MainReactState → MainReactState → Type 0
  Next node st next = Goes k rounds Running Ended to_go (to_go node st) (next_node node next) next

  -- A stopped state goes to END.
  stopped-Next :
      (node : Node) (st next : MainReactState)
      → is_stopped next ≡ true
      → marks next ≤ 1
      → Next node st next
  unfolding next_node route_after_decide route_after_step
  stopped-Next Node.decide st next stop m = rw stop m
  stopped-Next Node.finalize_answer st next stop m = m
  stopped-Next Node.finalize_needs_input st next stop m = m
  stopped-Next Node.load_skill st next stop m = rw stop m
  stopped-Next Node.invoke_capability st next stop m = m

  or_true : (b : Bool) → (b || true) ≡ true
  or_true b = ground arith

  decided-Next :
      (st : MainReactState) (d : MainDecision)
      → marks st ≡ 0
      → st.budget.decisions < st.budget.max_decisions
      → All IsValidLoad st.loaded_skills
      → Next Node.decide st (record (counted st) { decision = some d })
  unfolding next_node route_after_decide
  decided-Next st d m left v =
      if-rule
        (λ o.
          Goes k rounds Running Ended to_go (to_go Node.decide st) o
            (record (counted st) { decision = some d }))
        (is_stopped st) none (node_of (some d)) (λ _. omega (arith, m)) λ _. go d
    where
      go :
          (d : MainDecision)
          → Goes k rounds Running Ended to_go
              (to_go Node.decide st)
              (node_of (some d))
              (record (counted st) { decision = some d })
      go (MainDecision.answer _) = ((m, omega (arith, left), v), omega (arith, left))
      go (MainDecision.needs_input _) = ((m, omega (arith, left), v), omega (arith, left))
      go (MainDecision.load_skill _ _) = ((m, omega (arith, left), v), omega (arith, left))
      go (MainDecision.invoke _ _ _) = ((m, omega (arith, left), v), omega (arith, left))

  loaded-Next :
      (st next : MainReactState)
      → marks next ≡ 0
      → next.budget.decisions ≡ st.budget.decisions
      → next.budget.max_decisions ≡ st.budget.max_decisions
      → st.budget.decisions ≤ st.budget.max_decisions
      → All IsValidLoad next.loaded_skills
      → Next Node.load_skill st next
  unfolding next_node route_after_step
  loaded-Next st next m same limit le v =
      if-rule (λ o. Goes k rounds Running Ended to_go (to_go Node.load_skill st) o next)
        (is_stopped next) none (some Node.decide) (λ _. omega (arith, m))
        λ _. ((m, rw (same, limit) le, v), rw (same, limit) (omega arith))

  visit-Running :
      (n : ℕ) (node : Node) (st : MainReactState)
      → Running node st
      → Returns (Next node st) (visit k (rounds n) node st)
  unfolding visit next_node degrade take_in
  visit-Running n Node.decide st (m, le, v) =
      decide-rule k (rounds n) (Next Node.decide st) st
        (stopped-Next Node.decide st (record st { canceled = true }) (or_true _) (omega (arith, m)))
        (λ f sigs. stopped-Next Node.decide st _ refl (omega (arith, m)))
        λ left. (
          stopped-Next Node.decide st (record (counted st) { canceled = true }) (or_true _)
              (omega (arith, m)),
          λ f sigs. stopped-Next Node.decide st _ refl (omega (arith, m)),
          λ d by. decided-Next st d m left v,
        )
  visit-Running n Node.finalize_answer st (m, le, v) =
      answer_node-rule (Returns (Next Node.finalize_answer st)) st
        (λ raised. absurd (cc (sym raised ∙ (valid_grounding st.loaded_skills v).1)))
        (λ f sigs. omega (arith, m)) (λ text g sigs at. omega (arith, m))
  visit-Running n Node.finalize_needs_input st (m, le, v) =
      question_node-rule k (Next Node.finalize_needs_input st) st (λ f sigs. omega (arith, m))
        (λ slots q sigs _ _ _ _ _. omega (arith, m))
  visit-Running n Node.load_skill st (m, le, v) =
      load_node-rule k (rounds n) (Next Node.load_skill st) st
        (λ f sigs. stopped-Next Node.load_skill st _ refl (omega (arith, m)))
        (λ few d r. loaded-Next st (degrade d r st) m refl refl le v)
        (λ few left d skill from. loaded-Next st _ m refl refl le (
          All-append IsValidLoad st.loaded_skills _ v
            (loaded-IsValidLoad k (rounds n) groundable (reads n) d skill from, tt)))
  visit-Running n Node.invoke_capability st (m, le, v) =
      invoke_node-rule k (rounds n) (Next Node.invoke_capability st) st (λ f sigs. omega (arith, m))
        λ left. (λ f sigs. omega (arith, m), omega (arith, m), λ c sigs uses by. omega (arith, m))

  pub run_graph-Ended :
      (fuel : ℕ) (budget : MainAgentBudget)
      → budget.decisions ≤ budget.max_decisions
      → 2 * (budget.max_decisions - budget.decisions) + 1 < fuel
      → Returns Ended (run_graph k rounds fuel (some Node.decide) (initial_state k budget))
  run_graph-Ended fuel budget le enough =
      run_graph-Returns k rounds Running Ended to_go visit-Running fuel (some Node.decide)
        (initial_state k budget) ((refl, le, tt), enough)

one_ending :
    (a : Option MainAnswerDelivery) (q : Option MainNeedsInputDelivery) (c : Option TextComparison)
    (f : Option MainAgentFailure) (b : Bool)
    → bit (is_some a) + bit (is_some q) + bit (is_some c) + bit (is_some f) + bit b ≤ 1
    → bit (is_some (delivery_of a q c))
        + bit (is_some (final_failure (delivery_of a q c) f b))
        + bit b
      ≡ 1
one_ending a q c f b h = ground arith

abbrev EndsOnce : Option MainReactOutcome → Type 0
EndsOnce o = (r : MainReactOutcome) × (o ≡ some r) × (endings r ≡ 1)

final-EndsOnce : (o : Option MainReactState) → Returns Ended o → EndsOnce (final_outcome o)
unfolding final_outcome outcome_from_state
final-EndsOnce none h = absurd h
final-EndsOnce (some st) h = (
  outcome_from_state st,
  refl,
  one_ending st.answer st.needs_input st.comparison st.failure st.canceled h,
)

-- Where the registered declarations carry only identifiers and versions that a grounding accepts
-- (dotted lower-case names of at most 64 code points, versions from 1), and a skill that is read has
-- the identifier and version of its declaration: whatever else the model, the skill source, the
-- tool, the clock and the cancellation flag answer, a run
-- whose budget allows at most 24 further decisions ends before langgraph's recursion limit, no
-- exception leaves a node, and the outcome is exactly one of a delivery, a failure and a
-- cancellation.
pub run_ends_once :
    (k : MainReactKernel) (rounds : ℕ → Round) (groundable : All IsGroundable k.capabilities)
    (reads : (n : ℕ) (s : SkillDeclaration) (skill : ManagedSkill)
      → (rounds n).load s ≡ SkillLoad.read skill
      → (skill.skill_id ≡ s.skill_id) × (skill.skill_version ≡ s.skill_version))
    (budget : MainAgentBudget)
    → budget.decisions ≤ budget.max_decisions
    → budget.max_decisions - budget.decisions ≤ 24
    → (o : MainReactOutcome) × (run k rounds budget ≡ some o) × (endings o ≡ 1)
unfolding run
run_ends_once k rounds groundable reads budget le few =
    final-EndsOnce _
      (run_graph-Ended k rounds groundable reads recursion_limit budget le (omega (arith, few)))
