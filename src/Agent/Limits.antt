-- ===== src/Agent/Limits.antt =====
-- The limits of a run of backend/src/core/main_agent_react.py.
use oper_mind.Base.{
  ℕ, suc, ◌≤◌, ◌<◌, ◌≡◌, refl, ap, Option, none, some, List, [], ◌∷◌, ◌++◌, length, length-append,
  arith, All,
}
use oper_mind.Agent.Budget.{
  new_budget, max_main_decisions, max_knowledge_loads, max_agent_tool_calls,
}
use oper_mind.Agent.Records.{SkillDeclaration, SkillLoad, ManagedSkill, MainReactState}
use oper_mind.Agent.Keys.{IsGroundable}
use oper_mind.Agent.Kernel.{MainReactKernel, Round, initial_state, max_observation_messages}
use oper_mind.Agent.Skill.{degrade, take_in}
use oper_mind.Agent.Graph.{Node, run_graph, recursion_limit}
use oper_mind.Agent.Rules.{Returns}
use oper_mind.Agent.Steady.{Steady, IfSome, run_graph-Steady}
use oper_mind.Agent.Ending.{Ended, run_graph-Ended}

-- The counters agree with what they count, and no limit is passed.
abbrev pub WithinLimits : MainReactState → Type 0
WithinLimits st =
    (st.step ≡ st.budget.decisions)
    × (st.budget.decisions ≤ st.budget.max_decisions)
    × (length st.loaded_skills ≡ st.budget.knowledge_loads)
    × (st.budget.knowledge_loads ≤ st.budget.max_loads)
    × (st.budget.tool_calls ≤ st.budget.max_calls)
    × (length st.observations ≤ max_observation_messages)
    × (st.budget.max_decisions ≡ max_main_decisions)
    × (st.budget.max_loads ≡ max_knowledge_loads)
    × (st.budget.max_calls ≡ max_agent_tool_calls)

grown {ℓ} :
    {A : Type ℓ} (xs : List A) (x : A) (n : ℕ) → length xs ≡ n → length (xs ++ x ∷ []) ≡ suc n
grown xs x n h = omega (arith, h, length-append xs (x ∷ []))

observed {ℓ} :
    {A : Type ℓ} (xs : List A) (x : A) (n : ℕ) → length xs < n → length (xs ++ x ∷ []) ≤ n
observed xs x n h = omega (arith, h, length-append xs (x ∷ []))

limits-Steady : (k : MainReactKernel) (rounds : ℕ → Round) → Steady k rounds WithinLimits
unfolding degrade take_in
limits-Steady k rounds = record {
  stops = λ st h. h;
  fails = λ st f sigs h. h;
  counts =
      λ st left (s, d, l, m, c, o, x, y, z). (ap suc s, omega (arith, left), l, m, c, o, x, y, z);
  decides = λ st n d by h. h;
  degrades = λ st d r few (s, e, l, m, c, o, x, y, z).
      (s, e, l, m, c, observed st.observations _ _ few, x, y, z);
  loads = λ st n d skill few left from (s, e, l, m, c, o, x, y, z). (
    s,
    e,
    grown st.loaded_skills _ _ l,
    omega (arith, left),
    c,
    observed st.observations _ _ few,
    x,
    y,
    z,
  );
  calls = λ st left (s, d, l, m, c, o, x, y, z). (s, d, l, m, omega (arith, left), o, x, y, z);
  answers = λ st text g sigs at h. h;
  asks = λ st slots q sigs at set same prompt valid h. h;
  compares = λ st c sigs uses by h. h;
}

reaches :
    (P Q : MainReactState → Type 0) (o : Option MainReactState)
    → Returns Ended o
    → IfSome P o
    → ((st : MainReactState) → P st → Q st)
    → (st : MainReactState) × (o ≡ some st) × Q st
reaches P Q none e h f = absurd e
reaches P Q (some st) e h f = (st, refl, f st h)

abbrev Modest : MainReactState → Type 0
Modest st =
    (st.step ≤ 6)
    × (length st.loaded_skills ≤ 2)
    × (st.budget.tool_calls ≤ 3)
    × (length st.observations ≤ 6)

within : (st : MainReactState) → WithinLimits st → Modest st
within st (s, d, l, m, c, o, x, y, z) =
    (omega (arith, s, d, x), omega (arith, l, m, y), omega (arith, c, z), o)

-- Where the registered declarations carry only identifiers and versions that a grounding accepts,
-- and a skill that is read has the identifier and version of its declaration: under the default
-- budget every run reaches a last state, after at most 6 model decisions, at most
-- 2 loaded skills, at most 3 tool calls and at most 6 observations, whatever the model asks for.
pub run_within_limits :
    (k : MainReactKernel) (rounds : ℕ → Round) (groundable : All IsGroundable k.capabilities)
    (reads : (n : ℕ) (s : SkillDeclaration) (skill : ManagedSkill)
      → (rounds n).load s ≡ SkillLoad.read skill
      → (skill.skill_id ≡ s.skill_id) × (skill.skill_version ≡ s.skill_version))
    (now : ℕ)
    → (st : MainReactState) × (run_graph k rounds recursion_limit
          (some Node.decide)
          (initial_state k (new_budget now))
        ≡ some st)
      × ((st.step ≤ 6)
          × (length st.loaded_skills ≤ 2)
          × (st.budget.tool_calls ≤ 3)
          × (length st.observations ≤ 6))
run_within_limits k rounds groundable reads now =
    let start = initial_state k (new_budget now) in
    reaches WithinLimits Modest (run_graph k rounds recursion_limit (some Node.decide) start)
      (run_graph-Ended k rounds groundable reads recursion_limit (new_budget now) (omega arith)
        (omega arith))
      (run_graph-Steady k rounds WithinLimits (limits-Steady k rounds) recursion_limit
        (some Node.decide) start
        (refl, omega arith, refl, omega arith, omega arith, omega arith, refl, refl, refl))
      within
