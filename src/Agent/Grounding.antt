-- ===== src/Agent/Grounding.antt =====
-- What a delivered answer of backend/src/core/main_agent_react.py says about loaded skills.
use mathlib.Core.Path.{subst}
use mathlib.Core.Option.{some-injective}
use oper_mind.Base.{ℕ, ◌≡◌, refl, ◌∙◌, ap, Option, none, some, List, [], ◌∷◌, All, All-append}
use oper_mind.Agent.Budget.{MainAgentBudget}
use oper_mind.Agent.Records.{
  CapabilityDefinition, ManagedSkill, LoadedSkill, KnowledgeGrounding, MainAnswerDelivery,
  MainNeedsInputDelivery, MainDelivery, MainReactState, MainReactOutcome,
}
use oper_mind.Agent.Comparison.{TextComparison}
use oper_mind.Agent.Kernel.{
  MainReactKernel, Round, initial_state, grounding_of, grounding_for, delivery_of,
  outcome_from_state,
}
use oper_mind.Agent.Keys.{copied}
use oper_mind.Agent.Skill.{degrade, take_in}
use oper_mind.Agent.Graph.{Node, run_graph, run, final_outcome, recursion_limit}
use oper_mind.Agent.Rules.{LoadedFrom}
use oper_mind.Agent.Steady.{Steady, IfSome, run_graph-Steady}

module _ (k : MainReactKernel) (rounds : ℕ → Round) where
  -- The skill was read in some round for a declared knowledge capability.
  abbrev pub Genuine : LoadedSkill → Type 0
  Genuine l =
      (n : ℕ) × (d : CapabilityDefinition) × LoadedFrom k (rounds n) d l.skill
      × (l.capability_id ≡ d.capability_id)
      × (l.capability_version ≡ d.version)

  -- The grounding names a skill that was read so.
  abbrev pub Grounded : Option KnowledgeGrounding → Type 0
  Grounded none = Unit
  Grounded (some g) =
      (n : ℕ) × (d : CapabilityDefinition) × (skill : ManagedSkill) × LoadedFrom k (rounds n) d
        skill
      × (g.capability_id ≡ d.capability_id)
      × (g.capability_version ≡ d.version)
      × (g.skill_id ≡ skill.skill_id)
      × (g.skill_version ≡ skill.skill_version)

  abbrev GroundedAnswer : Option MainAnswerDelivery → Type 0
  GroundedAnswer none = Unit
  GroundedAnswer (some a) = Grounded a.knowledge_grounding

  abbrev pub Honest : MainReactState → Type 0
  Honest st = All Genuine st.loaded_skills × GroundedAnswer st.answer

  of_skill-Grounded :
      (l : LoadedSkill) (g : Option KnowledgeGrounding)
      → Genuine l
      → grounding_of (some l) ≡ some g
      → Grounded g
  of_skill-Grounded l g (n, d, from, id, version) at =
      subst Grounded (copied l g at) (n, d, l.skill, from, id, version, refl, refl)

  last-Grounded :
      (l : List LoadedSkill) (g : Option KnowledgeGrounding)
      → All Genuine l
      → grounding_for l ≡ some g
      → Grounded g
  unfolding grounding_for grounding_of
  last-Grounded [] g h at = subst Grounded (some-injective none g at) tt
  last-Grounded (x ∷ []) g (h, _) at = of_skill-Grounded x g h at
  last-Grounded (x ∷ y ∷ l) g h at = last-Grounded (y ∷ l) g h.1 at

  Honest-Steady : Steady k rounds Honest
  unfolding degrade take_in
  Honest-Steady = record {
    stops = λ st h. h;
    fails = λ st f sigs h. h;
    counts = λ st left h. h;
    decides = λ st n d by h. h;
    degrades = λ st d r few h. h;
    loads = λ st n d skill few left from h.
        (All-append Genuine st.loaded_skills _ h.0 ((n, d, from, refl, refl), tt), h.1);
    calls = λ st left h. h;
    answers = λ st text g sigs at h. (h.0, last-Grounded st.loaded_skills g h.0 at);
    asks = λ st slots q sigs at set same prompt valid h. h;
    compares = λ st c sigs uses by h. h;
  }

  answered-Grounded :
      (a : Option MainAnswerDelivery) (q : Option MainNeedsInputDelivery)
      (c : Option TextComparison) (b : MainAnswerDelivery)
      → delivery_of a q c ≡ some (MainDelivery.answered b)
      → GroundedAnswer a
      → Grounded b.knowledge_grounding
  answered-Grounded (some a) q c b h g = subst GroundedAnswer (answer_eq a b h) g
    where
      answer_of : Option MainDelivery → Option MainAnswerDelivery
      answer_of (some (MainDelivery.answered a)) = some a
      answer_of _ = none

      answer_eq :
          (a b : MainAnswerDelivery)
          → some (MainDelivery.answered a) ≡ some (MainDelivery.answered b)
          → some a ≡ some b
      answer_eq a b h = ap answer_of h
  answered-Grounded none (some q) c b h g = cc
  answered-Grounded none none (some c) b h g = cc
  answered-Grounded none none none b h g = cc

-- Where a run delivers an answer with knowledge grounding, the grounding names a skill that the
-- skill source read in that run, for the declaration of a registered active knowledge capability,
-- with that capability's id and version and that skill's id and version.
pub answer_is_Grounded :
    (k : MainReactKernel) (rounds : ℕ → Round) (budget : MainAgentBudget) (o : MainReactOutcome)
    (a : MainAnswerDelivery)
    → run k rounds budget ≡ some o
    → o.delivery ≡ some (MainDelivery.answered a)
    → Grounded k rounds a.knowledge_grounding
unfolding run final_outcome outcome_from_state
answer_is_Grounded k rounds budget o a ran delivered =
    read (run_graph k rounds recursion_limit (some Node.decide) (initial_state k budget))
      (run_graph-Steady k rounds (Honest k rounds) (Honest-Steady k rounds) recursion_limit
        (some Node.decide) (initial_state k budget) (tt, tt))
      ran
  where
    read :
        (s : Option MainReactState)
        → IfSome (Honest k rounds) s
        → final_outcome s ≡ some o
        → Grounded k rounds a.knowledge_grounding
    read none h e = cc
    read (some st) h e =
        answered-Grounded k rounds st.answer st.needs_input st.comparison a
          (ap (λ r. r.delivery) (some-injective _ _ e) ∙ delivered) h.1
