-- ===== src/Agent/Delivered.antt =====
-- What a delivered question of backend/src/core/main_agent_react.py asks for, and what a delivered
-- comparison is about.
use mathlib.Core.Path.{subst}
use mathlib.Core.Option.{some-injective}
use oper_mind.Base.{
  ℕ, ==_iff, ◌≡◌, refl, sym, ap, String, str_eq, eq_iff, Bool, true, false, ◌&&◌, Option, none,
  some, inl, inr, List, [], ◌∷◌, find, arith, Bool-cases,
}
use oper_mind.Agent.Budget.{MainAgentBudget}
use oper_mind.Agent.Records.{
  CapabilityDefinition, MaterialRefs, MainAnswerDelivery, MainNeedsInputDelivery, MainDecision,
  MainDelivery, MainReactState, MainReactOutcome,
}
use oper_mind.Agent.Comparison.{TextComparison}
use oper_mind.Agent.Bindings.{
  Inputs, ToolBinding, get_binding, input_of, is_number, is_own_result, parse_comparison,
  text_compare_binding,
}
use oper_mind.Agent.Kernel.{MainReactKernel, Round, initial_state, delivery_of, outcome_from_state}
use oper_mind.Agent.Nodes.{same_set}
use oper_mind.Agent.Wording.{IsWorded, valid_wording}
use oper_mind.Agent.Skill.{degrade, take_in}
use oper_mind.Agent.Invoke.{reference_of, is_owned}
use oper_mind.Agent.Graph.{Node, run_graph, run, final_outcome, recursion_limit}
use oper_mind.Agent.Rules.{DecidedBy}
use oper_mind.Agent.Finish.{ComparedBy}
use oper_mind.Agent.Steady.{Steady, IfSome, run_graph-Steady}

module _ (k : MainReactKernel) (rounds : ℕ → Round) where
  -- The model of some round asked for the same set of slots.
  abbrev pub IsAskedFor : Type 0
  IsAskedFor =
      (n : ℕ) × (slots : List String) × DecidedBy (rounds n) (MainDecision.needs_input slots)
      × (same_set slots k.actual_missing ≡ true)

  abbrev Asked : Option MainNeedsInputDelivery → Type 0
  Asked none = Unit
  Asked (some q) = (q.missing ≡ k.actual_missing) × IsAskedFor × IsWorded q.missing q.prompt

  abbrev Chosen : Option MainDecision → Type 0
  Chosen none = Unit
  Chosen (some d) = (n : ℕ) × DecidedBy (rounds n) d

  abbrev Compared : Option TextComparison → Type 0
  Compared none = Unit
  Compared (some c) = ComparedBy k c

  abbrev Delivers : Option MainDelivery → Type 0
  Delivers (some (MainDelivery.asked q)) = Asked (some q)
  Delivers (some (MainDelivery.compared c)) = Compared (some c)
  Delivers _ = Unit

  abbrev Sourced : MainReactState → Type 0
  Sourced st = Asked st.needs_input × Compared st.comparison × Chosen st.decision

  Sourced-Steady : Steady k rounds Sourced
  unfolding degrade take_in
  Sourced-Steady = record {
    stops = λ st h. h;
    fails = λ st f sigs h. h;
    counts = λ st left h. h;
    decides = λ st n d by h. (h.0, h.1, (n, by));
    degrades = λ st d r few h. h;
    loads = λ st n d skill few left from h. h;
    calls = λ st left h. h;
    answers = λ st text g sigs at h. h;
    asks = λ st slots q sigs at set same prompt valid h.
        let (n, by) = subst Chosen at h.2 in
        ((same, (n, slots, by, set), valid_wording q.missing q.prompt valid prompt), h.1, h.2);
    compares = λ st c sigs uses by h. (h.0, by, h.2);
  }

  delivery-Delivers :
      (a : Option MainAnswerDelivery) (q : Option MainNeedsInputDelivery)
      (c : Option TextComparison)
      → Asked q
      → Compared c
      → Delivers (delivery_of a q c)
  delivery-Delivers (some a) q c hq hc = tt
  delivery-Delivers none (some q) c hq hc = hq
  delivery-Delivers none none (some c) hq hc = hc
  delivery-Delivers none none none hq hc = tt

  run-Delivers :
      (budget : MainAgentBudget) (o : MainReactOutcome)
      → run k rounds budget ≡ some o
      → Delivers o.delivery
  unfolding run final_outcome outcome_from_state
  run-Delivers budget o ran =
      read (run_graph k rounds recursion_limit (some Node.decide) (initial_state k budget))
        (run_graph-Steady k rounds Sourced Sourced-Steady recursion_limit (some Node.decide)
          (initial_state k budget) (tt, tt, tt))
        ran
    where
      read :
          (s : Option MainReactState)
          → IfSome Sourced s
          → final_outcome s ≡ some o
          → Delivers o.delivery
      read none h e = cc
      read (some st) h e =
          subst (λ (r : MainReactOutcome). Delivers r.delivery) (some-injective _ _ e)
            (delivery-Delivers st.answer st.needs_input st.comparison h.0 h.1)

-- A question that a run delivers names exactly the slots that the snapshot misses, which the model
-- of some round asked for as a set; and its text is the fixed one for text_a, for text_b, or for both
-- in the order in which they are missing.
pub question_is_exact :
    (k : MainReactKernel) (rounds : ℕ → Round) (budget : MainAgentBudget) (o : MainReactOutcome)
    (q : MainNeedsInputDelivery)
    → run k rounds budget ≡ some o
    → o.delivery ≡ some (MainDelivery.asked q)
    → (q.missing ≡ k.actual_missing) × IsAskedFor k rounds × IsWorded q.missing q.prompt
question_is_exact k rounds budget o q ran delivered =
    subst (Delivers k rounds) delivered (run-Delivers k rounds budget o ran)

and_split : (a b : Bool) → (a && b) ≡ true → (a ≡ true) × (b ≡ true)
and_split a b h = (ground arith, ground arith)

split6 :
    (a b c d e f : Bool)
    → (a && b && c && d && e && f) ≡ true
    → (a ≡ true) × ((b ≡ true) × ((c ≡ true) × ((d ≡ true) × ((e ≡ true) × (f ≡ true)))))
split6 a b c d e f h =
    (ground arith, (ground arith, (ground arith, (ground arith, (ground arith, ground arith)))))

input_of-here :
    (slot : String) (i : String × ℕ) (inputs : Inputs)
    → str_eq i.0 slot ≡ true
    → input_of slot (i ∷ inputs) ≡ some i.1
unfolding input_of find
input_of-here slot i inputs same = rw (same, input_of) refl

input_of-later :
    (slot : String) (i : String × ℕ) (inputs : Inputs)
    → str_eq i.0 slot ≡ false
    → input_of slot (i ∷ inputs) ≡ input_of slot inputs
unfolding input_of find
input_of-later slot i inputs other = rw (other, input_of) refl

-- An input that was found is the run's own material of that slot.
owned_input :
    (refs : MaterialRefs) (inputs : Inputs) (slot : String) (m : ℕ)
    → is_owned refs inputs ≡ true
    → is_number (input_of slot inputs) m ≡ true
    → is_number (reference_of slot refs) m ≡ true
unfolding input_of find
owned_input refs [] slot m owned at = cc
owned_input refs (i ∷ inputs) slot m owned at =
    let (own, rest) =
      and_split (is_number (reference_of i.0 refs) i.1) (is_owned refs inputs) owned in
    elim (Bool-cases (str_eq i.0 slot)) [
      | inl same ↦
          subst (λ s. is_number (reference_of s refs) m ≡ true) ((eq_iff i.0 slot).0 same)
            (subst (λ n. is_number (reference_of i.0 refs) n ≡ true)
              ((==_iff i.1 m).0 (rw (input_of-here slot i inputs same) at at)) own)
      | inr other ↦
          owned_input refs inputs slot m rest (rw (input_of-later slot i inputs other) at at)
    ]

is_number_eq : (o : Option ℕ) (m : ℕ) → is_number o m ≡ true → o ≡ some m
is_number_eq none m h = cc
is_number_eq (some n) m h = ap some ((==_iff n m).0 h)

-- The comparison was made for this run, of its own two materials.
abbrev pub OwnComparison : MainReactKernel → TextComparison → Type 0
OwnComparison k c =
    (c.run_id ≡ k.run_id)
    × (k.material_refs.text_a ≡ some c.a_material_id)
    × (k.material_refs.text_b ≡ some c.b_material_id)

own_comparison :
    (k : MainReactKernel) (d : CapabilityDefinition) (inputs : Inputs) (o : Option TextComparison)
    (c : TextComparison)
    → is_owned k.material_refs inputs ≡ true
    → parse_comparison o d k.run_id inputs k.rule_version ≡ some c
    → OwnComparison k c
unfolding parse_comparison
own_comparison k d inputs none c owned parsed = cc
own_comparison k d inputs (some e) c owned parsed =
    elim (Bool-cases (is_own_result d k.run_id inputs k.rule_version e)) [
      | inr other ↦ cc (rw other at parsed)
      | inl own ↦ subst (OwnComparison k) (some-injective _ _ (rw own at parsed)) (parts own)
    ]
  where
    parts : is_own_result d k.run_id inputs k.rule_version e ≡ true → OwnComparison k e
    parts own =
        let (r, (_, (_, (a, (b, _))))) = split6 _ _ _ _ _ _ own in
        (
          (==_iff _ _).0 r,
          is_number_eq _ _ (owned_input k.material_refs inputs "text_a" _ owned a),
          is_number_eq _ _ (owned_input k.material_refs inputs "text_b" _ owned b),
        )

only_binding : (name : String) (b c : ToolBinding) → get_binding name (b ∷ []) ≡ some c → b ≡ c
unfolding find
only_binding name b c h = elim (Bool-cases (str_eq b.name name)) [
  | inl same ↦ some-injective _ _ (rw same at h)
  | inr other ↦ cc (rw other at h)
]

-- Under the tool binding of the source, a comparison that a run delivers carries the run's own
-- identifier and compares the run's own text_a with its own text_b, whatever the model names as
-- inputs and whatever text the tool answers.
pub comparison_is_own :
    (k : MainReactKernel) (rounds : ℕ → Round) (budget : MainAgentBudget) (o : MainReactOutcome)
    (c : TextComparison) (dump : ℕ → ℕ → Option String → String)
    (validate_json : String → Option TextComparison)
    → k.tool_bindings ≡ text_compare_binding dump validate_json ∷ []
    → run k rounds budget ≡ some o
    → o.delivery ≡ some (MainDelivery.compared c)
    → OwnComparison k c
unfolding text_compare_binding
comparison_is_own k rounds budget o c dump validate_json bound ran delivered =
    let (id, version, d, name, b, inputs, output, found, get, owned, parsed) =
      subst (Delivers k rounds) delivered (run-Delivers k rounds budget o ran) in
    own_comparison k d inputs (validate_json output) c owned (
      subst (λ (t : ToolBinding). t.parse_result d output k.run_id inputs k.rule_version ≡ some c)
        (sym (
          only_binding name (text_compare_binding dump validate_json) b
            (subst (λ l. get_binding name l ≡ some b) bound get)))
        parsed)
