-- ===== src/Agent/Tests.antt =====
-- Runs of the main agent on small examples.
use oper_mind.Base.{
  has_char, ℕ, suc, zero, ◌≡◌, refl, String, str_eq, if◌then◌else◌, false, Option, none, some, List,
  [], ◌∷◌, arith, ap, sym, is_namespaced, is_rest_of_name, any, first_chars, find, length, ◌≤◌,
}
use oper_mind.Agent.Budget.{
  new_budget, start_decision, start_tool_call, can_load_knowledge, record_knowledge_load,
}
use oper_mind.Agent.Records.{
  CapabilityKind, CompletionSemantics, FailureSemantics, SkillDeclaration, CapabilityDefinition,
  ManagedSkill, SkillLoad, MainDecision, ModelDecisionResult, MaterialRefs, ToolStatus,
  MainAnswerDelivery, MainNeedsInputDelivery, MainReactOutcome, MainReactState,
}
use oper_mind.Agent.Comparison.{BlockKind, TextComparison, ComparisonStatus}
use oper_mind.Agent.Bindings.{text_compare_binding, parse_comparison, arguments_of, input_of}
use oper_mind.Agent.Registry.{
  register, get, active_version, resolve, resolve_known, resolve_version, is_other_kind,
}
use oper_mind.Agent.Kernel.{
  MainReactKernel, Round, initial_state, needs_input_prompt, slot_label, join_and, grounding_for,
  grounding_of, new_grounding, is_grounding_key, outcome_from_state,
}
use oper_mind.Agent.Nodes.{
  is_subset, is_unique, decide_node, decide_granted, decided, finalize_answer_node, finalize_answer,
  finalize_grounded, finalize_needs_input_node, finalize_needs_input,
}
use oper_mind.Agent.Skill.{
  load_skill_node, load_skill, load_resolved, load_declared, after_load, record_loaded, take_in,
}
use oper_mind.Agent.Invoke.{
  invoke_capability_node, invoke, invoke_resolved, invoke_granted, call_with, call_declared,
  call_bound, after_call, deliver, call_signals, parse_inputs, call_through, is_ok,
}
use oper_mind.Agent.Grants.{IsTimely, start_calls-IsTimely}
use oper_mind.Agent.Graph.{
  Node, run_graph, run, visit, next_node, route_after_decide, route_after_step, final_outcome,
  recursion_limit,
}
use oper_mind.Agent.Ending.{endings, run_ends_once}
use oper_mind.Agent.Limits.{run_within_limits}
use oper_mind.Agent.Grounding.{Grounded, answer_is_Grounded}
use oper_mind.Agent.Wording.{IsWorded}
use oper_mind.Agent.Delivered.{IsAskedFor, OwnComparison, question_is_exact, comparison_is_own}
use oper_mind.Agent.Validation.{
  is_valid_comparison, is_valid_side, is_full_side, is_in_order, is_after, end_after, join_lines,
  quoted_lines, last_line, a_sides, b_sides, valid_comparison_is_bounded,
}
use oper_mind.Agent.Lookup.{is_later, resolve_finds_active, register_activates}

abbrev guide_skill : SkillDeclaration
guide_skill = record {
  skill_id = "ops.guide";
  skill_version = 1;
  title = "guide";
  expected_sha256 = "00";
  max_codepoints = 4000;
}

abbrev guide : CapabilityDefinition
guide = record {
  capability_id = "ops.guide";
  version = 2;
  kind = CapabilityKind.knowledge;
  title = "guide";
  description = "a guide";
  usage_guide = "load it";
  instruction = "follow it";
  material_slots = [];
  delivery_kind = none;
  resources = [];
  permissions = [];
  tool_bindings = [];
  completion = CompletionSemantics.response;
  failure = FailureSemantics.source_invalid ∷ [];
  skill = some guide_skill;
  rule_version = none;
}

abbrev compare_texts : CapabilityDefinition
compare_texts = record {
  capability_id = "text.literal_compare";
  version = 1;
  kind = CapabilityKind.execution;
  title = "compare";
  description = "compares two texts";
  usage_guide = "give two texts";
  instruction = "compare";
  material_slots =
      record { slot = "text_a"; label = "A" } ∷ record { slot = "text_b"; label = "B" } ∷ [];
  delivery_kind = some "comparison";
  resources = [];
  permissions = "read_only" ∷ [];
  tool_bindings = "text_literal_compare" ∷ [];
  completion = CompletionSemantics.typed_result;
  failure = FailureSemantics.tool_timeout ∷ [];
  skill = none;
  rule_version = some "literal-lines@1";
}

abbrev same_texts : TextComparison
same_texts = record {
  run_id = 7;
  a_material_id = 1;
  b_material_id = 2;
  capability_id = "text.literal_compare";
  capability_version = 1;
  rule_version = "literal-lines@1";
  status = ComparisonStatus.no_difference;
  blocks = [];
}

abbrev read_json : String → Option TextComparison
read_json output = some same_texts

abbrev write_json : ℕ → ℕ → Option String → String
write_json a b rule = "{}"

abbrev read_uuid : String → Option ℕ
read_uuid s = if str_eq s "one" then some 1 else some 2

abbrev agent : List String → MaterialRefs → MainReactKernel
agent missing refs = record {
  capabilities = guide ∷ compare_texts ∷ [];
  tool_bindings = text_compare_binding write_json read_json ∷ [];
  run_id = 7;
  query = "compare";
  context = [];
  material_refs = refs;
  actual_missing = missing;
  rule_version = "literal-lines@1";
  parse_uuid = read_uuid;
}

-- What a skill source reads for a declaration.
abbrev skill_of : SkillDeclaration → ManagedSkill
skill_of s = record { skill_id = s.skill_id; skill_version = s.skill_version; content = "text" }

-- A round in which nothing is cancelled and the model answers with this decision.
abbrev round_of : MainDecision → Round
round_of d = record {
  cancelled_before = false;
  cancelled_granted = false;
  cancelled_decided = false;
  cancelled_called = false;
  now_decision = 0;
  now_load = 0;
  now_call = 0;
  decide = λ request seconds. some (ModelDecisionResult.success d);
  load = λ s. SkillLoad.read (skill_of s);
  call_tool = λ name arguments seconds.
      some (record { output = "{}"; status = ToolStatus.ok; duration_ms = 5 });
}

abbrev ask_both : ℕ → Round
ask_both n = round_of (MainDecision.needs_input ("text_b" ∷ "text_a" ∷ []))

abbrev load_then_answer : ℕ → Round
load_then_answer zero = round_of (MainDecision.answer "")
load_then_answer (suc zero) = round_of (MainDecision.load_skill "ops.guide" 2)
load_then_answer (suc (suc n)) = round_of (MainDecision.answer "done")

abbrev compare_both : ℕ → Round
compare_both n =
    round_of
      (MainDecision.invoke "text.literal_compare" 1 (("text_a", "one") ∷ ("text_b", "two") ∷ []))

abbrev no_materials : MaterialRefs
no_materials = record { text_a = none; text_b = none }

abbrev two_materials : MaterialRefs
two_materials = record { text_a = some 1; text_b = some 2 }

abbrev both_slots : List String
both_slots = "text_a" ∷ "text_b" ∷ []

id_of : SkillLoad → String
id_of (SkillLoad.read s) = s.skill_id
id_of _ = ""

version_of : SkillLoad → ℕ
version_of (SkillLoad.read s) = s.skill_version
version_of _ = 0

reads_own :
    (s : SkillDeclaration) (skill : ManagedSkill)
    → SkillLoad.read (skill_of s) ≡ SkillLoad.read skill
    → (skill.skill_id ≡ s.skill_id) × (skill.skill_version ≡ s.skill_version)
unfolding id_of version_of
reads_own s skill h = (sym (ap id_of h), sym (ap version_of h))

reads_guide :
    (n : ℕ) (s : SkillDeclaration) (skill : ManagedSkill)
    → (load_then_answer n).load s ≡ SkillLoad.read skill
    → (skill.skill_id ≡ s.skill_id) × (skill.skill_version ≡ s.skill_version)
reads_guide zero s skill h = reads_own s skill h
reads_guide (suc zero) s skill h = reads_own s skill h
reads_guide (suc (suc n)) s skill h = reads_own s skill h

run_ends_once_example :
    (o : MainReactOutcome) × (run (agent both_slots no_materials) load_then_answer (new_budget 0)
      ≡ some o)
    × (endings o ≡ 1)
unfolding is_grounding_key is_namespaced is_rest_of_name
run_ends_once_example =
    run_ends_once (agent both_slots no_materials) load_then_answer (refl, (refl, tt)) reads_guide
      (new_budget 0) (omega arith) (omega arith)

run_within_limits_example :
    (st : MainReactState) × (run_graph
        (agent both_slots no_materials)
        load_then_answer
        recursion_limit
        (some Node.decide)
        (initial_state (agent both_slots no_materials) (new_budget 0))
      ≡ some st)
    × ((st.step ≤ 6)
        × (length st.loaded_skills ≤ 2)
        × (st.budget.tool_calls ≤ 3)
        × (length st.observations ≤ 6))
unfolding is_grounding_key is_namespaced is_rest_of_name
run_within_limits_example =
    run_within_limits (agent both_slots no_materials) load_then_answer (refl, (refl, tt))
      reads_guide 0

abbrev grounded_answer : MainAnswerDelivery
grounded_answer = record {
  text = "done";
  knowledge_grounding = some (record {
    capability_id = "ops.guide";
    capability_version = 2;
    skill_id = "ops.guide";
    skill_version = 1;
  });
}

answer_is_Grounded_example :
    Grounded (agent [] two_materials) load_then_answer grounded_answer.knowledge_grounding
unfolding run run_graph final_outcome outcome_from_state visit next_node route_after_decide
    route_after_step decide_node decide_granted decided start_decision load_skill_node load_skill
    load_resolved load_declared after_load record_loaded take_in can_load_knowledge
    record_knowledge_load resolve resolve_known resolve_version get active_version find
    finalize_answer_node finalize_answer finalize_grounded grounding_for grounding_of new_grounding
    is_grounding_key is_namespaced is_rest_of_name
answer_is_Grounded_example =
    answer_is_Grounded (agent [] two_materials) load_then_answer (new_budget 0) _ grounded_answer
      refl refl

abbrev question : MainNeedsInputDelivery
question = record { missing = both_slots; prompt = "请提供文本 A（旧）和文本 B（新），我会做逐行字面比较。" }

question_is_exact_example :
    (question.missing ≡ both_slots)
    × IsAskedFor (agent both_slots no_materials) ask_both
    × IsWorded question.missing question.prompt
unfolding run run_graph final_outcome outcome_from_state visit next_node route_after_decide
    decide_node decide_granted decided start_decision finalize_needs_input_node finalize_needs_input
    needs_input_prompt slot_label join_and first_chars is_subset is_unique
question_is_exact_example =
    question_is_exact (agent both_slots no_materials) ask_both (new_budget 0) _ question refl refl

comparison_is_own_example : OwnComparison (agent [] two_materials) same_texts
unfolding run run_graph final_outcome outcome_from_state visit next_node route_after_decide
    decide_node decide_granted decided start_decision start_tool_call invoke_capability_node invoke
    invoke_resolved invoke_granted call_with call_declared call_bound after_call deliver
    call_signals parse_inputs call_through is_ok text_compare_binding parse_comparison arguments_of
    input_of resolve resolve_known resolve_version get active_version find is_subset
comparison_is_own_example =
    comparison_is_own (agent [] two_materials) compare_both (new_budget 0) _ same_texts write_json
      read_json refl refl refl

resolve_finds_active_example :
    (get "ops.guide" 2 (guide ∷ []) ≡ some guide)
    × (guide.capability_id ≡ "ops.guide")
    × (guide.version ≡ 2)
    × (is_other_kind (some CapabilityKind.knowledge) guide.kind ≡ false)
    × (any (is_later "ops.guide" 2) (guide ∷ []) ≡ false)
unfolding resolve resolve_known resolve_version get active_version find
resolve_finds_active_example =
    resolve_finds_active "ops.guide" 2 (some CapabilityKind.knowledge) (guide ∷ []) guide refl

abbrev next_guide : CapabilityDefinition
next_guide = record guide { version = 3 }

register_activates_example :
    (resolve "ops.guide" 3 (some CapabilityKind.knowledge) (guide ∷ next_guide ∷ [])).definition
    ≡ some next_guide
unfolding register active_version
register_activates_example =
    register_activates next_guide (guide ∷ []) (guide ∷ next_guide ∷ []) refl (omega arith)

abbrev changed_texts : TextComparison
changed_texts = record same_texts {
  status = ComparisonStatus.has_difference;
  blocks =
      record {
        kind = BlockKind.deleted;
        a = record {
          start = some 3;
          finish = some 4;
          lines = some ("x" ∷ "y" ∷ []);
          quote = some (join_lines ("x" ∷ "y" ∷ []));
        };
        b = record { start = none; finish = none; lines = none; quote = none };
      }
      ∷ [];
}

valid_comparison_is_bounded_example :
    (length changed_texts.blocks ≤ 50)
    × (quoted_lines (a_sides changed_texts.blocks) ≤ last_line 0 (a_sides changed_texts.blocks))
    × (quoted_lines (b_sides changed_texts.blocks) ≤ last_line 0 (b_sides changed_texts.blocks))
unfolding is_valid_comparison is_valid_side is_full_side is_in_order is_after end_after join_lines
    has_char
valid_comparison_is_bounded_example = valid_comparison_is_bounded changed_texts refl

start_calls-IsTimely_example :
    IsTimely 30000 119000 (new_budget 0) (start_decision 119000 (new_budget 0)).0
    × IsTimely 3000 119000 (new_budget 0) (start_tool_call 119000 (new_budget 0)).0
start_calls-IsTimely_example = start_calls-IsTimely 119000 (new_budget 0)
