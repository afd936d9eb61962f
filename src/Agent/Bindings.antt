-- ===== src/Agent/Bindings.antt =====
-- The tool bindings of capabilities, backend/src/core/capability_tools.py. Writing and reading JSON
-- belongs to libraries, so `dump` and `validate_json` are parameters of the one binding of the source.
use oper_mind.Base.{
  ℕ, ◌==◌, String, str_eq, Bool, ◌&&◌, Option, none, some, List, find, if◌then◌else◌,
}
use oper_mind.Agent.Records.{CapabilityDefinition}
use oper_mind.Agent.Comparison.{TextComparison}

abbrev pub Inputs : Type 0
Inputs = List (String × ℕ)

-- `inputs.get(slot)`
unfoldable pub input_of : String → Inputs → Option ℕ
input_of slot inputs = elim (find (λ (i : String × ℕ). str_eq i.0 slot) inputs) [
  | none ↦ none
  | some i ↦ some i.1
]

-- `build_arguments` raises where it answers `none`.
pub record ToolBinding : Type 0 where
  pub name : String
  pub build_arguments : CapabilityDefinition → Inputs → String → Option String
  pub parse_result : CapabilityDefinition → String → ℕ → Inputs → String → Option TextComparison

-- `ToolBindingRegistry.get`
abbrev pub get_binding : String → List ToolBinding → Option ToolBinding
get_binding name bindings = find (λ b. str_eq b.name name) bindings

-- `rule_version or definition.rule_version`
abbrev pub rule_for : CapabilityDefinition → String → Option String
rule_for d rule_version = if str_eq rule_version "" then d.rule_version else some rule_version

abbrev pub is_number : Option ℕ → ℕ → Bool
is_number none n = Bool.false
is_number (some m) n = m == n

abbrev pub is_text : Option String → String → Bool
is_text none s = Bool.false
is_text (some t) s = str_eq t s

-- The comparison is of this run, this capability, these materials and this rule.
abbrev pub is_own_result : CapabilityDefinition → ℕ → Inputs → String → TextComparison → Bool
is_own_result d run_id inputs rule_version c =
    c.run_id == run_id
    && str_eq c.capability_id d.capability_id
    && c.capability_version == d.version
    && is_number (input_of "text_a" inputs) c.a_material_id
    && is_number (input_of "text_b" inputs) c.b_material_id
    && is_text (rule_for d rule_version) c.rule_version

unfoldable pub parse_comparison :
    Option TextComparison → CapabilityDefinition → ℕ → Inputs → String → Option TextComparison
parse_comparison none d run_id inputs rule_version = none
parse_comparison (some c) d run_id inputs rule_version =
    if is_own_result d run_id inputs rule_version c then some c else none

unfoldable pub arguments_of :
    (ℕ → ℕ → Option String → String) → Option ℕ → Option ℕ → Option String → Option String
arguments_of dump (some a) (some b) rule = some (dump a b rule)
arguments_of dump _ _ rule = none

-- `TextCompareToolBinding`
unfoldable pub text_compare_binding :
    (dump : ℕ → ℕ → Option String → String) (validate_json : String → Option TextComparison)
    → ToolBinding
unfolding parse_comparison arguments_of
text_compare_binding dump validate_json = record {
  name = "text_literal_compare";
  build_arguments = λ d inputs rule_version.
      arguments_of dump (input_of "text_a" inputs) (input_of "text_b" inputs)
        (rule_for d rule_version);
  parse_result = λ d output run_id inputs rule_version.
      parse_comparison (validate_json output) d run_id inputs rule_version;
}
