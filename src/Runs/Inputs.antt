-- ===== src/Runs/Inputs.antt =====
-- The frozen input of a main agent's run: backend/src/domain/main_agent.py, and its making in
-- backend/src/application/run_execution.py. `digest` is SHA-256 of the UTF-8 bytes, in hexadecimal. A
-- text has no lone surrogates, so `_require_scalar_text` passes it.
use Prim.Native.String.{[], ◌∷◌}
use Prim.Native.Char.{code, Char}
use mathlib.Core.Option as Opt
use oper_mind.Base.{
  ℕ, suc, ◌+◌, String, count, Bool, Option, none, some, List, ltb, ◌==◌, str_eq, if◌then◌else◌,
}

-- MAIN_AGENT_RULE_VERSION and the limits of the materials
abbrev pub main_agent_rule_version : String
main_agent_rule_version = "literal-lines@1"

abbrev pub max_material_codepoints : ℕ
max_material_codepoints = 2000

abbrev pub max_material_lines : ℕ
max_material_lines = 100

infixl 5 ◌>>=◌
abbrev ◌>>=◌ {ℓ κ} : {A : Type ℓ} {B : Type κ} → Option A → (A → Option B) → Option B
none >>= next = none
some value >>= next = next value

-- `MainInputV1`
pub record MainInput : Type 0 where
  pub query : String
  pub text_a : Option String
  pub text_b : Option String

-- `MainMaterialSnapshotV1`
pub record Material : Type 0 where
  pub material_id : ℕ
  pub original_text : String
  pub normalized_text : String
  pub content_sha256 : String

-- `MainContextMessageV1`; the role is the assistant's or the user's.
pub record ContextMessage : Type 0 where
  pub message_id : ℕ
  pub is_assistant : Bool
  pub content : String

-- `MainInputSnapshotV1`
pub record InputSnapshot : Type 0 where
  pub query : String
  pub text_a : Option Material
  pub text_b : Option Material
  pub rule_version : String
  pub context : List ContextMessage

-- `.replace("\r\n", "\n")`: a pair of characters is replaced from the left.
unfoldable pub replace_pairs : String → String
replace_pairs [] = []
replace_pairs (c ∷ []) = c ∷ []
replace_pairs (c ∷ d ∷ s) =
    let shorter = replace_pairs s in
    let longer = replace_pairs (d ∷ s) in
    if code c == 13 then (if code d == 10 then d ∷ shorter else c ∷ longer) else c ∷ longer

-- `.replace("\r", "\n")`
unfoldable pub replace_returns : (newline : Char) → String → String
replace_returns newline [] = []
replace_returns newline (c ∷ s) =
    let rest = replace_returns newline s in if code c == 13 then newline ∷ rest else c ∷ rest

unfoldable pub normalize_material_text : String → String
normalize_material_text s = replace_returns "\n" (replace_pairs s)

-- `s.count("\n")`
unfoldable pub count_char : ℕ → String → ℕ
count_char n [] = 0
count_char n (c ∷ s) = let rest = count_char n s in if code c == n then suc rest else rest

-- An empty text has no line; a final newline ends in an empty line.
unfoldable pub material_line_count : String → ℕ
material_line_count s = if count s == 0 then 0 else count_char 10 s + 1

-- None where ValueError is raised.
unfoldable pub validate_material_text : String → Option String
validate_material_text s =
    if ltb max_material_codepoints (count s)
    then none
    else if ltb max_material_lines (material_line_count (normalize_material_text s))
    then none
    else some (normalize_material_text s)

module _ (digest : String → String) where
  -- `_material_snapshot`, under a new identifier: nothing for an absent material.
  unfoldable pub material_snapshot : ℕ → Option String → Option (Option Material)
  material_snapshot new_id none = some none
  material_snapshot new_id (some s) =
      Opt.map
        (λ normalized. some (record {
          material_id = new_id;
          original_text = s;
          normalized_text = normalized;
          content_sha256 = digest normalized;
        }))
        (validate_material_text s)

  -- `build_main_input_snapshot`, with the identifiers of the two materials.
  unfoldable pub build_main_input_snapshot :
      ℕ → ℕ → MainInput → List ContextMessage → Option InputSnapshot
  build_main_input_snapshot a_id b_id value context = do
    text_a ← material_snapshot a_id value.text_a
    text_b ← material_snapshot b_id value.text_b
    some (record {
      query = value.query;
      text_a = text_a;
      text_b = text_b;
      rule_version = main_agent_rule_version;
      context = context;
    })

-- `_copy_material`
abbrev pub copy_material : ℕ → Option Material → Option Material
copy_material new_id none = none
copy_material new_id (some m) = some (record m { material_id = new_id })

-- `rebuild_main_input_snapshot`, none for UnsupportedMainAgentRuleError.
unfoldable pub rebuild_main_input_snapshot : ℕ → ℕ → InputSnapshot → Option InputSnapshot
rebuild_main_input_snapshot a_id b_id s =
    if str_eq s.rule_version main_agent_rule_version
    then some
        (record s { text_a = copy_material a_id s.text_a; text_b = copy_material b_id s.text_b })
    else none
