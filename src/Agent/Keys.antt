-- ===== src/Agent/Keys.antt =====
-- When the constructor of a knowledge grounding (backend/src/domain/main_agent.py) accepts a loaded
-- skill, and what the checks of backend/src/capabilities/contract.py and the skill source of
-- backend/src/capabilities/skill_source.py say about it.
use oper_mind.Base.{
  ℕ, ◌≡◌, refl, sym, ◌∙◌, true, false, ◌&&◌, Bool, Option, none, some, List, [], ◌∷◌, All,
  found-All, String, arith, Bool-cases, inl, inr,
}
use mathlib.Core.Option.{some-injective}
use oper_mind.Agent.Records.{
  CapabilityKind, CapabilityDefinition, SkillDeclaration, SkillLoad, ManagedSkill, LoadedSkill,
  KnowledgeGrounding,
}
use oper_mind.Agent.Registry.{Registry, has_key, get, resolve}
use oper_mind.Agent.Kernel.{
  MainReactKernel, Round, is_grounding_key, grounding_from, new_grounding, grounding_of,
  grounding_for,
}
use oper_mind.Agent.Rules.{LoadedFrom}
use oper_mind.Agent.Lookup.{resolve_finds_active}

abbrev pub is_valid_load : LoadedSkill → Bool
is_valid_load l =
    is_grounding_key l.capability_id l.capability_version
    && is_grounding_key l.skill.skill_id l.skill.skill_version

pub accepted :
    (l : LoadedSkill)
    → is_valid_load l ≡ true
    → grounding_of (some l) ≡ some (some (grounding_from l))
unfolding grounding_of new_grounding
accepted l good = rw (good, grounding_of, new_grounding) refl

pub refused : (l : LoadedSkill) → is_valid_load l ≡ false → grounding_of (some l) ≡ none
unfolding grounding_of new_grounding
refused l bad = rw (bad, grounding_of, new_grounding) refl

-- A grounding that was constructed copies the loaded skill.
pub copied :
    (l : LoadedSkill) (g : Option KnowledgeGrounding)
    → grounding_of (some l) ≡ some g
    → some (grounding_from l) ≡ g
copied l g at = elim (Bool-cases (is_valid_load l)) [
  | inl good ↦ some-injective _ _ (sym (accepted l good) ∙ at)
  | inr bad ↦ absurd (cc (sym (refused l bad) ∙ at))
]

abbrev pub IsValidLoad : LoadedSkill → Type 0
IsValidLoad l = is_valid_load l ≡ true

pub valid_grounding :
    (l : List LoadedSkill)
    → All IsValidLoad l
    → (g : Option KnowledgeGrounding) × (grounding_for l ≡ some g)
unfolding grounding_for grounding_of
valid_grounding [] h = (none, refl)
valid_grounding (x ∷ []) h = (_, accepted x h.0)
valid_grounding (x ∷ y ∷ l) h = valid_grounding (y ∷ l) h.1

abbrev pub is_declared_key : Option SkillDeclaration → Bool
is_declared_key none = true
is_declared_key (some s) = is_grounding_key s.skill_id s.skill_version

-- The declaration's identifiers and versions are ones that a grounding may carry.
abbrev pub is_groundable : CapabilityDefinition → Bool
is_groundable d = is_grounding_key d.capability_id d.version && is_declared_key d.skill

abbrev pub IsGroundable : CapabilityDefinition → Type 0
IsGroundable d = is_groundable d ≡ true

resolved-IsGroundable :
    (id : String) (version : ℕ) (kind : Option CapabilityKind) (r : Registry)
    (d : CapabilityDefinition)
    → All IsGroundable r
    → (resolve id version kind r).definition ≡ some d
    → IsGroundable d
unfolding get
resolved-IsGroundable id version kind r d all found =
    found-All IsGroundable d (has_key id version) r all
      (resolve_finds_active id version kind r d found).0

both_parts : (a b : Bool) → (a && b) ≡ true → (a ≡ true) × (b ≡ true)
both_parts a b h = (ground arith, ground arith)

module _ (k : MainReactKernel) (w : Round) (groundable : All IsGroundable k.capabilities)
    (reads : (s : SkillDeclaration) (skill : ManagedSkill)
      → w.load s ≡ SkillLoad.read skill
      → (skill.skill_id ≡ s.skill_id) × (skill.skill_version ≡ s.skill_version)) where
  -- So is what a load takes in.
  pub loaded-IsValidLoad :
      (d : CapabilityDefinition) (skill : ManagedSkill)
      → LoadedFrom k w d skill
      → (is_grounding_key d.capability_id d.version
          && is_grounding_key skill.skill_id skill.skill_version)
        ≡ true
  loaded-IsValidLoad d skill (id, version, s, found, declared, read) =
      let good =
        resolved-IsGroundable id version (some CapabilityKind.knowledge) k.capabilities d groundable
          found in
      let (own, its) =
        both_parts (is_grounding_key d.capability_id d.version) (is_declared_key d.skill) good in
      let (same_id, same_version) = reads s skill read in
      rw (own, same_id, same_version) (rw declared at its)
