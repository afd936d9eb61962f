-- ===== src/Agent/Registry.antt =====
-- The capability registry, backend/src/capabilities/registry.py: a dictionary from (id, version) to
-- a declaration, as a list in the order of registration.
use Prim.Native.Nat.{Ordering}
use oper_mind.Base.{
  compare_text, ℕ, max, ◌==◌, ltb, String, str_eq, Bool, not, ◌&&◌, Option, none, some, List, [],
  ◌∷◌, ◌++◌, map, any, find, if◌then◌else◌,
}
use oper_mind.Agent.Records.{
  CapabilityKind, same_kind, CapabilityDefinition, CapabilitySummary, ResolutionKind,
  CapabilityResolution,
}

abbrev pub Registry : Type 0
Registry = List CapabilityDefinition

abbrev pub has_key : String → ℕ → CapabilityDefinition → Bool
has_key id version d = str_eq d.capability_id id && d.version == version

abbrev pub is_capability : String → CapabilityDefinition → Bool
is_capability id d = str_eq d.capability_id id

-- `none` is the ValueError.
unfoldable pub register : CapabilityDefinition → Registry → Option Registry
register d r = if any (has_key d.capability_id d.version) r then none else some (r ++ d ∷ [])

-- `CapabilityRegistry.__init__`
unfoldable pub register_all : List CapabilityDefinition → Registry → Option Registry
register_all [] r = some r
register_all (d ∷ ds) r = elim (register d r) [ none ↦ none | some s ↦ register_all ds s ]

unfoldable pub get : String → ℕ → Registry → Option CapabilityDefinition
get id version r = find (has_key id version) r

abbrev pub later : Option ℕ → ℕ → ℕ
later none v = v
later (some w) v = max w v

-- The highest version of a capability: `sorted(versions)[-1]` and `max(versions)`.
unfoldable pub active_version : String → Registry → Option ℕ
active_version id [] = none
active_version id (d ∷ r) =
    let rest = active_version id r in
    if is_capability id d then some (later rest d.version) else rest

abbrev pub unresolved :
    ResolutionKind → Option CapabilityKind → Option CapabilityKind → CapabilityResolution
unresolved kind expected actual = record {
  kind = kind;
  definition = none;
  expected_kind = expected;
  actual_kind = actual;
}

abbrev pub is_other_kind : Option CapabilityKind → CapabilityKind → Bool
is_other_kind none kind = Bool.false
is_other_kind (some expected) kind = not (same_kind kind expected)

-- The tests of `resolve` after the id is known.
unfoldable pub resolve_version :
    ℕ → Option CapabilityKind → Option CapabilityDefinition → ℕ → CapabilityResolution
resolve_version version expected none active =
    unresolved ResolutionKind.unknown_version expected none
resolve_version version expected (some d) active =
    if not (version == active)
    then unresolved ResolutionKind.inactive_version expected (some d.kind)
    else if is_other_kind expected d.kind
    then unresolved ResolutionKind.kind_mismatch expected (some d.kind)
    else record {
      kind = ResolutionKind.resolved;
      definition = some d;
      expected_kind = none;
      actual_kind = none;
    }

unfoldable pub resolve_known :
    ℕ → Option CapabilityKind → Option CapabilityDefinition → Option ℕ → CapabilityResolution
unfolding resolve_version
resolve_known version expected d none = unresolved ResolutionKind.unknown_id expected none
resolve_known version expected d (some active) = resolve_version version expected d active

unfoldable pub resolve : String → ℕ → Option CapabilityKind → Registry → CapabilityResolution
unfolding resolve_known
resolve id version expected r =
    resolve_known version expected (get id version r) (active_version id r)

abbrev pub summary : CapabilityDefinition → CapabilitySummary
summary d = record {
  capability_id = d.capability_id;
  version = d.version;
  kind = d.kind;
  title = d.title;
  description = d.description;
  usage_guide = d.usage_guide;
  input_slots = d.material_slots;
}

-- One turn of the loop of `catalog`: the dictionary of the active versions, by id.
put_active : CapabilityDefinition → Registry → Registry
put_active d [] = d ∷ []
put_active d (e ∷ active) =
    let rest = put_active d active in
    if is_capability d.capability_id e
    then (if ltb e.version d.version then d else e) ∷ active
    else e ∷ rest

active_of : List CapabilityDefinition → Registry → Registry
active_of [] active = active
active_of (d ∷ r) active = active_of r (put_active d active)

comes_before : CapabilityDefinition → CapabilityDefinition → Bool
comes_before d e = elim (compare_text d.capability_id e.capability_id) [
  | Ordering.lt ↦ Bool.true
  | _ ↦ Bool.false
]

insert_by_id : CapabilityDefinition → Registry → Registry
insert_by_id d [] = d ∷ []
insert_by_id d (e ∷ r) =
    let rest = insert_by_id d r in if comes_before d e then d ∷ e ∷ r else e ∷ rest

-- `sorted(active)`, for the distinct ids of a dictionary
sort_by_id : Registry → Registry
sort_by_id [] = []
sort_by_id (d ∷ r) = insert_by_id d (sort_by_id r)

pub catalog : Registry → Registry
unfolding sort_by_id active_of
catalog r = sort_by_id (active_of r [])

pub summaries : Registry → List CapabilitySummary
summaries r = map summary (catalog r)
