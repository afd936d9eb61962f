-- ===== src/Agent/Lookup.antt =====
-- What the registry of backend/src/capabilities/registry.py resolves.
use oper_mind.Base.{
  ℕ, max, ◌==◌, ==_iff, ltb, ◌≤◌, ◌≡◌, refl, sym, ap, ◌∙◌, String, str_eq, eq_iff, Bool, true,
  false, ◌&&◌, ◌||◌, Option, none, some, inl, inr, List, [], ◌∷◌, ◌++◌, any, find, find-append,
  find-none_of_any, Bool-cases, arith,
}
use mathlib.Core.Path.{subst}
use mathlib.Core.Option.{some-injective}
use oper_mind.Agent.Records.{CapabilityKind, CapabilityDefinition}
use oper_mind.Agent.Registry.{
  Registry, has_key, is_capability, register, get, later, active_version, is_other_kind,
  resolve_version, resolve_known, resolve,
}

find-hit {ℓ} :
    {A : Type ℓ} (p : A → Bool) (l : List A) (y : A) → p y ≡ true → find p (y ∷ l) ≡ some y
unfolding find
find-hit p l y h = rw (h, find) refl

find-miss {ℓ} :
    {A : Type ℓ} (p : A → Bool) (l : List A) (y : A) → p y ≡ false → find p (y ∷ l) ≡ find p l
unfolding find
find-miss p l y h = rw (h, find) refl

find-holds {ℓ} : {A : Type ℓ} (p : A → Bool) (l : List A) (x : A) → find p l ≡ some x → p x ≡ true
unfolding find
find-holds p [] x h = cc
find-holds p (y ∷ l) x h = elim (Bool-cases (p y)) [
  | inl hit ↦ ap p (some-injective _ _ (sym h ∙ find-hit p l y hit)) ∙ hit
  | inr miss ↦ find-holds p l x (sym (find-miss p l y miss) ∙ h)
]

-- A later version of the capability.
abbrev pub is_later : String → ℕ → CapabilityDefinition → Bool
is_later id v x = is_capability id x && ltb v x.version

abbrev IsBelow : Option ℕ → ℕ → Type 0
IsBelow none v = Unit
IsBelow (some w) v = w ≤ v

IsBelow-rest : (o : Option ℕ) (w v : ℕ) → later o w ≤ v → IsBelow o v × (w ≤ v)
IsBelow-rest none w v h = (tt, h)
IsBelow-rest (some u) w v h = (omega (arith, h), omega (arith, h))

active_version-own :
    (id : String) (d : CapabilityDefinition) (r : Registry)
    → is_capability id d ≡ true
    → active_version id (d ∷ r) ≡ some (later (active_version id r) d.version)
unfolding active_version
active_version-own id d r h = rw (h, active_version) refl

active_version-other :
    (id : String) (d : CapabilityDefinition) (r : Registry)
    → is_capability id d ≡ false
    → active_version id (d ∷ r) ≡ active_version id r
unfolding active_version
active_version-other id d r h = rw (h, active_version) refl

none_later :
    (id : String) (r : Registry) (v : ℕ)
    → IsBelow (active_version id r) v
    → any (is_later id v) r ≡ false
none_later id [] v h = refl
none_later id (d ∷ r) v h = elim (Bool-cases (is_capability id d)) [
  | inl own ↦
      let (below, least) =
        IsBelow-rest (active_version id r) d.version v (rw (active_version-own id d r own) at h) in
      step (is_capability id d) (none_later id r v below) (early d.version v least)
  | inr other ↦ rw other (none_later id r v (rw (active_version-other id d r other) at h))
]
  where
    early : (w v : ℕ) → w ≤ v → ltb v w ≡ false
    early w v h = ground arith

    step : (b : Bool) {c e : Bool} → e ≡ false → c ≡ false → ((b && c) || e) ≡ false
    step b he hc = ground arith

resolved_version :
    (v : ℕ) (e : Option CapabilityKind) (o : Option CapabilityDefinition) (w : ℕ)
    (d : CapabilityDefinition)
    → (resolve_version v e o w).definition ≡ some d
    → (o ≡ some d) × (v ≡ w) × (is_other_kind e d.kind ≡ false)
unfolding resolve_version
resolved_version v e none w d h = cc
resolved_version v e (some c) w d h = elim (Bool-cases (v == w)) [
  | inr inactive ↦ cc (rw (inactive, resolve_version) at h)
  | inl active ↦ elim (Bool-cases (is_other_kind e c.kind)) [
    | inl other ↦ cc (rw (active, other, resolve_version) at h)
    | inr same ↦
        let at = some-injective _ _ (rw (active, same, resolve_version) at h) in
        (
          ap some at,
          (==_iff v w).0 active,
          ap (λ (x : CapabilityDefinition). is_other_kind e x.kind) (sym at) ∙ same,
        )
  ]
]

resolved_known :
    (v : ℕ) (e : Option CapabilityKind) (o : Option CapabilityDefinition) (a : Option ℕ)
    (d : CapabilityDefinition)
    → (resolve_known v e o a).definition ≡ some d
    → (o ≡ some d) × (a ≡ some v) × (is_other_kind e d.kind ≡ false)
unfolding resolve_known
resolved_known v e o none d h = cc
resolved_known v e o (some w) d h =
    let (found, at, same) = resolved_version v e o w d h in (found, ap some (sym at), same)

-- What the registry resolves for an id, a version and an expected kind is a registered declaration
-- of that id, version and kind, and no later version of the id is registered.
pub resolve_finds_active :
    (id : String) (v : ℕ) (e : Option CapabilityKind) (r : Registry) (d : CapabilityDefinition)
    → (resolve id v e r).definition ≡ some d
    → (get id v r ≡ some d)
      × (d.capability_id ≡ id)
      × (d.version ≡ v)
      × (is_other_kind e d.kind ≡ false)
      × (any (is_later id v) r ≡ false)
unfolding resolve get
resolve_finds_active id v e r d h =
    let (found, active, same) = resolved_known v e (get id v r) (active_version id r) d h in
    let key = find-holds (has_key id v) r d found in
    (
      found,
      (eq_iff d.capability_id id).0 (first_of _ _ key),
      (==_iff d.version v).0 (second_of _ _ key),
      same,
      none_later id r v (at_top (active_version id r) active),
    )
  where
    first_of : (a b : Bool) → (a && b) ≡ true → a ≡ true
    first_of a b h = ground arith

    second_of : (a b : Bool) → (a && b) ≡ true → b ≡ true
    second_of a b h = ground arith

    at_top : (o : Option ℕ) → o ≡ some v → IsBelow o v
    at_top none h = tt
    at_top (some w) h = omega (arith, some-injective w v h)

active_version-append :
    (id : String) (r : Registry) (d : CapabilityDefinition)
    → is_capability id d ≡ true
    → active_version id (r ++ d ∷ []) ≡ some (later (active_version id r) d.version)
unfolding active_version
active_version-append id [] d h = active_version-own id d [] h
active_version-append id (c ∷ r) d h = elim (Bool-cases (is_capability id c)) [
  | inl own ↦
      active_version-own id c (r ++ d ∷ []) own
      ∙ rw (active_version-append id r d h, active_version-own id c r own)
          (ap some (swap (active_version id r) c.version d.version))
  | inr other ↦
      active_version-other id c (r ++ d ∷ []) other
      ∙ active_version-append id r d h
      ∙ ap (λ o. some (later o d.version)) (sym (active_version-other id c r other))
]
  where
    swap : (o : Option ℕ) (a b : ℕ) → max (later o b) a ≡ max (later o a) b
    swap none a b = omega arith
    swap (some n) a b = omega arith

own_key : (d : CapabilityDefinition) → has_key d.capability_id d.version d ≡ true
own_key d =
    both (str_eq d.capability_id d.capability_id) (d.version == d.version)
      ((eq_iff d.capability_id d.capability_id).1 refl) ((==_iff d.version d.version).1 refl)
  where
    both : (a b : Bool) → a ≡ true → b ≡ true → (a && b) ≡ true
    both a b h k = ground arith

get-append :
    (d : CapabilityDefinition) (r : Registry)
    → any (has_key d.capability_id d.version) r ≡ false
    → get d.capability_id d.version (r ++ d ∷ []) ≡ some d
unfolding get
get-append d r fresh =
    find-append (has_key d.capability_id d.version) r d
    ∙ rw (find-none_of_any (has_key d.capability_id d.version) r fresh, own_key d) refl

own_kind : (kind : CapabilityKind) → is_other_kind (some kind) kind ≡ false
own_kind CapabilityKind.knowledge = refl
own_kind CapabilityKind.execution = refl

active_resolves :
    (d : CapabilityDefinition) (o : Option CapabilityDefinition) (a : Option ℕ)
    → o ≡ some d
    → a ≡ some d.version
    → (resolve_known d.version (some d.kind) o a).definition ≡ some d
unfolding resolve_known resolve_version
active_resolves d o a found active =
    ap (λ x. (resolve_known d.version (some d.kind) x a).definition) found
    ∙ ap (λ x. (resolve_known d.version (some d.kind) (some d) x).definition) active
    ∙ rw ((==_iff d.version d.version).1 refl, own_kind d.kind, resolve_version) refl

-- In the registry that a registration leaves, a version above every version of its id so far is
-- resolved, as itself and under its own kind.
pub register_activates :
    (d : CapabilityDefinition) (r s : Registry)
    → register d r ≡ some s
    → IsBelow (active_version d.capability_id r) d.version
    → (resolve d.capability_id d.version (some d.kind) s).definition ≡ some d
unfolding register resolve
register_activates d r s h below = elim (Bool-cases (any (has_key d.capability_id d.version) r)) [
  | inl taken ↦ cc (rw taken at h)
  | inr fresh ↦
      subst
        (λ (t : Registry).
          (resolve_known d.version (some d.kind) (get d.capability_id d.version t)
            (active_version d.capability_id t)).definition
          ≡ some d)
        (some-injective _ _ (rw fresh at h))
        (active_resolves d (get d.capability_id d.version (r ++ d ∷ []))
          (active_version d.capability_id (r ++ d ∷ [])) (get-append d r fresh)
          (active_version-append d.capability_id r d
              ((eq_iff d.capability_id d.capability_id).1 refl)
            ∙ ap some (top (active_version d.capability_id r) below)))
]
  where
    top : (o : Option ℕ) → IsBelow o d.version → later o d.version ≡ d.version
    top none h = refl
    top (some w) h = omega (arith, h)
