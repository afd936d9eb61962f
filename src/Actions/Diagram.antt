-- ===== src/Actions/Diagram.antt =====
-- The life of one proposal and its execution as a diagram, what their rows agree on, and the writes
-- of backend/src/application/action_services.py that the diagram allows.
use mathlib.Core.Option as Opt
use mathlib.Core.Path.{subst}
use oper_mind.Base.{
  sym, ℕ, ◌+◌, ◌≡◌, ◌⊎◌, inl, inr, Bool, true, false, ◌&&◌, Bool-cases, Option, none, some, arith,
  ◌==◌, is_some, if◌then◌else◌,
}
use oper_mind.Actions.Records.{
  ProposalStatus, ExecutionStatus, Progress, Execution, same_status, same_execution_status,
  approval_validity,
}
use oper_mind.Actions.Store.{ProposalChange, ExecutionChange, advance, set_execution, change_at}
use oper_mind.Actions.View.{moved, run_moved}

-- The edges of the diagram.
abbrev pub is_edge : ProposalStatus → ProposalStatus → Bool
is_edge ProposalStatus.pending_approval ProposalStatus.approved = true
is_edge ProposalStatus.pending_approval ProposalStatus.rejected = true
is_edge ProposalStatus.approved ProposalStatus.expired = true
is_edge ProposalStatus.approved ProposalStatus.executing = true
is_edge ProposalStatus.executing ProposalStatus.verifying = true
is_edge ProposalStatus.executing ProposalStatus.blocked = true
is_edge ProposalStatus.executing ProposalStatus.failed = true
is_edge ProposalStatus.verifying ProposalStatus.verified = true
is_edge ProposalStatus.verifying ProposalStatus.failed = true
is_edge _ _ = false

-- A proposal is born pending, never vanishes, and moves along an edge or stays.
abbrev pub Follows : Option Progress → Option Progress → Type 0
Follows none none = Unit
Follows none (some q) = q.status ≡ ProposalStatus.pending_approval
Follows (some p) none = ⊥
Follows (some p) (some q) = (p ≡ q) ⊎ (is_edge p.status q.status ≡ true)

abbrev pub is_run_edge : ExecutionStatus → ExecutionStatus → Bool
is_run_edge ExecutionStatus.queued ExecutionStatus.running = true
is_run_edge ExecutionStatus.running ExecutionStatus.succeeded = true
is_run_edge ExecutionStatus.running ExecutionStatus.blocked = true
is_run_edge ExecutionStatus.running ExecutionStatus.failed = true
is_run_edge _ _ = false

-- An execution is born queued, keeps its identity, and moves along an edge or stays.
abbrev pub RunFollows : Option Execution → Option Execution → Type 0
RunFollows none none = Unit
RunFollows none (some f) = f.status ≡ ExecutionStatus.queued
RunFollows (some e) none = ⊥
RunFollows (some e) (some f) =
    (f.id ≡ e.id) × ((f.status ≡ e.status) ⊎ (is_run_edge e.status f.status ≡ true))

abbrev pub was_claimed : ProposalStatus → Bool
was_claimed ProposalStatus.executing = true
was_claimed ProposalStatus.verifying = true
was_claimed ProposalStatus.verified = true
was_claimed ProposalStatus.blocked = true
was_claimed ProposalStatus.failed = true
was_claimed _ = false

abbrev pub was_approved : ProposalStatus → Bool
was_approved ProposalStatus.pending_approval = false
was_approved ProposalStatus.rejected = false
was_approved _ = true

-- The approval stamp: absent, or a time with the expiry that belongs to it.
abbrev pub Stamped : Bool → Option ℕ → Option ℕ → Type 0
Stamped true (some a) (some x) = x ≡ a + approval_validity
Stamped false none none = Unit
Stamped _ _ _ = ⊥

-- What the row of a proposal and that of its execution agree on.
abbrev pub Agrees : Option Progress → Option Execution → Type 0
Agrees none e = e ≡ none
Agrees (some p) e =
    (is_some e ≡ was_claimed p.status)
    × Stamped (was_approved p.status) p.approved_at p.expires_at
    × (is_some p.execution_started_at ≡ was_claimed p.status)

&&-true : (a b : Bool) → (a && b) ≡ true → (a ≡ true) × (b ≡ true)
&&-true a b h = ground arith

same_status-eq : (a b : ProposalStatus) → same_status a b ≡ true → a ≡ b
same_status-eq a b h = ground arith

pub record Allowed (p₀ : Option Progress) (e₀ : Option Execution) (p : Option Progress)
    (e : Option Execution) : Type 0 where
  pub follows : Follows p₀ p
  pub runs : RunFollows e₀ e
  pub agrees : Agrees p₀ e₀ → Agrees p e

pub Allowed-refl : (p : Option Progress) (e : Option Execution) → Allowed p e p e
Allowed-refl none none = ground arith
Allowed-refl none (some e) = ground arith
Allowed-refl (some p) none = ground arith
Allowed-refl (some p) (some e) = ground arith

-- A compare-and-set that moves the proposal `i` along an edge, where the row is as the diagram
-- says after the move, is allowed at every proposal `j`.
pub move-Allowed :
    (j i : ℕ) (expected s : ProposalStatus) (c : ProposalChange) (p : Option Progress)
    (e : Option Execution)
    → is_edge expected s ≡ true
    → ((r : Progress) → r.status ≡ expected → Agrees (some r) e → Agrees (some (advance s c r)) e)
    → Allowed p e (Opt.map (moved j i expected s c) p) e
unfolding advance
move-Allowed j i expected s c none e edge k = Allowed-refl none e
move-Allowed j i expected s c (some p) e edge k =
    elim (Bool-cases (j == i && same_status p.status expected)) [
      | inl hit ↦ rw hit (moved_row p (same_status-eq p.status expected ((&&-true _ _ hit).1)))
      | inr miss ↦ rw miss (Allowed-refl (some p) e)
    ]
  where
    moved_row : (p : Progress) → p.status ≡ expected → Allowed (some p) e (some (advance s c p)) e
    moved_row p at = record {
      follows = inr (rw (at, advance) edge);
      runs = (Allowed-refl (some p) e).runs;
      agrees = k p at;
    }

same_run-eq : (a b : ExecutionStatus) → same_execution_status a b ≡ true → a ≡ b
same_run-eq a b h = ground arith

run_moved-Allowed :
    (s : ExecutionStatus) (c : ExecutionChange) (p : Option Progress) (e : Execution)
    → is_run_edge e.status s ≡ true
    → Allowed p (some e) p (some (set_execution s c e))
unfolding set_execution
run_moved-Allowed s c none e edge = ground arith
run_moved-Allowed s c (some p) e edge = ground arith

-- A compare-and-set on an execution moves it along an edge, or leaves it.
pub run-Allowed :
    (x : ℕ) (expected s : ExecutionStatus) (c : ExecutionChange) (p : Option Progress)
    (e : Option Execution)
    → is_run_edge expected s ≡ true
    → Allowed p e p (Opt.map (run_moved x expected s c) e)
run-Allowed x expected s c p none edge = Allowed-refl p none
run-Allowed x expected s c p (some e) edge =
    elim (Bool-cases (e.id == x && same_execution_status e.status expected)) [
      | inl hit ↦ rw hit (
          run_moved-Allowed s c p e (
            subst (λ t. is_run_edge t s ≡ true)
              (sym (same_run-eq e.status expected (&&-true _ _ hit).1)) edge))
      | inr miss ↦ rw miss (Allowed-refl p (some e))
    ]

-- A move of the execution, then one of the proposal.
pub Allowed-run_then_move :
    {p p₁ p' : Option Progress} {e e' : Option Execution}
    → p ≡ p₁
    → Allowed p e p₁ e'
    → Allowed p₁ e' p' e'
    → Allowed p e p' e'
Allowed-run_then_move {p' = p'} same a b = record {
  follows = subst (λ t. Follows t p') (sym same) b.follows;
  runs = a.runs;
  agrees = λ h. b.agrees (a.agrees h);
}

-- The claim: the approved proposal `i` moves and its execution row is added.
pub claim-Allowed :
    (j i now : ℕ) (x : Execution) (p : Option Progress) (e : Option Execution)
    → x.status ≡ ExecutionStatus.queued
    → (i ≡ j → (r : Progress) × (p ≡ some r) × (r.status ≡ ProposalStatus.approved))
    → (i ≡ j → e ≡ none)
    → Allowed p e
        (Opt.map
          (moved j i ProposalStatus.approved ProposalStatus.executing
            (record (change_at now) { execution_started_at = some now }))
          p)
        (if i == j then some x else e)
unfolding advance
claim-Allowed j i now x none none q h k = ground arith
claim-Allowed j i now x none (some e) q h k = ground arith
claim-Allowed j i now x (some p) none q h k = ground arith
claim-Allowed j i now x (some p) (some e) q h k = ground arith

-- The birth of a proposal.
pub birth-Allowed :
    (b : Bool) (r : Progress) (p : Option Progress) (e : Option Execution)
    → r.status ≡ ProposalStatus.pending_approval
    → r.approved_at ≡ none
    → r.expires_at ≡ none
    → r.execution_started_at ≡ none
    → (b ≡ true → p ≡ none)
    → Allowed p e (if b then some r else p) e
birth-Allowed true r p none s a x t h = ground arith
birth-Allowed true r p (some e) s a x t h = ground arith
birth-Allowed false r p e s a x t h = Allowed-refl p e
