-- ===== src/Actions/Sound.antt =====
-- What a transaction of backend/src/application/action_services.py may leave behind. The
-- children are about one transaction each.
pub mod Decide
pub mod Request
pub mod Run
use mathlib.Core.Option as Opt
use mathlib.Core.Path.{subst}
use oper_mind.Base.{
  ℕ, ◌+◌, ◌≡◌, refl, Bool, true, false, String, Option, none, some, arith, ◌==◌, if◌then◌else◌, not,
  ==_iff, str_eq, Option-cases, inl, inr,
}
use oper_mind.Actions.Records.{
  approval_endpoint, ProposalStatus, Decision, approve, reject, ExecutionStatus, Progress,
  Execution, same_status, approval_validity, Snapshot,
}
use oper_mind.Actions.Store.{
  Result, ok, err, ◌>>=◌, key_reused, get_key_by_scope, proposal_not_found, invalid_state, Db,
  get_proposal, get_execution_of, ProposalChange, change_at, advance, transition_proposal,
}
use oper_mind.Actions.Events.{create_proposal, new_proposal}
use oper_mind.Actions.Approval.{
  DecideCommand, decided_status, decision_change, decide_new, decide_replay, decide_in_transaction,
}
use oper_mind.Actions.View.{
  get_proposal-id, Post, Post-if, Post-bind, Post-or_raise, Post-raise_if, progress_of, At,
  append_event-At, add_approval-At, add_key-At, add_verification-At, transition_proposal-At,
  transition_execution-At, add_execution-At, add_proposal-At,
}
use oper_mind.Actions.Diagram.{
  is_edge, Agrees, Allowed, Allowed-refl, move-Allowed, run-Allowed, Allowed-run_then_move,
  claim-Allowed, birth-Allowed,
}

-- What a transaction on `db` may leave for the proposal `j`.
abbrev pub From : Db → ℕ → Option Progress → Option Execution → Type 0
From db j = Allowed (progress_of j db) (get_execution_of j db)

abbrev pub Leaves {ℓ} : {A : Type ℓ} → Db → ℕ → A × Db → Type 0
Leaves db j r = At (From db j) j r.1

pub unchanged : (db : Db) (j : ℕ) → At (From db j) j db
unchanged db j = Allowed-refl (progress_of j db) (get_execution_of j db)

-- A write that keeps the view, and the rest of the transaction.
pub then-Leaves {ℓ} :
    {A : Type ℓ} (db : Db) (j : ℕ) (m : Result Db) (f : Db → Result (A × Db))
    → Post (At (From db j) j) m
    → ((db₁ : Db) → At (From db j) j db₁ → Post (Leaves db j) (f db₁))
    → Post (Leaves db j) (m >>= f)
then-Leaves db j m f = Post-bind (At (From db j) j) (Leaves db j) m f

module _ (db : Db) (j : ℕ) where
  -- The end of a transaction that moves a proposal by compare-and-set: `transition_proposal-At`
  -- for a move along an edge.
  pub moved-Leaves :
      (i : ℕ) (expected s : ProposalStatus) (c : ProposalChange)
      → is_edge expected s ≡ true
      → ((r : Progress)
          → r.status ≡ expected
          → Agrees (some r) (get_execution_of j db)
          → Agrees (some (advance s c r)) (get_execution_of j db))
      → At (From db j) j (transition_proposal i expected s c db).1
  moved-Leaves i expected s c edge k =
      transition_proposal-At (From db j) j i expected s c db
        (move-Allowed j i expected s c (progress_of j db) (get_execution_of j db) edge k)
