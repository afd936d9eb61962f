-- ===== src/Actions/Sound/Run.antt =====
-- Lemmas on the transactions around the executor of
-- backend/src/application/action_services.py, against the diagram.
use oper_mind.Base.{ℕ, ◌≡◌, refl, true, Option, none, some, arith, Option-cases, inl, inr}
use oper_mind.Actions.Records.{
  ProposalStatus, ExecutionStatus, EventType, Progress, Execution, Proposal, same_status,
}
use oper_mind.Actions.Store.{
  proposal_not_found, invalid_state, Db, get_proposal, get_execution_of, ProposalChange,
  ExecutionChange, transition_execution, change_at, advance, transition_proposal,
}
use oper_mind.Actions.Execution.{
  ControlledError, Attempt, Verdict, done_change, claim_running, claim_found, claim_execution,
  record_success, start_verification, finish_verified, finish_verification_failed,
  finish_execution_terminal, finish_blocked, finish_failed,
}
use oper_mind.Actions.View.{
  progress_of-transition, get_execution_of-transition, Post, Post-if, Post-bind, Post-or_raise,
  progress_of, At, append_event-At, add_verification-At, transition_execution-At,
}
use oper_mind.Actions.Diagram.{
  is_edge, is_run_edge, was_claimed, Agrees, move-Allowed, run-Allowed, Allowed-run_then_move,
}
use oper_mind.Actions.Sound.{From, Leaves, unchanged, then-Leaves}

-- The execution has moved at most, the proposal has not.
abbrev Ran : Db → ℕ → Option Progress → Option Execution → Type 0
Ran db j p e = (progress_of j db ≡ p) × From db j p e

verify-Agrees :
    (c : ProposalChange) (expected s : ProposalStatus) (r : Progress) (e : Option Execution)
    → c.approved_at ≡ none
    → c.expires_at ≡ none
    → c.execution_started_at ≡ none
    → was_claimed expected ≡ true
    → was_claimed s ≡ true
    → r.status ≡ expected
    → Agrees (some r) e
    → Agrees (some (advance s c r)) e
unfolding advance
verify-Agrees c expected s r e a x t from to at h = ground arith

module _ (db : Db) (j : ℕ) where
  pub Ran-Leaves :
      (x : ℕ) (expected s : ExecutionStatus) (c : ExecutionChange)
      → is_run_edge expected s ≡ true
      → Post
          (λ (r : Option Execution × Db). At (Ran db j) j r.1)
          (transition_execution x expected s c db)
  Ran-Leaves x expected s c edge =
      transition_execution-At (Ran db j) j x expected s c db
        (refl, run-Allowed x expected s c (progress_of j db) (get_execution_of j db) edge)

  -- A compare-and-set that moves an already claimed proposal, after the execution has moved.
  pub Ran-moved-Leaves :
      (i : ℕ) (expected s : ProposalStatus) (c : ProposalChange) (db₁ : Db)
      → At (Ran db j) j db₁
      → is_edge expected s ≡ true
      → c.approved_at ≡ none
      → c.expires_at ≡ none
      → c.execution_started_at ≡ none
      → was_claimed expected ≡ true
      → was_claimed s ≡ true
      → At (From db j) j (transition_proposal i expected s c db₁).1
  Ran-moved-Leaves i expected s c db₁ (same, ran) edge a x t from to =
      rw (progress_of-transition, get_execution_of-transition)
        (Allowed-run_then_move same ran (
          move-Allowed j i expected s c (progress_of j db₁) (get_execution_of j db₁) edge
            λ r at h. verify-Agrees c expected s r (get_execution_of j db₁) a x t from to at h))

module _ (db : Db) (j : ℕ) where
  started-Leaves :
      (now : ℕ → ℕ) (p : Proposal) (e : Execution) (r : Option Execution × Db)
      → At (From db j) j r.1
      → Post (Leaves db j) (claim_running now p r)
  unfolding claim_running
  started-Leaves now p e (none, db₁) q = q
  started-Leaves now p e (some u, db₁) q =
      then-Leaves db j _ _ (append_event-At (From db j) j p.id _ _ _ db₁ q) λ db₂ q₂. q₂

  claim_found-Leaves :
      (now : ℕ → ℕ) (p : Proposal) (e : Execution) → Post (Leaves db j) (claim_found now p e db)
  unfolding claim_found
  claim_found-Leaves now p e =
      Post-if (Leaves db j) (same_status p.progress.status ProposalStatus.executing) _ _
        (λ _.
          Post-bind (λ (r : Option Execution × Db). At (Ran db j) j r.1) (Leaves db j)
            (transition_execution e.id ExecutionStatus.queued ExecutionStatus.running _ db) _
            (Ran-Leaves db j e.id _ _ _ refl) λ r q. started-Leaves now p e r q.1)
        (unchanged db j)

  pub claim-Leaves : (now : ℕ → ℕ) (i : ℕ) → Post (Leaves db j) (claim_execution now i db)
  unfolding claim_execution
  claim-Leaves now i = elim (Option-cases (get_proposal i db)) [
    | inl absent ↦ rw (absent, claim_execution) (unchanged db j)
    | inr (p, found) ↦ elim (Option-cases (get_execution_of i db)) [
      | inl absent ↦ rw (found, absent, claim_execution) (unchanged db j)
      | inr (e, row) ↦ rw (found, row, claim_execution) (claim_found-Leaves now p e)
    ]
  ]

  pub success-Leaves :
      (now : ℕ → ℕ) (p : Proposal) (e : Execution) (a : Attempt)
      → Post (Leaves db j) (record_success now p e a db)
  unfolding record_success
  success-Leaves now p e a =
      Post-bind (λ (r : Option Execution × Db). At (Ran db j) j r.1) (Leaves db j)
        (transition_execution e.id ExecutionStatus.running ExecutionStatus.succeeded _ db) _
        (Ran-Leaves db j e.id _ _ _ refl)
        λ r q. Post-or_raise (Leaves db j) r.0 invalid_state _ λ u _.
          then-Leaves db j _ _ (append_event-At (From db j) j p.id _ _ _ r.1 q.1) λ db₂ q₂.
            then-Leaves db j _ _ (append_event-At (From db j) j p.id _ _ _ db₂ q₂) λ db₃ q₃. q₃

  pub verification-Leaves : (now : ℕ → ℕ) (i : ℕ) → Post (Leaves db j) (start_verification now i db)
  unfolding start_verification
  verification-Leaves now i =
      Post-or_raise (Leaves db j) (get_proposal i db) proposal_not_found _ λ p found.
        Post-or_raise (Leaves db j)
          (transition_proposal i ProposalStatus.executing ProposalStatus.verifying
            (change_at (now 0)) db).0
          invalid_state _
          λ updated _.
            then-Leaves db j _ _
              (append_event-At (From db j) j i _ _ _ _ (
                Ran-moved-Leaves db j i _ _ _ db (refl, unchanged db j) refl refl refl refl refl
                  refl))
              λ db₂ q₂. q₂

  pub verified-Leaves :
      (now : ℕ → ℕ) (p : Proposal) (e : Execution) (v : Verdict)
      → Post (Leaves db j) (finish_verified now p e v db)
  unfolding finish_verified
  verified-Leaves now p e v =
      Post-bind (At (Ran db j) j) (Leaves db j) _ _
        (add_verification-At (Ran db j) j _ db (refl, unchanged db j))
        λ db₁ q₁.
          Post-or_raise (Leaves db j)
            (transition_proposal p.id ProposalStatus.verifying ProposalStatus.verified
              (done_change (now 0)) db₁).0
            invalid_state _
            λ updated _.
              then-Leaves db j _ _
                (append_event-At (From db j) j p.id _ _ _ _
                  (Ran-moved-Leaves db j p.id _ _ _ db₁ q₁ refl refl refl refl refl refl))
                λ db₃ q₃. q₃

  pub verification_failed-Leaves :
      (now : ℕ → ℕ) (p : Proposal) (e : Execution) (error : ControlledError)
      → Post (Leaves db j) (finish_verification_failed now p e error db)
  unfolding finish_verification_failed
  verification_failed-Leaves now p e error =
      Post-bind (At (Ran db j) j) (Leaves db j) _ _
        (add_verification-At (Ran db j) j _ db (refl, unchanged db j))
        λ db₁ q₁.
          then-Leaves db j _ _
            (append_event-At (From db j) j p.id _ _ _ _
              (Ran-moved-Leaves db j p.id _ _ _ db₁ q₁ refl refl refl refl refl refl))
            λ db₃ q₃. q₃

  terminal-Leaves :
      (now : ℕ → ℕ) (p : Proposal) (e : Execution) (s : ProposalStatus) (t : ExecutionStatus)
      (type : EventType) (error : ControlledError)
      → is_edge ProposalStatus.executing s ≡ true
      → was_claimed s ≡ true
      → is_run_edge ExecutionStatus.running t ≡ true
      → Post (Leaves db j) (finish_execution_terminal now p e s t type error db)
  unfolding finish_execution_terminal
  terminal-Leaves now p e s t type error edge claimed run =
      Post-bind (λ (r : Option Execution × Db). At (Ran db j) j r.1) (Leaves db j)
        (transition_execution e.id ExecutionStatus.running t _ db) _
        (Ran-Leaves db j e.id _ _ _ run)
        λ r q.
          then-Leaves db j _ _
            (append_event-At (From db j) j p.id _ _ _ _
              (Ran-moved-Leaves db j p.id _ _ _ r.1 q edge refl refl refl refl claimed))
            λ db₃ q₃. q₃

  pub blocked-Leaves :
      (now : ℕ → ℕ) (p : Proposal) (e : Execution) (error : ControlledError)
      → Post (Leaves db j) (finish_blocked now p e error db)
  unfolding finish_blocked
  blocked-Leaves now p e error = terminal-Leaves now p e _ _ _ error refl refl refl

  pub failed-Leaves :
      (now : ℕ → ℕ) (p : Proposal) (e : Execution) (error : ControlledError)
      → Post (Leaves db j) (finish_failed now p e error db)
  unfolding finish_failed
  failed-Leaves now p e error = terminal-Leaves now p e _ _ _ error refl refl refl
