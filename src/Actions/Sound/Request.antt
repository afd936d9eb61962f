-- ===== src/Actions/Sound/Request.antt =====
-- Lemmas on `_request_execution_in_transaction` of
-- backend/src/application/action_services.py, against the diagram.
use mathlib.Core.Path.{subst}
use oper_mind.Base.{
  ℕ, ◌≡◌, refl, true, String, Option, none, some, arith, ◌==◌, if◌then◌else◌, not, ◌&&◌, str_eq,
  Option-cases, inl, inr,
}
use oper_mind.Actions.Records.{execution_endpoint, Proposal, ProposalStatus, Progress, same_status}
use oper_mind.Actions.Store.{
  err, key_reused, get_key_by_scope, proposal_not_found, invalid_state, Db, get_proposal,
  get_execution_of, get_execution, advance, transition_proposal,
}
use oper_mind.Actions.Claim.{
  ExecuteCommand, start_change, expiry_change, queued_execution, claim_approved, expire_approved,
  request_new, request_replay, request_in_transaction, is_past,
}
use oper_mind.Actions.View.{
  progress_of-transition, get_execution_of-transition, get_proposal-id, Post, Post-if,
  Post-or_raise, Post-raise_if, progress_of, append_event-At, add_key-At, add_execution-At,
}
use oper_mind.Actions.Diagram.{Agrees, claim-Allowed}
use oper_mind.Actions.Sound.{From, Leaves, unchanged, then-Leaves, moved-Leaves}

approved-eq :
    (s : ProposalStatus)
    → same_status s ProposalStatus.approved ≡ true
    → s ≡ ProposalStatus.approved
approved-eq s h = ground arith

module _ (db : Db) (j : ℕ) where
  expiry-Agrees :
      (now : ℕ) (r : Progress)
      → r.status ≡ ProposalStatus.approved
      → Agrees (some r) (get_execution_of j db)
      → Agrees (some (advance ProposalStatus.expired (expiry_change now) r)) (get_execution_of j db)
  unfolding advance
  expiry-Agrees now r at h = ground arith

  expire-Leaves : (now : ℕ → ℕ) (p : Proposal) → Post (Leaves db j) (expire_approved now p db)
  unfolding expire_approved
  expire-Leaves now p =
      then-Leaves db j _ _
        (append_event-At (From db j) j p.id _ _ _ _
          (moved-Leaves db j p.id _ _ _ refl (expiry-Agrees (now 0))))
        λ db₂ q₂. q₂

  found_progress :
      (i : ℕ) (p : Proposal) → get_proposal i db ≡ some p → progress_of p.id db ≡ some p.progress
  unfolding progress_of
  found_progress i p h = rw (get_proposal-id i db p h, h)

  abbrev started : Proposal → ℕ → Option Proposal × Db
  started p now =
      transition_proposal p.id ProposalStatus.approved ProposalStatus.executing (start_change now)
        db

  claimed :
      (new_id : ℕ) (p : Proposal) (now : ℕ)
      → progress_of p.id db ≡ some p.progress
      → p.progress.status ≡ ProposalStatus.approved
      → get_execution_of p.id (started p now).1 ≡ none
      → From db j (progress_of j (started p now).1) (
          if p.id == j
          then some (queued_execution new_id p now)
          else get_execution_of j (started p now).1)
  claimed new_id p now found at free =
      rw (progress_of-transition, get_execution_of-transition)
        (claim-Allowed j p.id now (queued_execution new_id p now) (progress_of j db)
          (get_execution_of j db) refl
          (λ e. (p.progress, subst (λ k. progress_of k db ≡ some p.progress) e found, at))
          (λ e.
            subst (λ k. get_execution_of k db ≡ none) e (rw get_execution_of-transition at free)))

  claim-Leaves :
      (fingerprint : String) (now : ℕ → ℕ) (new_id : ℕ) (c : ExecuteCommand) (p : Proposal)
      → progress_of p.id db ≡ some p.progress
      → p.progress.status ≡ ProposalStatus.approved
      → Post (Leaves db j) (claim_approved fingerprint now new_id c p db)
  unfolding claim_approved
  claim-Leaves fingerprint now new_id c p found at =
      Post-or_raise (Leaves db j) (started p (now 0)).0 invalid_state _ λ updated _.
        then-Leaves db j _ _
          (add_execution-At (From db j) j (queued_execution new_id p (now 0)) (started p (now 0)).1
            (claimed new_id p (now 0) found at))
          λ db₂ q₂. then-Leaves db j _ _ (add_key-At (From db j) j _ db₂ q₂) λ db₃ q₃.
            then-Leaves db j _ _ (append_event-At (From db j) j p.id _ _ _ db₃ q₃) λ db₄ q₄. q₄

  request_new-Leaves :
      (fingerprint : String) (now : ℕ → ℕ) (new_id : ℕ) (c : ExecuteCommand)
      → Post (Leaves db j) (request_new fingerprint now new_id c db)
  unfolding request_new
  request_new-Leaves fingerprint now new_id c =
      Post-or_raise (Leaves db j) (get_proposal c.proposal_id db) proposal_not_found _ λ p found.
        Post-if (Leaves db j)
          (same_status p.progress.status ProposalStatus.approved
            && is_past p.progress.expires_at (now 0))
          (expire_approved now p db) _ (λ _. expire-Leaves now p)
          (Post-if (Leaves db j) (same_status p.progress.status ProposalStatus.approved)
            (claim_approved fingerprint now new_id c p db) (err invalid_state)
            (λ at.
              claim-Leaves fingerprint now new_id c p (found_progress c.proposal_id p found)
                (approved-eq p.progress.status at))
            tt)

  request_replay-Leaves :
      (resource : ℕ) (stored fingerprint : String)
      → Post (Leaves db j) (request_replay resource stored fingerprint db)
  unfolding request_replay
  request_replay-Leaves resource stored fingerprint =
      Post-raise_if (Leaves db j) (not (str_eq stored fingerprint)) key_reused _ λ _.
        Post-or_raise (Leaves db j) (get_execution resource db) invalid_state _
          λ e _. unchanged db j

  pub request-Leaves :
      (fingerprint : String) (now : ℕ → ℕ) (new_id : ℕ) (c : ExecuteCommand)
      → Post (Leaves db j) (request_in_transaction fingerprint now new_id c db)
  unfolding request_in_transaction
  request-Leaves fingerprint now new_id c =
      elim (Option-cases (get_key_by_scope c.proposal_id execution_endpoint c.idempotency_key db)) [
        | inl fresh ↦
            rw (fresh, request_in_transaction) (request_new-Leaves fingerprint now new_id c)
        | inr (k, found) ↦
            rw (found, request_in_transaction)
              (request_replay-Leaves k.resource_id k.request_fingerprint fingerprint)
      ]
