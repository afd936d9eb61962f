-- ===== src/Actions/Sound/Decide.antt =====
-- Lemmas on `maybe_create_proposal_in_transaction` and `_decide_in_transaction` of
-- backend/src/application/action_services.py, against the diagram.
use mathlib.Core.Path.{subst}
use oper_mind.Base.{
  ℕ, ◌≡◌, refl, true, String, Option, none, some, arith, ◌==◌, not, ==_iff, str_eq, Option-cases,
  inl, inr,
}
use oper_mind.Actions.Records.{
  approval_endpoint, ProposalStatus, Decision, approve, reject, Progress, same_status, Snapshot,
}
use oper_mind.Actions.Store.{
  key_reused, get_key_by_scope, proposal_not_found, invalid_state, Db, get_proposal,
  get_execution_of, advance, transition_proposal,
}
use oper_mind.Actions.Events.{create_proposal, new_proposal}
use oper_mind.Actions.Approval.{
  DecideCommand, decided_status, decision_change, decide_new, decide_replay, decide_in_transaction,
}
use oper_mind.Actions.View.{
  Post, Post-or_raise, Post-raise_if, progress_of, append_event-At, add_approval-At, add_key-At,
  add_proposal-At,
}
use oper_mind.Actions.Diagram.{is_edge, Agrees, birth-Allowed}
use oper_mind.Actions.Sound.{From, Leaves, unchanged, then-Leaves, moved-Leaves}

module _ (db : Db) (j : ℕ) where
  pub create-Leaves :
      (now : ℕ → ℕ) (new_id : ℕ) (s : Option Snapshot)
      → Post (Leaves db j) (create_proposal now new_id s db)
  unfolding create_proposal
  create-Leaves now new_id none = unchanged db j
  create-Leaves now new_id (some s) =
      then-Leaves db j _ _
        (add_proposal-At (From db j) j (new_proposal new_id s (now 0)) db λ fresh.
          birth-Allowed (new_id == j) _ (progress_of j db) (get_execution_of j db) refl refl refl
            refl (λ hit. subst (λ k. progress_of k db ≡ none) ((==_iff new_id j).0 hit) fresh))
        λ db₁ q.
          then-Leaves db j _ _ (append_event-At (From db j) j new_id _ _ _ db₁ q) λ db₂ q'. q'

  decision-Agrees :
      (d : Decision) (now : ℕ) (r : Progress)
      → r.status ≡ ProposalStatus.pending_approval
      → Agrees (some r) (get_execution_of j db)
      → Agrees (some (advance (decided_status d) (decision_change d now) r)) (get_execution_of j db)
  unfolding advance
  decision-Agrees approve now r at h = ground arith
  decision-Agrees reject now r at h = ground arith

  decided-edge : (d : Decision) → is_edge ProposalStatus.pending_approval (decided_status d) ≡ true
  decided-edge approve = refl
  decided-edge reject = refl

  decide_new-Leaves :
      (fingerprint : String) (now : ℕ → ℕ) (new_id : ℕ) (c : DecideCommand)
      → Post (Leaves db j) (decide_new fingerprint now new_id c db)
  unfolding decide_new
  decide_new-Leaves fingerprint now new_id c =
      Post-or_raise (Leaves db j) (get_proposal c.proposal_id db) proposal_not_found _ λ p found.
        Post-raise_if (Leaves db j)
          (not (same_status p.progress.status ProposalStatus.pending_approval)) invalid_state _
          λ _.
            Post-or_raise (Leaves db j)
              (transition_proposal p.id ProposalStatus.pending_approval (decided_status c.decision)
                (decision_change c.decision (now 0)) db).0
              invalid_state _
              λ updated _.
                then-Leaves db j _ _
                  (add_approval-At (From db j) j _ _ (
                    moved-Leaves db j p.id _ _ _ (decided-edge c.decision)
                      (decision-Agrees c.decision (now 0))))
                  λ db₂ q₂. then-Leaves db j _ _ (add_key-At (From db j) j _ db₂ q₂) λ db₃ q₃.
                    then-Leaves db j _ _ (append_event-At (From db j) j p.id _ _ _ db₃ q₃)
                      λ db₄ q₄. q₄

  decide_replay-Leaves :
      (stored fingerprint : String) (c : DecideCommand)
      → Post (Leaves db j) (decide_replay stored fingerprint c db)
  unfolding decide_replay
  decide_replay-Leaves stored fingerprint c =
      Post-raise_if (Leaves db j) (not (str_eq stored fingerprint)) key_reused _ λ _.
        Post-or_raise (Leaves db j) (get_proposal c.proposal_id db) proposal_not_found _
          λ p _. unchanged db j

  pub decide-Leaves :
      (fingerprint : String) (now : ℕ → ℕ) (new_id : ℕ) (c : DecideCommand)
      → Post (Leaves db j) (decide_in_transaction fingerprint now new_id c db)
  unfolding decide_in_transaction
  decide-Leaves fingerprint now new_id c =
      elim (Option-cases (get_key_by_scope c.proposal_id approval_endpoint c.idempotency_key db)) [
        | inl fresh ↦ rw (fresh, decide_in_transaction) (decide_new-Leaves fingerprint now new_id c)
        | inr (k, found) ↦
            rw (found, decide_in_transaction)
              (decide_replay-Leaves k.request_fingerprint fingerprint c)
      ]
