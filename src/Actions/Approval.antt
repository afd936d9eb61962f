-- ===== src/Actions/Approval.antt =====
-- `decide` of backend/src/application/action_services.py: one approval or rejection, replayed for the
-- same idempotency key. `fingerprint` is the SHA-256 text of the command's payload.
use oper_mind.Base.{ℕ, ◌+◌, String, Option, none, some, if◌then◌else◌, not, str_eq}
use oper_mind.Actions.Records.{
  ProposalStatus, Decision, approve, reject, EventType, ResourceType, approval_endpoint,
  same_status, status_value, local_operator, approval_validity, idempotency_retention, Detail,
}
use oper_mind.Actions.Store.{
  proposal_not_found, invalid_state, key_reused, integrity, Result, ok, err, ◌>>=◌, ◌>>◌, raise_if,
  or_raise, Db, get_proposal, change_at, ProposalChange, transition_proposal, add_approval, add_key,
  get_key_by_scope,
}
use oper_mind.Actions.Events.{append_event, status_event_data, detail, in_transaction}

pub record DecideCommand : Type 0 where
  pub proposal_id : ℕ
  pub decision : Decision
  pub comment : Option String
  pub idempotency_key : ℕ

abbrev pub decided_status : Decision → ProposalStatus
decided_status approve = ProposalStatus.approved
decided_status reject = ProposalStatus.rejected

-- The keyword arguments of the transition: `approved_at` and `expires_at`, or `completed_at`.
abbrev pub decision_change : Decision → ℕ → ProposalChange
decision_change d now =
    let is_approved = same_status (decided_status d) ProposalStatus.approved in
    record (change_at now) {
      approved_at = if is_approved then some now else none;
      expires_at = if is_approved then some (now + approval_validity) else none;
      completed_at = if is_approved then none else some now;
    }

pub decision_summary : Decision → String
decision_summary approve = "本地操作者已批准固定修复。"
decision_summary reject = "本地操作者已拒绝固定修复。"

unfoldable pub decide_new : String → (ℕ → ℕ) → ℕ → DecideCommand → Db → Result (Detail × Db)
unfolding decision_summary detail
decide_new fingerprint now new_id c db = do
  p ← or_raise (get_proposal c.proposal_id db) proposal_not_found
  raise_if (not (same_status p.progress.status ProposalStatus.pending_approval)) invalid_state
  let (changed, db₁) =
      transition_proposal p.id ProposalStatus.pending_approval (decided_status c.decision)
        (decision_change c.decision (now 0)) db
  updated ← or_raise changed invalid_state
  db₂ ←
      add_approval
        (record {
          id = new_id;
          proposal_id = p.id;
          decision = c.decision;
          actor = local_operator;
          comment = c.comment;
          action_digest = p.snapshot.action_digest;
          created_at = now 0;
        })
        db₁
  db₃ ←
      add_key
        (record {
          proposal_id = p.id;
          endpoint = approval_endpoint;
          idempotency_key = c.idempotency_key;
          request_fingerprint = fingerprint;
          resource_type = ResourceType.approval;
          resource_id = new_id;
          expires_at = now 0 + idempotency_retention;
          created_at = now 0;
        })
        db₂
  db₄ ←
      append_event p.id EventType.approval_recorded
        (status_event_data (status_value updated.progress.status) (decision_summary c.decision))
        (now 1) db₃
  ok (detail updated db₄, db₄)

-- `_load_decision_replay` and the first branch of `_decide_in_transaction`
unfoldable pub decide_replay : String → String → DecideCommand → Db → Result (Detail × Db)
unfolding detail
decide_replay stored fingerprint c db = do
  raise_if (not (str_eq stored fingerprint)) key_reused
  p ← or_raise (get_proposal c.proposal_id db) proposal_not_found
  ok (detail p db, db)

-- `_decide_in_transaction`
unfoldable pub decide_in_transaction :
    String → (ℕ → ℕ) → ℕ → DecideCommand → Db → Result (Detail × Db)
unfolding decide_new decide_replay
decide_in_transaction fingerprint now new_id c db =
    elim (get_key_by_scope c.proposal_id approval_endpoint c.idempotency_key db) [
      | some k ↦ decide_replay k.request_fingerprint fingerprint c db
      | none ↦ decide_new fingerprint now new_id c db
    ]

-- `_load_decision_replay`, and `except IntegrityError` of `decide`: a read of its own after the
-- rollback; the error is raised again where the key is not there.
recover_decision : String → DecideCommand → Result Detail × Db → Result Detail × Db
unfolding decide_replay in_transaction
recover_decision fingerprint c (err integrity, db) =
    elim (get_key_by_scope c.proposal_id approval_endpoint c.idempotency_key db) [
      | none ↦ (err integrity, db)
      | some k ↦ in_transaction (decide_replay k.request_fingerprint fingerprint c) db
    ]
recover_decision fingerprint c r = r

-- `ActionApplicationService.decide`
unfoldable pub decide : String → (ℕ → ℕ) → ℕ → DecideCommand → Db → Result Detail × Db
unfolding recover_decision
decide fingerprint now new_id c db =
    recover_decision fingerprint c
      (in_transaction (decide_in_transaction fingerprint now new_id c) db)
