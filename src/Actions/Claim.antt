-- ===== src/Actions/Claim.antt =====
-- `request_execution` of backend/src/application/action_services.py: an approved proposal is claimed
-- for execution, or expires. `fingerprint` is the SHA-256 text of the (empty) payload.
use oper_mind.Base.{
  ℕ, ◌+◌, String, Bool, true, false, ◌&&◌, Option, none, some, leb, if◌then◌else◌, not, str_eq,
}
use oper_mind.Actions.Records.{
  ProposalStatus, EventType, ResourceType, execution_endpoint, ExecutionStatus, same_status,
  status_value, idempotency_retention, Proposal, Execution,
}
use oper_mind.Actions.Store.{
  proposal_not_found, invalid_state, proposal_expired, key_reused, integrity, Result, ok, err,
  ◌>>=◌, ◌>>◌, raise_if, or_raise, Db, get_proposal, change_at, ProposalChange, transition_proposal,
  add_execution, get_execution, add_key, get_key_by_scope,
}
use oper_mind.Actions.Events.{append_event, event_data, status_event_data, in_transaction}

pub record ExecuteCommand : Type 0 where
  pub proposal_id : ℕ
  pub idempotency_key : ℕ

pub record AcceptedExecution : Type 0 where
  pub execution : Execution
  pub replayed : Bool

abbrev pub start_change : ℕ → ProposalChange
start_change now = record (change_at now) { execution_started_at = some now }

abbrev pub expiry_change : ℕ → ProposalChange
expiry_change now = record (change_at now) {
  completed_at = some now;
  failure_code = some "APPROVAL_EXPIRED";
  failure_message = some "批准已过期，请重新调查后生成新提案。";
}

abbrev pub queued_execution : ℕ → Proposal → ℕ → Execution
queued_execution new_id p now = record {
  id = new_id;
  proposal_id = p.id;
  mode = p.snapshot.mode;
  status = ExecutionStatus.queued;
  precondition_summary = none;
  action_summary = none;
  failure_code = none;
  failure_message = none;
  created_at = now;
  started_at = none;
  finished_at = none;
}

-- The claim of an approved proposal that has not expired.
unfoldable pub claim_approved :
    String → (ℕ → ℕ) → ℕ → ExecuteCommand → Proposal → Db → Result (Option AcceptedExecution × Db)
claim_approved fingerprint now new_id c p db = do
  let (changed, db₁) =
      transition_proposal p.id ProposalStatus.approved ProposalStatus.executing
        (start_change (now 0)) db
  updated ← or_raise changed invalid_state
  let execution = queued_execution new_id p (now 0)
  db₂ ← add_execution execution db₁
  db₃ ←
      add_key
        (record {
          proposal_id = p.id;
          endpoint = execution_endpoint;
          idempotency_key = c.idempotency_key;
          request_fingerprint = fingerprint;
          resource_type = ResourceType.execution;
          resource_id = new_id;
          expires_at = now 0 + idempotency_retention;
          created_at = now 0;
        })
        db₂
  db₄ ←
      append_event p.id EventType.execution_requested
        (event_data (status_value updated.progress.status) p.snapshot.mode "已确认执行固定修复，等待受控执行器处理。")
        (now 1) db₃
  ok (some (record { execution = execution; replayed = false }), db₄)

-- The expiry of an approval; the transaction commits it and the caller raises.
unfoldable pub expire_approved : (ℕ → ℕ) → Proposal → Db → Result (Option AcceptedExecution × Db)
expire_approved now p db = do
  let (changed, db₁) =
      transition_proposal p.id ProposalStatus.approved ProposalStatus.expired
        (expiry_change (now 0)) db
  db₂ ←
      append_event p.id EventType.action_failed
        (status_event_data (status_value ProposalStatus.expired) "批准已过期，未执行固定修复。") (now 1) db₁
  ok (none, db₂)

-- `proposal.expires_at is not None and now >= proposal.expires_at`
abbrev pub is_past : Option ℕ → ℕ → Bool
is_past none now = false
is_past (some t) now = leb t now

unfoldable pub request_new :
    String → (ℕ → ℕ) → ℕ → ExecuteCommand → Db → Result (Option AcceptedExecution × Db)
unfolding claim_approved expire_approved
request_new fingerprint now new_id c db = do
  p ← or_raise (get_proposal c.proposal_id db) proposal_not_found
  let is_approved = same_status p.progress.status ProposalStatus.approved
  if is_approved && is_past p.progress.expires_at (now 0)
      then expire_approved now p db
      else if is_approved
      then claim_approved fingerprint now new_id c p db
      else err invalid_state

unfoldable pub request_replay : ℕ → String → String → Db → Result (Option AcceptedExecution × Db)
request_replay resource stored fingerprint db = do
  raise_if (not (str_eq stored fingerprint)) key_reused
  e ← or_raise (get_execution resource db) invalid_state
  ok (some (record { execution = e; replayed = true }), db)

-- `_request_execution_in_transaction`
unfoldable pub request_in_transaction :
    String → (ℕ → ℕ) → ℕ → ExecuteCommand → Db → Result (Option AcceptedExecution × Db)
unfolding request_new request_replay
request_in_transaction fingerprint now new_id c db =
    elim (get_key_by_scope c.proposal_id execution_endpoint c.idempotency_key db) [
      | some k ↦ request_replay k.resource_id k.request_fingerprint fingerprint db
      | none ↦ request_new fingerprint now new_id c db
    ]

-- `_load_execution_replay`, and `except IntegrityError` of `request_execution`
recover_request :
    String
    → ExecuteCommand
    → Result (Option AcceptedExecution) × Db
    → Result (Option AcceptedExecution) × Db
unfolding request_replay in_transaction
recover_request fingerprint c (err integrity, db) =
    elim (get_key_by_scope c.proposal_id execution_endpoint c.idempotency_key db) [
      | none ↦ (err integrity, db)
      | some k ↦ in_transaction (request_replay k.resource_id k.request_fingerprint fingerprint) db
    ]
recover_request fingerprint c r = r

raise_expired : Result (Option AcceptedExecution) × Db → Result AcceptedExecution × Db
raise_expired (ok none, db) = (err proposal_expired, db)
raise_expired (ok (some a), db) = (ok a, db)
raise_expired (err e, db) = (err e, db)

-- `ActionApplicationService.request_execution`
unfoldable pub request_execution :
    String → (ℕ → ℕ) → ℕ → ExecuteCommand → Db → Result AcceptedExecution × Db
unfolding recover_request raise_expired
request_execution fingerprint now new_id c db = raise_expired (
    recover_request fingerprint c
      (in_transaction (request_in_transaction fingerprint now new_id c) db))
