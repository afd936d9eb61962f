-- ===== src/Actions/Execution.antt =====
-- `execute` of backend/src/application/action_services.py: the claimed proposal goes to the executor,
-- and every step is a transaction of its own. The executor (the port `ControlledActionExecutor` of
-- backend/src/application/action_execution.py) is an argument: two functions of the proposal. The
-- `clock` gives the readings of each transaction: `clock t k` is the k-th of the t-th transaction.
use oper_mind.Base.{ℕ, String, Option, none, some}
use oper_mind.Actions.Records.{
  ProposalStatus, EventType, ExecutionStatus, VerificationStatus, same_status, status_value,
  execution_status_value, Proposal, Execution,
}
use oper_mind.Actions.Store.{
  proposal_not_found, invalid_state, Result, ok, ◌>>=◌, or_raise, Db, get_proposal, change_at,
  ProposalChange, transition_proposal, get_execution_of, no_change, transition_execution,
  add_verification,
}
use oper_mind.Base.{if◌then◌else◌}
use oper_mind.Actions.Events.{append_event, event_data}

-- The classes of backend/src/application/action_execution.py, with their class attributes `code` and
-- `message`. The message that a constructor is given is not among the attributes that are read.
pub data ControlledError : Type 0 where
  execution_failed precondition_blocked verification_failed : ControlledError

unfoldable pub error_code : ControlledError → String
error_code execution_failed = "ACTION_EXECUTION_FAILED"
error_code precondition_blocked = "ACTION_PRECONDITION_BLOCKED"
error_code verification_failed = "ACTION_VERIFICATION_FAILED"

unfoldable pub error_message : ControlledError → String
error_message execution_failed = "固定修复执行失败，未暴露内部错误详情。"
error_message precondition_blocked = "执行前置条件未满足，系统未执行固定修复。"
error_message verification_failed = "验证未通过；变更可能已提交，系统未自动回滚。"

abbrev pub done_change : ℕ → ProposalChange
done_change now = record (change_at now) { completed_at = some now }

abbrev pub failure_change : ControlledError → ℕ → ProposalChange
failure_change error now = record (done_change now) {
  failure_code = some (error_code error);
  failure_message = some (error_message error);
}

-- How a call of the executor ends: it returns, raises a controlled error, raises an OSError or a
-- ValueError, or raises something else.
pub data Outcome {ℓ} (A : Type ℓ) : Type ℓ where
  returned : A → Outcome A
  controlled : ControlledError → Outcome A
  os_or_value_error : Outcome A
  other_error : Outcome A

pub record Attempt : Type 0 where
  pub precondition_summary : String
  pub action_summary : String

pub record Verdict : Type 0 where
  pub summary : String
  pub facts : String

pub record Executor : Type 0 where
  pub execute : Proposal → Outcome Attempt
  pub verify : Proposal → Outcome Verdict

abbrev pub Tx : Type 0
Tx = Db → Result (Unit {0} × Db)

-- The end of `_claim_execution`, from what the compare-and-set on the execution returned.
unfoldable pub claim_running :
    (ℕ → ℕ) → Proposal → Option Execution × Db → Result (Option (Proposal × Execution) × Db)
claim_running now p (none, db) = ok (none, db)
claim_running now p (some u, db) = do
  db₂ ←
      append_event p.id EventType.execution_started
        (event_data (execution_status_value u.status) p.snapshot.mode "受控执行器已开始处理固定修复。") (now 1) db
  ok (some (p, u), db₂)

unfoldable pub claim_found :
    (ℕ → ℕ) → Proposal → Execution → Db → Result (Option (Proposal × Execution) × Db)
claim_found now p e db =
    if same_status p.progress.status ProposalStatus.executing
    then (do
      r ←
          transition_execution e.id ExecutionStatus.queued ExecutionStatus.running
            (record no_change { started_at = some (now 0) }) db
      claim_running now p r)
    else ok (none, db)

-- `_claim_execution`
unfoldable pub claim_execution : (ℕ → ℕ) → ℕ → Db → Result (Option (Proposal × Execution) × Db)
claim_execution now i db = elim (get_proposal i db) [
  | none ↦ ok (none, db)
  | some p ↦ elim (get_execution_of i db) [ none ↦ ok (none, db) | some e ↦ claim_found now p e db ]
]

-- `_record_execution_success`
unfoldable pub record_success : (ℕ → ℕ) → Proposal → Execution → Attempt → Tx
record_success now p e a db = do
  (changed, db₁) ←
      transition_execution e.id ExecutionStatus.running ExecutionStatus.succeeded
        (record no_change {
          finished_at = some (now 0);
          precondition_summary = some a.precondition_summary;
          action_summary = some a.action_summary;
        })
        db
  updated ← or_raise changed invalid_state
  db₂ ←
      append_event p.id EventType.precondition_checked
        (event_data "passed" p.snapshot.mode a.precondition_summary) (now 1) db₁
  db₃ ←
      append_event p.id EventType.execution_completed
        (event_data "succeeded" p.snapshot.mode a.action_summary) (now 2) db₂
  ok (tt, db₃)

-- `_start_verification`
unfoldable pub start_verification : (ℕ → ℕ) → ℕ → Tx
start_verification now i db = do
  p ← or_raise (get_proposal i db) proposal_not_found
  let (changed, db₁) =
      transition_proposal i ProposalStatus.executing ProposalStatus.verifying (change_at (now 0)) db
  updated ← or_raise changed invalid_state
  db₂ ←
      append_event i EventType.verification_started
        (event_data (status_value updated.progress.status) p.snapshot.mode "固定修复已提交，开始独立 Verify。")
        (now 1) db₁
  ok (tt, db₂)

-- `_finish_verified`
unfoldable pub finish_verified : (ℕ → ℕ) → Proposal → Execution → Verdict → Tx
finish_verified now p e v db = do
  db₁ ←
      add_verification
        (record {
          execution_id = e.id;
          status = VerificationStatus.verified;
          mode = p.snapshot.mode;
          summary = v.summary;
          facts = v.facts;
          created_at = now 0;
        })
        db
  let (changed, db₂) =
      transition_proposal p.id ProposalStatus.verifying ProposalStatus.verified
        (done_change (now 0)) db₁
  updated ← or_raise changed invalid_state
  db₃ ←
      append_event p.id EventType.verification_completed
        (event_data (status_value updated.progress.status) p.snapshot.mode v.summary) (now 1) db₂
  ok (tt, db₃)

-- `_finish_verification_failed`; the outcome of the compare-and-set is not looked at.
unfoldable pub finish_verification_failed : (ℕ → ℕ) → Proposal → Execution → ControlledError → Tx
finish_verification_failed now p e error db = do
  db₁ ←
      add_verification
        (record {
          execution_id = e.id;
          status = VerificationStatus.failed;
          mode = p.snapshot.mode;
          summary = error_message error;
          facts = "{\"verification_passed\": false}";
          created_at = now 0;
        })
        db
  let (changed, db₂) =
      transition_proposal p.id ProposalStatus.verifying ProposalStatus.failed
        (failure_change error (now 0)) db₁
  db₃ ←
      append_event p.id EventType.action_failed
        (event_data (status_value ProposalStatus.failed) p.snapshot.mode (error_message error))
        (now 1) db₂
  ok (tt, db₃)

-- `_finish_execution_terminal`; neither compare-and-set is looked at.
unfoldable pub finish_execution_terminal :
    (ℕ → ℕ)
    → Proposal
    → Execution
    → ProposalStatus
    → ExecutionStatus
    → EventType
    → ControlledError
    → Tx
finish_execution_terminal now p e proposal_status execution_status type error db = do
  (ignored, db₁) ←
      transition_execution e.id ExecutionStatus.running execution_status
        (record no_change {
          finished_at = some (now 0);
          failure_code = some (error_code error);
          failure_message = some (error_message error);
        })
        db
  let (changed, db₂) =
      transition_proposal p.id ProposalStatus.executing proposal_status
        (failure_change error (now 0)) db₁
  db₃ ←
      append_event p.id type
        (event_data (status_value proposal_status) p.snapshot.mode (error_message error)) (now 1)
        db₂
  ok (tt, db₃)

-- `_finish_blocked` and `_finish_failed`
unfoldable pub finish_blocked : (ℕ → ℕ) → Proposal → Execution → ControlledError → Tx
finish_blocked now p e =
    finish_execution_terminal now p e ProposalStatus.blocked ExecutionStatus.blocked
      EventType.action_blocked

unfoldable pub finish_failed : (ℕ → ℕ) → Proposal → Execution → ControlledError → Tx
finish_failed now p e =
    finish_execution_terminal now p e ProposalStatus.failed ExecutionStatus.failed
      EventType.action_failed
