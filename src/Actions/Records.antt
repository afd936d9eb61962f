-- ===== src/Actions/Records.antt =====
-- The records of backend/src/domain/actions.py. Identifiers are numbers, a time is a count of
-- microseconds. The `id` of an event, a verification and an idempotency row, which no code of the
-- component reads, is left out.
use oper_mind.Base.{ℕ, ◌*◌, String, Bool, Option, List, ◌==◌}

pub data ProposalStatus : Type 0 where
  pending_approval approved rejected expired executing verifying verified blocked failed :
      ProposalStatus

pub data Decision : Type 0 where
  approve reject : Decision

pub data ExecutionStatus : Type 0 where
  queued running succeeded blocked failed : ExecutionStatus

pub data VerificationStatus : Type 0 where
  verified failed : VerificationStatus

pub data EventType : Type 0 where
  proposal_created approval_recorded execution_requested execution_started precondition_checked :
      EventType
  execution_completed verification_started verification_completed action_blocked action_failed :
      EventType

pub data Mode : Type 0 where
  mock target : Mode

pub data ResourceType : Type 0 where
  approval execution : ResourceType

-- ACTION_APPROVAL_ENDPOINT and ACTION_EXECUTION_ENDPOINT
pub data Endpoint : Type 0 where
  approval_endpoint execution_endpoint : Endpoint

-- The position of a status in its enumeration, by which statuses are compared.
abbrev rank : ProposalStatus → ℕ
rank ProposalStatus.pending_approval = 0
rank ProposalStatus.approved = 1
rank ProposalStatus.rejected = 2
rank ProposalStatus.expired = 3
rank ProposalStatus.executing = 4
rank ProposalStatus.verifying = 5
rank ProposalStatus.verified = 6
rank ProposalStatus.blocked = 7
rank ProposalStatus.failed = 8

abbrev pub same_status : ProposalStatus → ProposalStatus → Bool
same_status a b = rank a == rank b

abbrev execution_rank : ExecutionStatus → ℕ
execution_rank ExecutionStatus.queued = 0
execution_rank ExecutionStatus.running = 1
execution_rank ExecutionStatus.succeeded = 2
execution_rank ExecutionStatus.blocked = 3
execution_rank ExecutionStatus.failed = 4

abbrev pub same_execution_status : ExecutionStatus → ExecutionStatus → Bool
same_execution_status a b = execution_rank a == execution_rank b

abbrev pub same_endpoint : Endpoint → Endpoint → Bool
same_endpoint Endpoint.approval_endpoint Endpoint.approval_endpoint = Bool.true
same_endpoint Endpoint.execution_endpoint Endpoint.execution_endpoint = Bool.true
same_endpoint _ _ = Bool.false

-- `.value` of the enumerations
unfoldable pub status_value : ProposalStatus → String
status_value ProposalStatus.pending_approval = "pending_approval"
status_value ProposalStatus.approved = "approved"
status_value ProposalStatus.rejected = "rejected"
status_value ProposalStatus.expired = "expired"
status_value ProposalStatus.executing = "executing"
status_value ProposalStatus.verifying = "verifying"
status_value ProposalStatus.verified = "verified"
status_value ProposalStatus.blocked = "blocked"
status_value ProposalStatus.failed = "failed"

unfoldable pub execution_status_value : ExecutionStatus → String
execution_status_value ExecutionStatus.queued = "queued"
execution_status_value ExecutionStatus.running = "running"
execution_status_value ExecutionStatus.succeeded = "succeeded"
execution_status_value ExecutionStatus.blocked = "blocked"
execution_status_value ExecutionStatus.failed = "failed"

unfoldable pub mode_value : Mode → String
mode_value Mode.mock = "mock"
mode_value Mode.target = "target"

-- ACTION_TERMINAL_STATUSES
unfoldable pub is_terminal : ProposalStatus → Bool
is_terminal ProposalStatus.rejected = Bool.true
is_terminal ProposalStatus.expired = Bool.true
is_terminal ProposalStatus.verified = Bool.true
is_terminal ProposalStatus.blocked = Bool.true
is_terminal ProposalStatus.failed = Bool.true
is_terminal _ = Bool.false

abbrev pub local_operator : String
local_operator = "local_operator"

-- APPROVAL_VALIDITY_SECONDS and ACTION_IDEMPOTENCY_RETENTION, in microseconds
abbrev pub approval_validity : ℕ
approval_validity = 15 * 60 * 1000000

abbrev pub idempotency_retention : ℕ
idempotency_retention = 24 * 3600 * 1000000

-- The part of `ActionProposalData` that is fixed when the proposal is made.
pub record Snapshot : Type 0 where
  pub source_run_id : ℕ
  pub action_id : String
  pub action_digest : String
  pub mode : Mode
  pub title : String
  pub description : String
  pub target : List (String × String)
  pub root_cause_id : ℕ
  pub evidence_ids : List ℕ
  pub risk_summary : String
  pub verification_plan : List String
  pub created_at : ℕ

-- The part of `ActionProposalData` that `transition_status` writes.
pub record Progress : Type 0 where
  pub status : ProposalStatus
  pub updated_at : ℕ
  pub approved_at : Option ℕ
  pub expires_at : Option ℕ
  pub execution_started_at : Option ℕ
  pub completed_at : Option ℕ
  pub failure_code : Option String
  pub failure_message : Option String

-- A row of `action_proposals`: `ActionProposalData` and the counter of its events.
pub record Proposal : Type 0 where
  pub id : ℕ
  pub snapshot : Snapshot
  pub progress : Progress
  pub next_event_sequence : ℕ

pub record Approval : Type 0 where
  pub id : ℕ
  pub proposal_id : ℕ
  pub decision : Decision
  pub actor : String
  pub comment : Option String
  pub action_digest : String
  pub created_at : ℕ

pub record Execution : Type 0 where
  pub id : ℕ
  pub proposal_id : ℕ
  pub mode : Mode
  pub status : ExecutionStatus
  pub precondition_summary : Option String
  pub action_summary : Option String
  pub failure_code : Option String
  pub failure_message : Option String
  pub created_at : ℕ
  pub started_at : Option ℕ
  pub finished_at : Option ℕ

-- `facts` is the JSON text that is stored.
pub record Verification : Type 0 where
  pub execution_id : ℕ
  pub status : VerificationStatus
  pub mode : Mode
  pub summary : String
  pub facts : String
  pub created_at : ℕ

-- The four keys that an event's data may hold.
pub record EventData : Type 0 where
  pub action_id : Option String
  pub status : Option String
  pub mode : Option String
  pub summary : Option String

pub record Event : Type 0 where
  pub proposal_id : ℕ
  pub sequence : ℕ
  pub type : EventType
  pub occurred_at : ℕ
  pub details : EventData

pub record IdempotencyKey : Type 0 where
  pub proposal_id : ℕ
  pub endpoint : Endpoint
  pub idempotency_key : ℕ
  pub request_fingerprint : String
  pub resource_type : ResourceType
  pub resource_id : ℕ
  pub expires_at : ℕ
  pub created_at : ℕ

-- `ActionProposalDetail`
pub record Detail : Type 0 where
  pub proposal : Proposal
  pub approval : Option Approval
  pub execution : Option Execution
  pub verification : Option Verification
