-- ===== src/Runs/Records.antt =====
-- Sessions, messages, runs and their events: backend/src/domain/diagnosis.py and
-- backend/src/domain/records.py. Identifiers are numbers, a time is a count of microseconds. Left out:
-- the `trace_id` of a run and the `id` of an event and of a key, which no code of the component reads.
use oper_mind.Base.{ℕ, ◌*◌, String, Bool, true, false, Option, List, ◌==◌}

pub data SessionStatus : Type 0 where
  active archived : SessionStatus

pub data MessageRole : Type 0 where
  user assistant system : MessageRole

pub data RunStatus : Type 0 where
  queued running succeeded failed cancelled : RunStatus

pub data RunRuntimeKind : Type 0 where
  diagnosis main_agent : RunRuntimeKind

pub data RunEventType : Type 0 where
  run_queued run_started route_decided agent_start agent_done conflict_checked : RunEventType
  debate_round report reflection run_succeeded run_failed run_cancelled : RunEventType
  tool_invoked : RunEventType

-- RUN_CREATE_ENDPOINT and RUN_RERUN_ENDPOINT
pub data Endpoint : Type 0 where
  create_endpoint rerun_endpoint : Endpoint

abbrev rank : RunStatus → ℕ
rank RunStatus.queued = 0
rank RunStatus.running = 1
rank RunStatus.succeeded = 2
rank RunStatus.failed = 3
rank RunStatus.cancelled = 4

abbrev pub same_status : RunStatus → RunStatus → Bool
same_status a b = rank a == rank b

abbrev pub is_archived : SessionStatus → Bool
is_archived SessionStatus.archived = true
is_archived SessionStatus.active = false

abbrev pub is_user : MessageRole → Bool
is_user MessageRole.user = true
is_user _ = false

abbrev pub is_assistant : MessageRole → Bool
is_assistant MessageRole.assistant = true
is_assistant _ = false

abbrev pub is_main : RunRuntimeKind → Bool
is_main RunRuntimeKind.main_agent = true
is_main RunRuntimeKind.diagnosis = false

abbrev pub same_kind : RunRuntimeKind → RunRuntimeKind → Bool
same_kind RunRuntimeKind.diagnosis RunRuntimeKind.diagnosis = true
same_kind RunRuntimeKind.main_agent RunRuntimeKind.main_agent = true
same_kind _ _ = false

abbrev pub same_endpoint : Endpoint → Endpoint → Bool
same_endpoint Endpoint.create_endpoint Endpoint.create_endpoint = true
same_endpoint Endpoint.rerun_endpoint Endpoint.rerun_endpoint = true
same_endpoint _ _ = false

-- RUN_TERMINAL_STATUSES
unfoldable pub is_terminal : RunStatus → Bool
is_terminal RunStatus.succeeded = true
is_terminal RunStatus.failed = true
is_terminal RunStatus.cancelled = true
is_terminal _ = false

-- `.value` of RunStatus
unfoldable pub status_value : RunStatus → String
status_value RunStatus.queued = "queued"
status_value RunStatus.running = "running"
status_value RunStatus.succeeded = "succeeded"
status_value RunStatus.failed = "failed"
status_value RunStatus.cancelled = "cancelled"

-- IDEMPOTENCY_RETENTION, in microseconds
abbrev pub idempotency_retention : ℕ
idempotency_retention = 24 * 3600 * 1000000

-- `SessionData`
pub record Conversation : Type 0 where
  pub id : ℕ
  pub title : String
  pub status : SessionStatus
  pub environment_id : Option ℕ
  pub incident_id : Option ℕ
  pub service_id : Option String
  pub service_ids : List String
  pub created_at : ℕ
  pub updated_at : ℕ
  pub archived_at : Option ℕ

pub record Message : Type 0 where
  pub id : ℕ
  pub session_id : ℕ
  pub run_id : Option ℕ
  pub role : MessageRole
  pub content : String
  pub created_at : ℕ
  pub edited_at : Option ℕ
  pub archived_at : Option ℕ

-- The part of `DiagnosisRunData` that is fixed when the run is accepted.
pub record Origin : Type 0 where
  pub session_id : ℕ
  pub input_message_id : ℕ
  pub service_id : Option String
  pub runtime_kind : RunRuntimeKind
  pub rerun_of_run_id : Option ℕ
  pub created_at : ℕ

-- The part of `DiagnosisRunData` that `transition_status` writes.
pub record Progress : Type 0 where
  pub status : RunStatus
  pub error_code : Option String
  pub error_message : Option String
  pub started_at : Option ℕ
  pub finished_at : Option ℕ

-- `DiagnosisRunData`
pub record Run : Type 0 where
  pub id : ℕ
  pub origin : Origin
  pub progress : Progress
  pub next_event_sequence : ℕ

-- What an event stores of the mapping `data` that it is given: keys with a text or a number.
pub data Value : Type 0 where
  text : String → Value
  number : ℕ → Value
  other : Value

pub record RunEvent : Type 0 where
  pub run_id : ℕ
  pub sequence : ℕ
  pub type : RunEventType
  pub occurred_at : ℕ
  pub details : List (String × Value)

pub record IdempotencyKey : Type 0 where
  pub session_id : ℕ
  pub endpoint : Endpoint
  pub idempotency_key : ℕ
  pub request_fingerprint : String
  pub run_id : ℕ
  pub expires_at : ℕ
  pub created_at : ℕ

-- The summary of `DiagnosisResultData`; the rest of it is stored and not read here.
pub record DiagnosisResult : Type 0 where
  pub run_id : ℕ
  pub summary : String
