-- ===== src/Runs/Accept.antt =====
-- Accepting a run (backend/src/application/services.py): `_accept_run_in_transaction` with its replay
-- of an idempotency key, the three commands that use it, and the reread after a conflict. A
-- fingerprint is the SHA-256 text of a command's payload. `Rules` are the functions that the code
-- calls: `str.lower`, SHA-256, and the pattern tests for sensitive content.
use oper_mind.Base.{
  ℕ, ◌+◌, String, Bool, true, false, ◌&&◌, not, Option, none, some, List, [], ◌∷◌, any, str_eq,
  is_some, if◌then◌else◌, ok, err, ◌>>=◌, ◌>>◌, raise_if, or_raise, in_transaction,
}
use oper_mind.Runs.Records.{
  MessageRole, RunStatus, RunRuntimeKind, RunEventType, Endpoint, create_endpoint, is_archived,
  same_kind, idempotency_retention, Conversation, Message, Run, IdempotencyKey,
}
use oper_mind.Runs.Inputs.{
  MainInput, ContextMessage, InputSnapshot, build_main_input_snapshot, rebuild_main_input_snapshot,
}
use oper_mind.Runs.Store.{
  session_not_found, session_archived, service_context_required, key_reused, run_not_found,
  input_rejected, unsupported_rule, integrity, unexpected, Result, Db, get_session, add_message,
  get_run, add_run, add_input, add_event, add_key, get_key_by_scope,
}
use oper_mind.Runs.Routing.{requires_database_context}
use oper_mind.Runs.Lifecycle.{state, touch_session}
use oper_mind.Runs.Context.{select_main_context}

pub record Rules : Type 0 where
  pub lower : String → String
  pub digest : String → String
  pub is_sensitive_input : MainInput → Bool
  pub is_sensitive_context : List ContextMessage → Bool

pub record CreateRunCommand : Type 0 where
  pub query : String
  pub service_id : Option String

-- CreateRunCommand, CreateMainAgentRunCommand, MainAgentRerunCommand
pub data Command : Type 0 where
  create_run : CreateRunCommand → Command
  create_main : MainInput → Command
  rerun_main : (source_run_id : ℕ) → InputSnapshot → Command

-- The fields that the three commands share, and the parameters of the transaction.
pub record Request : Type 0 where
  pub session_id : ℕ
  pub idempotency_key : ℕ
  pub command : Command
  pub fingerprint : String
  pub endpoint : Endpoint
  pub rerun_of_run_id : Option ℕ

-- The identifiers that `uuid4` gives the rows that a transaction adds.
pub record NewIds : Type 0 where
  pub message : ℕ
  pub run : ℕ
  pub text_a : ℕ
  pub text_b : ℕ

pub record AcceptedRun : Type 0 where
  pub run : Run
  pub replayed : Bool

-- `_command_runtime_kind`
abbrev pub command_runtime_kind : Command → RunRuntimeKind
command_runtime_kind (create_run c) = RunRuntimeKind.diagnosis
command_runtime_kind _ = RunRuntimeKind.main_agent

-- `_resolve_run_service_id`
unfoldable pub resolve_run_service_id :
    Rules → Conversation → CreateRunCommand → Result (Option String)
resolve_run_service_id rules s c = elim c.service_id [
  | some id ↦ if any (str_eq id) s.service_ids then ok (some id) else err service_context_required
  | none ↦ elim s.service_ids [
    | [] ↦ ok none
    | id ∷ [] ↦ ok (some id)
    | id ∷ other ∷ more ↦
        if requires_database_context rules.lower c.query
        then err service_context_required
        else ok none
  ]
]

-- The target of a diagnosis; the other commands have none.
unfoldable pub target_service : Rules → Conversation → Command → Result (Option String)
target_service rules s (create_run c) = do
  target ← resolve_run_service_id rules s c
  raise_if (not (is_some target) && requires_database_context rules.lower c.query)
      service_context_required
  ok target
target_service rules s _ = ok none

-- What the found row of a key replays.
unfoldable pub replay_key : Request → IdempotencyKey → Db → Result AcceptedRun
replay_key r k db = do
  raise_if (not (str_eq k.request_fingerprint r.fingerprint)) key_reused
  run ← or_raise (get_run k.run_id db) run_not_found
  raise_if (not (same_kind run.origin.runtime_kind (command_runtime_kind r.command))) key_reused
  ok (record { run = run; replayed = true })

-- The text of the input message, and the frozen input of a main agent's run.
unfoldable pub accepted_input :
    Rules → NewIds → ℕ → Command → Db → Result (String × Option InputSnapshot)
accepted_input rules ids session_id (create_run c) db = ok (c.query, none)
accepted_input rules ids session_id (create_main input) db = do
  let context = select_main_context session_id db
  raise_if (rules.is_sensitive_context context) input_rejected
  snapshot ←
      or_raise (build_main_input_snapshot rules.digest ids.text_a ids.text_b input context)
        unexpected
  ok (input.query, some snapshot)
accepted_input rules ids session_id (rerun_main source s) db = do
  snapshot ← or_raise (rebuild_main_input_snapshot ids.text_a ids.text_b s) unsupported_rule
  ok (snapshot.query, some snapshot)

abbrev pub new_message : NewIds → ℕ → String → ℕ → Message
new_message ids session_id content now = record {
  id = ids.message;
  session_id = session_id;
  run_id = none;
  role = MessageRole.user;
  content = content;
  created_at = now;
  edited_at = none;
  archived_at = none;
}

abbrev pub new_run : NewIds → Request → Option String → ℕ → Run
new_run ids r target now = record {
  id = ids.run;
  origin = record {
    session_id = r.session_id;
    input_message_id = ids.message;
    service_id = target;
    runtime_kind = command_runtime_kind r.command;
    rerun_of_run_id = r.rerun_of_run_id;
    created_at = now;
  };
  progress = record {
    status = RunStatus.queued;
    error_code = none;
    error_message = none;
    started_at = none;
    finished_at = none;
  };
  next_event_sequence = 2;
}

abbrev pub new_key : NewIds → Request → ℕ → IdempotencyKey
new_key ids r now = record {
  session_id = r.session_id;
  endpoint = r.endpoint;
  idempotency_key = r.idempotency_key;
  request_fingerprint = r.fingerprint;
  run_id = ids.run;
  expires_at = now + idempotency_retention;
  created_at = now;
}

abbrev pub add_snapshot : ℕ → Option InputSnapshot → Db → Result Db
add_snapshot i none db = ok db
add_snapshot i (some s) db = add_input i s db

-- The rows of a new run, in the order of the writes.
unfoldable pub insert_run :
    NewIds
    → Request
    → Option String
    → String
    → Option InputSnapshot
    → ℕ
    → Db
    → Result (AcceptedRun × Db)
insert_run ids r target content snapshot now db = do
  let run = new_run ids r target now
  db₁ ← add_message (new_message ids r.session_id content now) db
  db₂ ← add_run run db₁
  db₃ ← add_snapshot ids.run snapshot db₂
  db₄ ← add_key (new_key ids r now) db₃
  db₅ ←
      add_event
        (record {
          run_id = ids.run;
          sequence = 1;
          type = RunEventType.run_queued;
          occurred_at = now;
          details = state RunStatus.queued;
        })
        db₄
  db₆ ← touch_session r.session_id now db₅
  ok (record { run = run; replayed = false }, db₆)

-- The part of `_accept_run_in_transaction` below the lookup of the key.
unfoldable pub accept_new :
    Rules → NewIds → ℕ → Request → Option String → Db → Result (AcceptedRun × Db)
accept_new rules ids now r target db = do
  (content, snapshot) ← accepted_input rules ids r.session_id r.command db
  insert_run ids r target content snapshot now db

-- `_accept_run_in_transaction`
unfoldable pub accept_in_transaction : Rules → NewIds → ℕ → Request → Db → Result (AcceptedRun × Db)
accept_in_transaction rules ids now r db = do
  session ← or_raise (get_session r.session_id db) session_not_found
  raise_if (is_archived session.status) session_archived
  target ← target_service rules session r.command
  elim (get_key_by_scope r.session_id r.endpoint r.idempotency_key db) [
    | some k ↦ replay_key r k db >>= λ a. ok (a, db)
    | none ↦ accept_new rules ids now r target db
  ]

-- `_load_idempotency_after_conflict`, a transaction of its own.
unfoldable pub reload : Request → Db → Result AcceptedRun
reload r db = elim (get_key_by_scope r.session_id r.endpoint r.idempotency_key db) [
  | none ↦ err integrity
  | some k ↦ replay_key r k db
]

recover : Request → Result AcceptedRun × Db → Result AcceptedRun × Db
recover r (err integrity, db) = (reload r db, db)
recover r done = done

-- The body of `accept_run` and `accept_main_agent_run`
unfoldable pub accept : Rules → NewIds → ℕ → Request → Db → Result AcceptedRun × Db
unfolding recover
accept rules ids now r db = recover r (in_transaction (accept_in_transaction rules ids now r) db)

-- `accept_run`
unfoldable pub accept_run :
    Rules → NewIds → ℕ → ℕ → ℕ → String → CreateRunCommand → Db → Result AcceptedRun × Db
accept_run rules ids now session_id key fingerprint c db =
    accept rules ids now
      (record {
        session_id = session_id;
        idempotency_key = key;
        command = create_run c;
        fingerprint = fingerprint;
        endpoint = create_endpoint;
        rerun_of_run_id = none;
      })
      db

-- `accept_main_agent_run`, with `assert_main_input_is_safe`
unfoldable pub accept_main_agent_run :
    Rules → NewIds → ℕ → ℕ → ℕ → String → MainInput → Db → Result AcceptedRun × Db
accept_main_agent_run rules ids now session_id key fingerprint input db =
    if rules.is_sensitive_input input
    then (err input_rejected, db)
    else accept rules ids now
        (record {
          session_id = session_id;
          idempotency_key = key;
          command = create_main input;
          fingerprint = fingerprint;
          endpoint = create_endpoint;
          rerun_of_run_id = none;
        })
        db
