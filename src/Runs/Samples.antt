-- ===== src/Runs/Samples.antt =====
-- Concrete requests, settings and tables for the tests of the services of
-- backend/src/application/services.py.
use oper_mind.Base.{ℕ, String, true, false, none, some, List, [], ◌∷◌, ◌==◌, ◌++◌}
use oper_mind.Runs.EventData.{ExecutionEvent}
use oper_mind.Runs.Records.{
  text, number, Message, MessageRole, Conversation, SessionStatus, Run, RunStatus, RunRuntimeKind,
  RunEventType, Progress, Endpoint,
}
use oper_mind.Runs.Store.{Db, empty_db}
use oper_mind.Runs.Accept.{Command, Rules, NewIds, Request, create_main}
use oper_mind.Runs.Schedule.{
  Ports, Transaction, create, accept, claim, cancel, record_event, perform_all,
}
use oper_mind.Stream.Guard.{Source}
use oper_mind.Runs.Execute.{Setting}
use oper_mind.Agent.Records.{answered}

abbrev pub rules : Rules
rules = record {
  lower = λ s. s;
  digest = λ s. s;
  is_sensitive_input = λ i. false;
  is_sensitive_context = λ c. false;
}

abbrev pub ports : Ports
ports = record {
  D = String;
  assemble = λ run summary. some (record { run_id = run.id; summary = summary });
  proposes = λ run result. none;
  validate = λ d run s. true;
  text_of = λ d. "ok";
  is_sensitive = λ s. false;
  fingerprint = λ i c. "rerun";
  rules = rules;
}

abbrev pub ids : NewIds
ids = record { message = 5; run = 7; text_a = 8; text_b = 9 }

abbrev pub request : Request
request = record {
  session_id = 1;
  idempotency_key = 3;
  command = create_main (record { query = "compare"; text_a = none; text_b = none });
  fingerprint = "compare";
  endpoint = Endpoint.create_endpoint;
  rerun_of_run_id = none;
}

abbrev pub clock : ℕ → ℕ
clock k = 100

abbrev pub up_to_accept : List (Transaction ports)
up_to_accept =
    create none 10 1 (record {
      title = "t";
      environment_id = none;
      incident_id = none;
      service_id = none;
      service_ids = none;
    })
    ∷ accept ids 20 request
    ∷ []

abbrev pub story : List (Transaction ports)
story =
    up_to_accept
    ++ claim clock 7 ∷ record_event 7 RunEventType.route_decided [] 30 ∷ cancel clock 7 ∷ []

abbrev pub too_late : List (Transaction ports)
too_late = record_event 7 RunEventType.agent_done [] 40 ∷ cancel clock 7 ∷ claim clock 7 ∷ []

abbrev pub after_story : Db
after_story = perform_all ports story empty_db

abbrev pub final : Progress
final = record {
  status = RunStatus.cancelled;
  error_code = none;
  error_message = none;
  started_at = some 100;
  finished_at = some 100;
}

abbrev pub setting : Setting ports
setting = record {
  diagnose = λ input. Source.opened [];
  run_executor = some λ input. Source.opened [];
  service_ids = [];
  capability_ids = [];
  now = λ turn k. 200;
  action_now = λ k. 200;
  message_id = 11;
  proposal_id = 12;
  others =
      λ k. elim (k == 1) [ false ↦ [] | true ↦ record_event 7 RunEventType.agent_done [] 40 ∷ [] ];
}

abbrev pub accepted : Db
accepted = perform_all ports up_to_accept empty_db

abbrev pub queued_run : Run
queued_run = record {
  id = 7;
  origin = record {
    session_id = 1;
    input_message_id = 5;
    service_id = none;
    runtime_kind = RunRuntimeKind.main_agent;
    rerun_of_run_id = none;
    created_at = 20;
  };
  progress = record {
    status = RunStatus.queued;
    error_code = none;
    error_message = none;
    started_at = none;
    finished_at = none;
  };
  next_event_sequence = 2;
}

abbrev pub with_session : Db
with_session =
    perform_all ports
      (create none 10 1 (record {
        title = "t";
        environment_id = none;
        incident_id = none;
        service_id = none;
        service_ids = none;
      })
        ∷ [])
      empty_db

abbrev pub other_ids : NewIds
other_ids = record { message = 15; run = 17; text_a = 18; text_b = 19 }

abbrev pub conversation : Conversation
conversation = record {
  id = 1;
  title = "t";
  status = SessionStatus.active;
  environment_id = none;
  incident_id = none;
  service_id = none;
  service_ids = [];
  created_at = 10;
  updated_at = 10;
  archived_at = none;
}

abbrev pub answered_run : Run
answered_run = record queued_run {
  progress = record {
    status = RunStatus.succeeded;
    error_code = none;
    error_message = none;
    started_at = some 30;
    finished_at = some 40;
  };
}

abbrev pub question : Message
question = record {
  id = 5;
  session_id = 1;
  run_id = none;
  role = MessageRole.user;
  content = "why?";
  created_at = 20;
  edited_at = none;
  archived_at = none;
}

abbrev pub answer : Message
answer = record question {
  id = 11;
  run_id = some 7;
  role = MessageRole.assistant;
  content = "because";
  created_at = 40;
}

abbrev pub answered_db : Db
answered_db = record empty_db {
  sessions = conversation ∷ [];
  messages = question ∷ answer ∷ [];
  runs = answered_run ∷ [];
  deliveries = (7, answered (record { text = "because"; knowledge_grounding = none })) ∷ [];
}

-- A tool call that carries its arguments along.
abbrev pub tool_event : ExecutionEvent
tool_event = record {
  type = RunEventType.tool_invoked;
  node = "tool";
  occurred_at = 30;
  details =
      ("status", text "ok")
      ∷ ("arguments", text "password")
      ∷ ("capability_id", text "disk")
      ∷ ("capability_version", number 2)
      ∷ ("duration_ms", number 70000)
      ∷ [];
}

-- The fingerprint of a command, for the tests: its text.
abbrev pub text_of_command : Command → String
text_of_command (Command.create_run c) = c.query
text_of_command (Command.create_main input) = input.query
text_of_command (Command.rerun_main source input) = input.query

abbrev pub other_command : Command
other_command = create_main (record { query = "other"; text_a = none; text_b = none })
