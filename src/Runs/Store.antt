-- ===== src/Runs/Store.antt =====
-- The tables of sessions, messages and runs, and their repositories
-- (backend/src/infrastructure/persistence/repositories.py and run_delivery_repository.py), with the
-- unique constraints of backend/src/infrastructure/persistence/models.py. A table is the list of its
-- rows. The tables of the controlled actions are a field of the same database.
use mathlib.Core.Option as Opt
use oper_mind.Base.{
  ℕ, ◌-◌, ◌+◌, String, Bool, false, ◌&&◌, ◌||◌, Option, none, some, List, [], ◌∷◌, ◌++◌, ◌==◌, ltb,
  if◌then◌else◌, any, find, update_where, count_where, Outcome, ok, err,
}
use oper_mind.Actions.Store.{ActionError}
use oper_mind.Actions.Store as Actions
use oper_mind.Agent.Records.{MainDelivery}
use oper_mind.Stream.Run.{RunFailureCode}
use oper_mind.Runs.Records.{
  SessionStatus, RunStatus, Endpoint, same_status, same_endpoint, is_archived, Conversation,
  Message, Progress, Run, RunEvent, IdempotencyKey, DiagnosisResult,
}
use oper_mind.Runs.Inputs.{InputSnapshot}

-- The errors of application/errors.py and run_execution.py. `integrity` is sqlalchemy's
-- IntegrityError, `execution_error` is RunExecutionError, `unexpected` any other exception.
pub data RunError : Type 0 where
  session_not_found session_archived service_not_found service_context_required : RunError
  key_reused run_not_found run_not_terminal run_already_terminal : RunError
  input_message_invalid input_unavailable input_rejected unsupported_rule : RunError
  integrity unexpected : RunError
  execution_error : RunFailureCode → RunError
  action_error : ActionError → RunError

abbrev pub Result {ℓ} : Type ℓ → Type ℓ
Result A = Outcome RunError A

pub record Db : Type 0 where
  pub sessions : List Conversation
  pub messages : List Message
  pub runs : List Run
  pub inputs : List (ℕ × InputSnapshot)
  pub deliveries : List (ℕ × MainDelivery)
  pub events : List RunEvent
  pub results : List DiagnosisResult
  pub keys : List IdempotencyKey
  pub actions : Actions.Db

abbrev pub empty_db : Db
empty_db = record {
  sessions = [];
  messages = [];
  runs = [];
  inputs = [];
  deliveries = [];
  events = [];
  results = [];
  keys = [];
  actions = Actions.empty_db;
}

-- SqlAlchemySessionRepository
abbrev pub session_has_id : ℕ → Conversation → Bool
session_has_id i s = s.id == i

unfoldable pub add_session : Conversation → Db → Result Db
add_session s db =
    if any (session_has_id s.id) db.sessions
    then err integrity
    else ok (record db { sessions = db.sessions ++ s ∷ [] })

-- `_session_data`: a row without associations stands for its own service.
abbrev pub services_of : List String → Option String → List String
services_of [] none = []
services_of [] (some id) = id ∷ []
services_of (id ∷ ids) own = id ∷ ids

abbrev pub session_data : Conversation → Conversation
session_data row = record row { service_ids = services_of row.service_ids row.service_id }

unfoldable pub get_session : ℕ → Db → Option Conversation
get_session i db = Opt.map session_data (find (session_has_id i) db.sessions)

-- `save`: the columns that it writes, by the identifier of the value.
abbrev pub save_columns : Conversation → Conversation → Conversation
save_columns s row = record row {
  title = s.title;
  status = s.status;
  environment_id = s.environment_id;
  incident_id = s.incident_id;
  service_id = s.service_id;
  updated_at = s.updated_at;
  archived_at = s.archived_at;
}

unfoldable pub save_session : Conversation → Db → Db
save_session s db = record db {
  sessions = update_where (session_has_id s.id) (save_columns s) db.sessions;
}

-- `case((updated_at < t, t), else_=updated_at)`
abbrev pub later : ℕ → ℕ → ℕ
later old t = if ltb old t then t else old

abbrev pub is_archived_row : ℕ → Conversation → Bool
is_archived_row i s = s.id == i && is_archived s.status

abbrev pub restore_columns : ℕ → Conversation → Conversation
restore_columns at row = record row {
  status = SessionStatus.active;
  archived_at = none;
  updated_at = later row.updated_at at;
}

unfoldable pub restore : ℕ → ℕ → Db → Bool × Db
restore i at db = (
  count_where (is_archived_row i) db.sessions == 1,
  record db { sessions = update_where (is_archived_row i) (restore_columns at) db.sessions },
)

abbrev pub touch_columns : ℕ → Conversation → Conversation
touch_columns at row = record row { updated_at = later row.updated_at at }

unfoldable pub touch_updated_at : ℕ → ℕ → Db → Bool × Db
touch_updated_at i at db = (
  count_where (session_has_id i) db.sessions == 1,
  record db { sessions = update_where (session_has_id i) (touch_columns at) db.sessions },
)

-- SqlAlchemyMessageRepository
abbrev pub message_has_id : ℕ → Message → Bool
message_has_id i m = m.id == i

unfoldable pub add_message : Message → Db → Result Db
add_message m db =
    if any (message_has_id m.id) db.messages
    then err integrity
    else ok (record db { messages = db.messages ++ m ∷ [] })

unfoldable pub get_message : ℕ → Db → Option Message
get_message i db = find (message_has_id i) db.messages

-- SqlAlchemyDiagnosisRunRepository
abbrev pub has_id : ℕ → Run → Bool
has_id i r = r.id == i

abbrev pub has_input : ℕ → Run → Bool
has_input m r = r.origin.input_message_id == m

-- The table has a primary key `id`, and `input_message_id` is unique.
unfoldable pub add_run : Run → Db → Result Db
add_run r db =
    if any (has_id r.id) db.runs || any (has_input r.origin.input_message_id) db.runs
    then err integrity
    else ok (record db { runs = db.runs ++ r ∷ [] })

unfoldable pub get_run : ℕ → Db → Option Run
get_run i db = find (has_id i) db.runs

-- The keyword arguments of `transition_status`; an absent one leaves its column alone.
pub record RunChange : Type 0 where
  pub started_at : Option ℕ
  pub finished_at : Option ℕ
  pub error_code : Option String
  pub error_message : Option String

abbrev pub or_keep {ℓ} : {A : Type ℓ} → Option A → Option A → Option A
or_keep none old = old
or_keep (some a) old = some a

unfoldable pub advance : RunStatus → RunChange → Progress → Progress
advance s c p = record {
  status = s;
  error_code = or_keep c.error_code p.error_code;
  error_message = or_keep c.error_message p.error_message;
  started_at = or_keep c.started_at p.started_at;
  finished_at = or_keep c.finished_at p.finished_at;
}

abbrev pub set_progress : RunStatus → RunChange → Run → Run
set_progress s c r = record r { progress = advance s c r.progress }

-- The WHERE clause of the compare-and-set.
abbrev pub is_at : ℕ → List RunStatus → Run → Bool
is_at i expected r = r.id == i && any (same_status r.progress.status) expected

abbrev pub write_status : ℕ → List RunStatus → RunStatus → RunChange → Db → Db
write_status i expected s c db = record db {
  runs = update_where (is_at i expected) (set_progress s c) db.runs;
}

unfoldable pub transition_status : ℕ → List RunStatus → RunStatus → RunChange → Db → Option Run × Db
transition_status i expected s c db =
    let db' = write_status i expected s c db in
    (if count_where (is_at i expected) db.runs == 1 then get_run i db' else none, db')

abbrev pub bump_sequence : Run → Run
bump_sequence r = record r { next_event_sequence = r.next_event_sequence + 1 }

-- The number that the new event takes, and the advanced counter.
unfoldable pub reserve_event_sequence : ℕ → Db → Option ℕ × Db
reserve_event_sequence i db =
    let db' : Db = record db { runs = update_where (has_id i) bump_sequence db.runs } in
    (Opt.map (λ r. r.next_event_sequence - 1) (get_run i db'), db')

-- The same for a row that is still running: the number is the counter before the update.
unfoldable pub reserve_running_event_sequence : ℕ → Db → Option ℕ × Db
reserve_running_event_sequence i db =
    let running = is_at i (RunStatus.running ∷ []) in
    let db' : Db = record db { runs = update_where running bump_sequence db.runs } in
    (Opt.map (λ r. r.next_event_sequence) (find running db.runs), db')

unfoldable pub is_cancelled : ℕ → Db → Bool
is_cancelled i db = elim (get_run i db) [
  | none ↦ false
  | some r ↦ same_status r.progress.status RunStatus.cancelled
]

-- SqlAlchemyRunEventRepository
abbrev pub event_at : ℕ → ℕ → RunEvent → Bool
event_at i n e = e.run_id == i && e.sequence == n

unfoldable pub add_event : RunEvent → Db → Result Db
add_event e db =
    if any (event_at e.run_id e.sequence) db.events
    then err integrity
    else ok (record db { events = db.events ++ e ∷ [] })

-- SqlAlchemyDiagnosisResultRepository, with `run_id` unique.
abbrev pub result_of : ℕ → DiagnosisResult → Bool
result_of i r = r.run_id == i

unfoldable pub add_result : DiagnosisResult → Db → Result Db
add_result r db =
    if any (result_of r.run_id) db.results
    then err integrity
    else ok (record db { results = db.results ++ r ∷ [] })

unfoldable pub get_result : ℕ → Db → Option DiagnosisResult
get_result i db = find (result_of i) db.results

-- SqlAlchemyRunInputRepository and SqlAlchemyRunDeliveryRepository, with the primary key `run_id`.
abbrev pub row_of {ℓ} : {A : Type ℓ} → ℕ → ℕ × A → Bool
row_of i row = row.0 == i

unfoldable pub add_input : ℕ → InputSnapshot → Db → Result Db
add_input i s db =
    if any (row_of i) db.inputs
    then err integrity
    else ok (record db { inputs = db.inputs ++ (i, s) ∷ [] })

unfoldable pub get_input : ℕ → Db → Option InputSnapshot
get_input i db = Opt.map (λ row. row.1) (find (row_of i) db.inputs)

unfoldable pub add_delivery : ℕ → MainDelivery → Db → Result Db
add_delivery i d db =
    if any (row_of i) db.deliveries
    then err integrity
    else ok (record db { deliveries = db.deliveries ++ (i, d) ∷ [] })

unfoldable pub get_delivery : ℕ → Db → Option MainDelivery
get_delivery i db = Opt.map (λ row. row.1) (find (row_of i) db.deliveries)

-- SqlAlchemyRunIdempotencyKeyRepository
abbrev pub in_scope : ℕ → Endpoint → ℕ → IdempotencyKey → Bool
in_scope i endpoint key k =
    k.session_id == i && same_endpoint k.endpoint endpoint && k.idempotency_key == key

unfoldable pub add_key : IdempotencyKey → Db → Result Db
add_key k db =
    if any (in_scope k.session_id k.endpoint k.idempotency_key) db.keys
    then err integrity
    else ok (record db { keys = db.keys ++ k ∷ [] })

unfoldable pub get_key_by_scope : ℕ → Endpoint → ℕ → Db → Option IdempotencyKey
get_key_by_scope i endpoint key db = find (in_scope i endpoint key) db.keys
