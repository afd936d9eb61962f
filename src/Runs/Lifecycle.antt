-- ===== src/Runs/Lifecycle.antt =====
-- The transactions that move a run (backend/src/application/services.py): claiming, the events of its
-- execution, cancelling, and its ends. `now k` is the k-th reading of the clock in a transaction.
use oper_mind.Base.{
  ℕ, String, Option, Bool, true, false, ◌||◌, none, some, List, [], ◌∷◌, if◌then◌else◌, ok, err,
  ◌>>=◌, ◌>>◌, raise_if, or_raise,
}
use oper_mind.Runs.Records.{
  RunStatus, RunEventType, same_status, is_terminal, status_value, Run, Value,
}
use oper_mind.Runs.Store.{
  session_not_found, run_not_found, run_already_terminal, Result, Db, touch_updated_at, get_run,
  RunChange, transition_status, reserve_event_sequence, reserve_running_event_sequence, add_event,
}

abbrev pub no_change : RunChange
no_change = record {
  started_at = none;
  finished_at = none;
  error_code = none;
  error_message = none;
}

abbrev pub state : RunStatus → List (String × Value)
state s = ("state", Value.text (status_value s)) ∷ []

-- `_append_event_in_transaction`
unfoldable pub append_event : ℕ → RunEventType → List (String × Value) → ℕ → Db → Result Db
append_event i type details at db = do
  let (reserved, db₁) = reserve_event_sequence i db
  n ← or_raise reserved run_not_found
  add_event (record { run_id = i; sequence = n; type = type; occurred_at = at; details = details })
      db₁

-- `_append_event`
unfoldable pub append_any :
    ℕ → RunEventType → List (String × Value) → ℕ → Db → Result (Unit {0} × Db)
append_any i type details at db = do db₁ ← append_event i type details at db; ok (tt, db₁)

-- `_append_execution_event`
unfoldable pub add_reserved :
    ℕ → RunEventType → List (String × Value) → ℕ → Option ℕ × Db → Result (Bool × Db)
add_reserved i type details at (none, db) = ok (false, db)
add_reserved i type details at (some n, db) = do
  db₁ ←
      add_event
        (record { run_id = i; sequence = n; type = type; occurred_at = at; details = details }) db
  ok (true, db₁)

unfoldable pub append_execution_event :
    ℕ → RunEventType → List (String × Value) → ℕ → Db → Result (Bool × Db)
append_execution_event i type details at db =
    add_reserved i type details at (reserve_running_event_sequence i db)

-- `_touch_session`
unfoldable pub touch_session : ℕ → ℕ → Db → Result Db
touch_session i at db =
    let (found, db₁) = touch_updated_at i at db in if found then ok db₁ else err session_not_found

-- A run's move, what is written along with it, its event and the touch of its session, which end
-- every transaction below.
unfoldable pub finish_run :
    Run
    → List RunStatus
    → RunStatus
    → RunChange
    → (Run → Db → Result Db)
    → RunEventType
    → List (String × Value)
    → (event_at touched_at : ℕ) → Db
    → Result (Run × Db)
finish_run run expected s c also type details event_at touched_at db = do
  let (changed, db₁) = transition_status run.id expected s c db
  updated ← or_raise changed run_already_terminal
  db₂ ← also updated db₁
  db₃ ← append_event run.id type details event_at db₂
  db₄ ← touch_session run.origin.session_id touched_at db₃
  ok (updated, db₄)

abbrev pub nothing_else : Run → Db → Result Db
nothing_else updated db = ok db

-- The operation of `cancel_run`
unfoldable pub cancel_run : (ℕ → ℕ) → ℕ → Db → Result (Run × Db)
cancel_run now i db = do
  run ← or_raise (get_run i db) run_not_found
  raise_if
      (same_status run.progress.status RunStatus.succeeded
        || same_status run.progress.status RunStatus.failed)
      run_already_terminal
  if same_status run.progress.status RunStatus.cancelled
      then ok (run, db)
      else finish_run run (RunStatus.queued ∷ RunStatus.running ∷ []) RunStatus.cancelled
          (record no_change { finished_at = some (now 0) }) nothing_else RunEventType.run_cancelled
          (state RunStatus.cancelled) (now 1) (now 0) db

-- The operation of `_complete_failure`
unfoldable pub complete_failure : (ℕ → ℕ) → ℕ → String → String → Db → Result (Run × Db)
complete_failure now i code message db = do
  run ← or_raise (get_run i db) run_not_found
  if is_terminal run.progress.status
      then ok (run, db)
      else finish_run run (RunStatus.running ∷ RunStatus.queued ∷ []) RunStatus.failed
          (record no_change {
            finished_at = some (now 0);
            error_code = some code;
            error_message = some message;
          })
          nothing_else RunEventType.run_failed
          (("state", Value.text (status_value RunStatus.failed)) ∷ ("code", Value.text code) ∷ [])
          (now 1) (now 2) db
