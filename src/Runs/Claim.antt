-- ===== src/Runs/Claim.antt =====
-- `_claim_run` of backend/src/application/services.py: a queued run starts, and its input is read.
use oper_mind.Base.{
  ℕ, String, ◌||◌, not, Option, none, some, [], ◌∷◌, ◌==◌, if◌then◌else◌, ok, ◌>>=◌, ◌>>◌, raise_if,
  or_raise,
}
use oper_mind.Runs.Records.{RunStatus, RunEventType, same_status, is_user, is_main, Message, Run}
use oper_mind.Runs.Inputs.{InputSnapshot}
use oper_mind.Runs.Store.{
  run_not_found, run_already_terminal, input_message_invalid, input_unavailable, Result, Db,
  get_message, get_run, transition_status, get_input,
}
use oper_mind.Runs.Lifecycle.{no_change, state, append_event}

-- What a claimed run is executed with, `RunExecutionInput`.
pub data ExecutionInput : Type 0 where
  diagnosis_input : (query : String) (service_id : Option String) → ExecutionInput
  main_input : (run_id session_id : ℕ) → InputSnapshot → ExecutionInput

abbrev pub execution_input : Run → Message → Db → Result ExecutionInput
execution_input run message db =
    if is_main run.origin.runtime_kind
    then (or_raise (get_input run.id db) input_unavailable >>= λ s.
        ok (main_input run.id run.origin.session_id s))
    else ok (diagnosis_input message.content run.origin.service_id)

-- The question that a run was accepted with: a message of its session, of a user.
abbrev pub input_message_of : Run → Db → Result Message
input_message_of run db = do
  m ← or_raise (get_message run.origin.input_message_id db) input_message_invalid
  raise_if (not (m.session_id == run.origin.session_id) || not (is_user m.role))
      input_message_invalid
  ok m

-- The part of `_claim_run` below its transition, which cannot miss after the test of the status, in
-- one transaction; the branch that reads the run once more is kept.
unfoldable pub claimed :
    (ℕ → ℕ) → ℕ → ExecutionInput → Option Run × Db → Result ((Run × Option ExecutionInput) × Db)
claimed now i input (none, db) = do
  latest ← or_raise (get_run i db) run_not_found
  raise_if (same_status latest.progress.status RunStatus.queued) run_already_terminal
  ok ((latest, none), db)
claimed now i input (some updated, db) = do
  db₁ ← append_event i RunEventType.run_started (state RunStatus.running) (now 1) db
  ok ((updated, some input), db₁)

-- The operation of `_claim_run`: the run, and its input if this call has claimed it.
unfoldable pub claim_run : (ℕ → ℕ) → ℕ → Db → Result ((Run × Option ExecutionInput) × Db)
claim_run now i db = do
  current ← or_raise (get_run i db) run_not_found
  if not (same_status current.progress.status RunStatus.queued)
      then ok ((current, none), db)
      else do
        message ← input_message_of current db
        input ← execution_input current message db
        claimed now i input (
            transition_status i (RunStatus.queued ∷ []) RunStatus.running
              (record no_change { started_at = some (now 0) }) db)
