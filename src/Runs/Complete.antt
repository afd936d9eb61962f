-- ===== src/Runs/Complete.antt =====
-- The two ways in which a run succeeds: `_complete_success` and `_complete_main_success` of
-- backend/src/application/services.py.
use oper_mind.Base.{
  ℕ, String, Bool, not, Option, none, some, [], ◌∷◌, ◌==◌, if◌then◌else◌, ok, err, ◌>>=◌, ◌>>◌,
  raise_if, or_raise,
}
use oper_mind.Actions.Records.{Snapshot}
use oper_mind.Actions.Events.{create_proposal}
use oper_mind.Actions.Store as Actions
use oper_mind.Agent.Records.{MainDelivery}
use oper_mind.Stream.Run.{RunFailureCode}
use oper_mind.Runs.Records.{
  MessageRole, RunStatus, RunEventType, same_status, is_main, is_terminal, Message, Run,
  DiagnosisResult,
}
use oper_mind.Runs.Inputs.{InputSnapshot}
use oper_mind.Runs.Store.{
  run_not_found, run_already_terminal, input_unavailable, unexpected, execution_error, action_error,
  Result, Db, add_message, get_run, add_result, get_input, add_delivery,
}
use oper_mind.Runs.Lifecycle.{no_change, state, finish_run, nothing_else}

-- `maybe_create_proposal_in_transaction` in the tables of the actions, from what the facts match.
unfoldable pub store_actions {ℓ} : {A : Type ℓ} → Db → Actions.Result (A × Actions.Db) → Result Db
store_actions db (Actions.ok (p, actions)) = ok (record db { actions = actions })
store_actions db (Actions.err e) = err (action_error e)

unfoldable pub create_proposal_for : (ℕ → ℕ) → ℕ → Option Snapshot → Db → Result Db
create_proposal_for now new_id snapshot db =
    store_actions db (create_proposal now new_id snapshot db.actions)

abbrev pub assistant_message : ℕ → Run → String → ℕ → Message
assistant_message new_id run content at = record {
  id = new_id;
  session_id = run.origin.session_id;
  run_id = some run.id;
  role = MessageRole.assistant;
  content = content;
  created_at = at;
  edited_at = none;
  archived_at = none;
}

-- A run that has ended is returned as it is, one that is not running is refused.
abbrev pub if_running : Run → Db → Result (Run × Db) → Result (Run × Db)
if_running run db next =
    if same_status run.progress.status RunStatus.running
    then next
    else if is_terminal run.progress.status
    then ok (run, db)
    else err run_already_terminal

abbrev pub succeed : (ℕ → ℕ) → Run → String → ℕ → (Run → Db → Result Db) → Db → Result (Run × Db)
succeed now run content message_id also db = do
  db₁ ← add_message (assistant_message message_id run content (now 0)) db
  finish_run run (RunStatus.running ∷ []) RunStatus.succeeded
      (record no_change { finished_at = some (now 1) }) also RunEventType.run_succeeded
      (state RunStatus.succeeded) (now 2) (now 3) db₁

module _ (D : Type 0) (assemble : Run → D → Option DiagnosisResult) where
  -- The operation of `_complete_success`. `assemble` is the ResultAssembler, none where it raises:
  -- those of infrastructure/diagnosis/result_assembler.py read no run, so it is never RunNotFoundError;
  -- `proposes` makes the proposal's snapshot of a result, none without an action service.
  unfoldable pub complete_success :
      (Run → DiagnosisResult → Option Snapshot)
      → (now action_now : ℕ → ℕ) → (message_id new_id : ℕ) → ℕ
      → D
      → Db
      → Result (Run × Db)
  complete_success proposes now action_now message_id new_id i execution_result db = do
    run ← or_raise (get_run i db) run_not_found
    if_running run db do
      result ← or_raise (assemble run execution_result) unexpected
      raise_if (not (result.run_id == run.id)) unexpected
      db₁ ← add_result result db
      succeed now run result.summary message_id
          (λ updated db'. create_proposal_for action_now new_id (proposes updated result) db') db₁

-- The operation of `_complete_main_success`. `validate` is `validate_main_delivery`, `text_of` is
-- `main_delivery_message`, `is_sensitive` is `contains_sensitive_content`.
module _ (validate : MainDelivery → Run → InputSnapshot → Bool) (text_of : MainDelivery → String)
    (is_sensitive : String → Bool) where
  unfoldable pub complete_main_success : (ℕ → ℕ) → ℕ → ℕ → MainDelivery → Db → Result (Run × Db)
  complete_main_success now message_id i delivery db = do
    run ← or_raise (get_run i db) run_not_found
    raise_if (not (is_main run.origin.runtime_kind))
        (execution_error RunFailureCode.main_agent_delivery_invalid)
    if_running run db do
      snapshot ← or_raise (get_input i db) input_unavailable
      raise_if (not (validate delivery run snapshot))
          (execution_error RunFailureCode.main_agent_delivery_invalid)
      raise_if (is_sensitive (text_of delivery))
          (execution_error RunFailureCode.main_agent_delivery_invalid)
      db₁ ← add_delivery i delivery db
      succeed now run (text_of delivery) message_id nothing_else db₁
