-- ===== src/Runs/Rerun.antt =====
-- `rerun_run` of backend/src/application/services.py: a run that has ended is accepted anew, from the
-- input that was frozen for it. `fingerprint` is `_rerun_command_fingerprint` of the source run.
use oper_mind.Base.{
  ℕ, String, not, some, str_eq, if◌then◌else◌, ok, err, ◌>>=◌, ◌>>◌, raise_if, or_raise,
  in_transaction,
}
use oper_mind.Runs.Records.{rerun_endpoint, is_main, is_terminal, Run}
use oper_mind.Runs.Inputs.{main_agent_rule_version}
use oper_mind.Runs.Store.{
  run_not_found, run_not_terminal, input_unavailable, unsupported_rule, integrity, Result, Db,
  get_run, get_input,
}
use oper_mind.Runs.Claim.{input_message_of}
use oper_mind.Runs.Accept.{
  Rules, Command, create_run, rerun_main, Request, NewIds, AcceptedRun, accept_in_transaction,
  reload,
}

-- The command of `_build_rerun_command`, for an original run of the main agent and of a diagnosis.
unfoldable pub main_command : Run → Db → Result Command
main_command original db = do
  snapshot ← or_raise (get_input original.id db) input_unavailable
  raise_if (not (str_eq snapshot.rule_version main_agent_rule_version)) unsupported_rule
  ok (rerun_main original.id snapshot)

unfoldable pub diagnosis_command : Run → Db → Result Command
diagnosis_command original db = do
  message ← input_message_of original db
  ok (create_run (record { query = message.content; service_id = original.origin.service_id }))

abbrev pub rerun_command : Run → Db → Result Command
rerun_command original db =
    if is_main original.origin.runtime_kind
    then main_command original db
    else diagnosis_command original db

module _ (fingerprint : ℕ → Command → String) where
  -- `_build_rerun_command`, with the fingerprint and the parameters of the transaction.
  unfoldable pub build_rerun_request : ℕ → ℕ → Db → Result Request
  build_rerun_request i key db = do
    original ← or_raise (get_run i db) run_not_found
    raise_if (not (is_terminal original.progress.status)) run_not_terminal
    command ← rerun_command original db
    ok (record {
      session_id = original.origin.session_id;
      idempotency_key = key;
      command = command;
      fingerprint = fingerprint i command;
      endpoint = rerun_endpoint;
      rerun_of_run_id = some i;
    })

  -- `_rerun_run_in_transaction`
  unfoldable pub rerun_in_transaction : Rules → NewIds → ℕ → ℕ → ℕ → Db → Result (AcceptedRun × Db)
  rerun_in_transaction rules ids now i key db = do
    r ← build_rerun_request i key db
    accept_in_transaction rules ids now r db

  -- `_load_rerun_idempotency_after_conflict`
  recover_rerun : ℕ → ℕ → Result AcceptedRun × Db → Result AcceptedRun × Db
  recover_rerun i key (err integrity, db) = (build_rerun_request i key db >>= λ r. reload r db, db)
  recover_rerun i key done = done

  -- `rerun_run`
  unfoldable pub rerun_run : Rules → NewIds → ℕ → ℕ → ℕ → Db → Result AcceptedRun × Db
  unfolding recover_rerun
  rerun_run rules ids now i key db =
      recover_rerun i key (in_transaction (rerun_in_transaction rules ids now i key) db)
