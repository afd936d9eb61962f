-- ===== src/Actions/Tests.antt =====
-- Transactions on small tables.
use oper_mind.Base.{
  Option, String, ℕ, ◌+◌, ◌<◌, ◌≡◌, refl, false, none, some, List, [], ◌∷◌, find, update_where,
  count_where,
}
use oper_mind.Actions.Records.{
  approve, reject, Decision, ProposalStatus, Mode, Decision, Snapshot, Progress, Proposal,
  approval_validity, status_value, mode_value, is_terminal,
}
use oper_mind.Actions.Store.{
  err, key_reused, Db, empty_db, get_proposal, get_execution_of, get_key_by_scope,
  transition_proposal, set_progress, advance, reserve_event_sequence, add_event, add_key,
  add_execution, add_approval, get_approval, get_verification, transition_execution,
  write_execution,
}
use oper_mind.Actions.Events.{append_event, safe_action_event_data, detail, in_transaction, settle}
use oper_mind.Actions.Approval.{DecideCommand, decide_in_transaction, decide_new}
use oper_mind.Actions.Claim.{
  ExecuteCommand, queued_execution, request_in_transaction, request_new, claim_approved,
}
use oper_mind.Actions.Execution.{
  execution_failed, error_code, error_message, failure_change, finish_failed,
  finish_execution_terminal,
}
use oper_mind.Actions.Execute.{execute, finish_without_executor}
use oper_mind.Actions.View.{progress_of}
use oper_mind.Actions.Diagram.{Agrees, Allowed}
use oper_mind.Actions.Schedule.{
  Transaction, perform, perform_all, perform-Allowed, schedule-Agrees, terminal_absorbs,
}
use oper_mind.Actions.Guards.{request_needs_approval, no_executor_strands}
use oper_mind.Actions.Replay.{decide_is_idempotent}

abbrev restart : Snapshot
restart = record {
  source_run_id = 40;
  action_id = "restart_service";
  action_digest = "d1";
  mode = Mode.target;
  title = "restart";
  description = "restart the service";
  target = ("service", "demo") ∷ [];
  root_cause_id = 41;
  evidence_ids = 42 ∷ [];
  risk_summary = "low";
  verification_plan = "check" ∷ [];
  created_at = 50;
}

abbrev pending_progress : Progress
pending_progress = record {
  status = ProposalStatus.pending_approval;
  updated_at = 50;
  approved_at = none;
  expires_at = none;
  execution_started_at = none;
  completed_at = none;
  failure_code = none;
  failure_message = none;
}

abbrev approved_progress : Progress
approved_progress = record pending_progress {
  status = ProposalStatus.approved;
  approved_at = some 100;
  expires_at = some (100 + approval_validity);
}

abbrev executing_progress : Progress
executing_progress = record approved_progress {
  status = ProposalStatus.executing;
  execution_started_at = some 200;
}

abbrev rejected_progress : Progress
rejected_progress = record pending_progress {
  status = ProposalStatus.rejected;
  completed_at = some 90;
}

abbrev restart_at : Progress → Proposal
restart_at progress = record {
  id = 1;
  snapshot = restart;
  progress = progress;
  next_event_sequence = 3;
}

abbrev tables_at : Progress → Db
tables_at progress = record empty_db { proposals = restart_at progress ∷ [] }

abbrev claimed_tables : Db
claimed_tables = record (tables_at executing_progress) {
  executions = queued_execution 9 (restart_at executing_progress) 200 ∷ [];
}

abbrev at_200 : ℕ → ℕ
at_200 k = 200

abbrev request_restart : ExecuteCommand
request_restart = record { proposal_id = 1; idempotency_key = 5 }

abbrev approve_restart : DecideCommand
approve_restart = record {
  proposal_id = 1;
  decision = Decision.approve;
  comment = none;
  idempotency_key = 4;
}

abbrev approval_of_restart : Transaction
approval_of_restart = Transaction.decide "f1" at_200 8 approve_restart

perform-Allowed_example :
    Allowed
      (progress_of 1 (tables_at pending_progress))
      (get_execution_of 1 (tables_at pending_progress))
      (progress_of 1 (perform approval_of_restart (tables_at pending_progress)))
      (get_execution_of 1 (perform approval_of_restart (tables_at pending_progress)))
perform-Allowed_example = perform-Allowed approval_of_restart (tables_at pending_progress) 1

abbrev create_and_approve : List Transaction
create_and_approve = Transaction.create at_200 1 (some restart) ∷ approval_of_restart ∷ []

schedule-Agrees_example :
    Agrees
      (progress_of 1 (perform_all create_and_approve empty_db))
      (get_execution_of 1 (perform_all create_and_approve empty_db))
schedule-Agrees_example = schedule-Agrees create_and_approve 1

terminal_absorbs_example :
    progress_of 1 (perform_all create_and_approve (tables_at rejected_progress))
    ≡ some rejected_progress
unfolding progress_of get_proposal find is_terminal
terminal_absorbs_example =
    terminal_absorbs create_and_approve (tables_at rejected_progress) 1 rejected_progress refl refl

request_needs_approval_example :
    (p : Progress) × (t : ℕ) × (progress_of 1 (tables_at approved_progress) ≡ some p)
    × (p.status ≡ ProposalStatus.approved)
    × (p.approved_at ≡ some t)
    × (200 < t + approval_validity)
unfolding progress_of get_proposal get_execution_of find request_in_transaction get_key_by_scope
    request_new claim_approved transition_proposal set_progress advance update_where count_where
    add_execution add_key append_event reserve_event_sequence add_event safe_action_event_data
    status_value mode_value
request_needs_approval_example =
    request_needs_approval "f2" at_200 9 request_restart (tables_at approved_progress) _
      (record {
        execution = queued_execution 9 (restart_at approved_progress) 200;
        replayed = false;
      })
      (refl, refl, refl) refl refl

no_executor_strands_example :
    (progress_of 1 (execute (λ n. at_200) none 1 claimed_tables).1
      ≡ some
          (advance ProposalStatus.failed (failure_change execution_failed 200) executing_progress))
    × (get_execution_of 1 (execute (λ n. at_200) none 1 claimed_tables).1
        ≡ some (queued_execution 9 (restart_at executing_progress) 200))
unfolding get_proposal get_execution_of find execute finish_without_executor in_transaction settle
    finish_failed finish_execution_terminal transition_execution write_execution transition_proposal
    set_progress advance update_where count_where append_event reserve_event_sequence add_event
    safe_action_event_data status_value mode_value error_code error_message
no_executor_strands_example =
    no_executor_strands 1 (restart_at executing_progress)
      (queued_execution 9 (restart_at executing_progress) 200) (λ n. at_200) claimed_tables refl
      refl refl refl refl

-- The fingerprint of a decision, for the test.
abbrev fingerprint_of : Decision → Option String → String
fingerprint_of approve comment = "f1"
fingerprint_of reject comment = "f2"

decide_is_idempotent_example :
    (p : Proposal) × (get_proposal 1 (perform approval_of_restart (tables_at pending_progress))
      ≡ some p)
    × (p.progress.status ≡ ProposalStatus.approved)
    × (decide_in_transaction "f2" at_200 10
          (record approve_restart { decision = reject; comment = none })
          (perform approval_of_restart (tables_at pending_progress))
        ≡ err key_reused)
unfolding perform in_transaction settle decide_in_transaction decide_new get_proposal
    get_key_by_scope find transition_proposal set_progress advance update_where count_where
    add_approval add_key append_event reserve_event_sequence add_event safe_action_event_data
    status_value detail get_approval get_execution_of get_verification
decide_is_idempotent_example =
    decide_is_idempotent fingerprint_of at_200 at_200 8 10 approve_restart reject none
      (tables_at pending_progress) (perform approval_of_restart (tables_at pending_progress)) _ refl
      refl
