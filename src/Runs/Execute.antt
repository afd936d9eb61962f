-- ===== src/Runs/Execute.antt =====
-- `execute_run` of backend/src/application/services.py: a claimed run is executed from its signals, and
-- ends. Each transaction of the execution comes after whatever other requests have committed in the
-- meantime: `others k` are those before the k-th one. An executor is the stream that it answers for an
-- input; its guard is in Stream.
use oper_mind.Base.{
  ℕ, suc, String, true, false, Option, none, some, List, [], ◌∷◌, if◌then◌else◌, ok, err, or_raise,
  in_transaction,
}
use oper_mind.Agent.Records.{MainDelivery}
use oper_mind.Stream.Guard.{Source}
use oper_mind.Stream.Run as Typed
use oper_mind.Stream.Run.{
  RunFailureCode, RunSignal, RunItem, RunError as StreamError, guard_run_stream, safe_message,
}
use oper_mind.Stream.Runtime as Legacy
use oper_mind.Stream.Runtime.{RuntimeSignal, RuntimeItem, RuntimeError, guard_runtime_stream}
use oper_mind.Runs.Records.{RunRuntimeKind, Run, is_main}
use oper_mind.Runs.Store.{
  run_not_found, input_unavailable, unexpected, execution_error, Result, Db, get_run, is_cancelled,
}
use oper_mind.Runs.Lifecycle.{complete_failure, append_any, append_execution_event}
use oper_mind.Runs.Complete.{complete_success, complete_main_success}
use oper_mind.Runs.Claim.{ExecutionInput, diagnosis_input, claim_run}
use oper_mind.Runs.EventData.{ExecutionEvent, safe_event_data}
use oper_mind.Runs.Schedule.{Ports, Transaction, perform_all}

-- `RunFailureCode.value`
unfoldable pub code_value : RunFailureCode → String
code_value RunFailureCode.diagnosis_failed = "DIAGNOSIS_FAILED"
code_value RunFailureCode.main_agent_failed = "MAIN_AGENT_FAILED"
code_value RunFailureCode.main_agent_model_unavailable = "MAIN_AGENT_MODEL_UNAVAILABLE"
code_value RunFailureCode.main_agent_decision_invalid = "MAIN_AGENT_DECISION_INVALID"
code_value RunFailureCode.main_agent_capability_unavailable = "MAIN_AGENT_CAPABILITY_UNAVAILABLE"
code_value RunFailureCode.main_agent_tool_failed = "MAIN_AGENT_TOOL_FAILED"
code_value RunFailureCode.main_agent_input_unavailable = "MAIN_AGENT_INPUT_UNAVAILABLE"
code_value RunFailureCode.main_agent_delivery_invalid = "MAIN_AGENT_DELIVERY_INVALID"
code_value RunFailureCode.main_agent_rule_unavailable = "MAIN_AGENT_RULE_UNAVAILABLE"
code_value RunFailureCode.main_agent_budget_exhausted = "MAIN_AGENT_BUDGET_EXHAUSTED"

module _ (p : Ports) where
  -- What an execution runs with: the executors, the sets of registered identifiers, the clock and the
  -- new identifiers of its transactions, and the transactions of others.
  pub record Setting : Type 0 where
    pub diagnose :
        ExecutionInput → Source (RuntimeItem ExecutionEvent p.D) (RuntimeError ExecutionEvent p.D)
    pub run_executor : Option (
        ExecutionInput
        → Source
            (RunItem ExecutionEvent p.D MainDelivery)
            (StreamError ExecutionEvent p.D MainDelivery))
    pub service_ids : List String
    pub capability_ids : List String
    pub now : ℕ → ℕ → ℕ
    pub action_now : ℕ → ℕ
    pub message_id : ℕ
    pub proposal_id : ℕ
    pub others : ℕ → List (Transaction p)

  -- The database, and the number of the transactions that the execution has made.
  abbrev pub World : Type 0
  World = Db × ℕ

  -- What follows a transaction, unless it raised.
  abbrev pub and_then {ℓ κ} :
      {A : Type ℓ} {B : Type κ}
      → Result A × World
      → (A → World → Result B × World)
      → Result B × World
  and_then (ok a, w) next = next a w
  and_then (err raised, w) next = (err raised, w)

  module _ (s : Setting) where
    -- What the execution finds when its next transaction begins.
    unfoldable pub arrive : World → Db
    arrive w = perform_all p (s.others w.1) w.0

    -- One transaction of the execution.
    unfoldable pub turn {ℓ} : {A : Type ℓ} → (Db → Result (A × Db)) → World → Result A × World
    turn op w = let (r, db) = in_transaction op (arrive w) in (r, (db, suc w.1))

    -- `_load_run`, a read.
    unfoldable pub load_run : ℕ → World → Result Run × World
    load_run i w = (or_raise (get_run i (arrive w)) run_not_found, (arrive w, suc w.1))

    unfoldable pub fail_run : ℕ → RunFailureCode → World → Result Run × World
    fail_run i code w =
        turn (complete_failure (s.now w.1) i (code_value code) (safe_message code)) w

    -- The loop of `_execute_typed`, for a run of the main agent.
    unfoldable pub play_typed :
        ℕ → List (RunSignal ExecutionEvent p.D MainDelivery) → World → Result Run × World
    play_typed i [] w = (err (execution_error RunFailureCode.main_agent_failed), w)
    play_typed i (Typed.event e ∷ rest) w =
        and_then
          (turn
            (append_execution_event i e.type (safe_event_data s.service_ids s.capability_ids e)
              e.occurred_at)
            w)
          λ accepted w'. elim accepted [ false ↦ load_run i w' | true ↦ play_typed i rest w' ]
    play_typed i (Typed.failure code ∷ rest) w = fail_run i code w
    play_typed i (Typed.diagnosis d ∷ rest) w =
        (err (execution_error RunFailureCode.main_agent_delivery_invalid), w)
    play_typed i (Typed.delivery d ∷ rest) w =
        turn
          (complete_main_success p.validate p.text_of p.is_sensitive (s.now w.1) s.message_id i d) w

    -- `_execute_typed`
    unfoldable pub execute_typed : ℕ → Option ExecutionInput → World → Result Run × World
    execute_typed i input w = elim s.run_executor [
      | none ↦ (err (execution_error RunFailureCode.main_agent_failed), w)
      | some executor ↦ elim input [
        | none ↦ (err (execution_error RunFailureCode.main_agent_input_unavailable), w)
        | some given ↦
            play_typed i (guard_run_stream _ _ _ RunFailureCode.main_agent_failed (executor given))
              w
      ]
    ]

    -- The loop of `_execute_legacy`: the test of a cancellation and the event are two transactions.
    unfoldable pub play_legacy :
        ℕ → List (RuntimeSignal ExecutionEvent p.D) → World → Result Run × World
    play_legacy i [] w = (err unexpected, w)
    play_legacy i (Legacy.runtime_event e ∷ rest) w =
        let w₁ : World = (arrive w, suc w.1) in
        elim (is_cancelled i w₁.0) [
          | true ↦ load_run i w₁
          | false ↦
              and_then
                (turn
                  (append_any i e.type (safe_event_data s.service_ids s.capability_ids e)
                    e.occurred_at)
                  w₁)
                λ _ w'. play_legacy i rest w'
        ]
    play_legacy i (Legacy.runtime_failure code message ∷ rest) w =
        fail_run i RunFailureCode.diagnosis_failed w
    play_legacy i (Legacy.runtime_result d ∷ rest) w =
        turn
          (complete_success p.D p.assemble p.proposes (s.now w.1) s.action_now s.message_id
            s.proposal_id i d)
          w

    -- `_execute_legacy`
    unfoldable pub execute_legacy : ℕ → Option ExecutionInput → World → Result Run × World
    execute_legacy i (some (diagnosis_input query service_id)) w = and_then (load_run i w) λ run w'.
        play_legacy i
          (guard_runtime_stream _ _ (s.diagnose (diagnosis_input query run.origin.service_id))) w'
    execute_legacy i input w = (err unexpected, w)

    -- The body of the `try` of `execute_run`, with the kind of the run that it has claimed, for the
    -- handler.
    unfoldable pub attempt : ℕ → Run × Option ExecutionInput → World → Result Run × World
    attempt i (running, none) w = (ok running, w)
    attempt i (running, some input) w =
        if is_main running.origin.runtime_kind
        then execute_typed i (some input) w
        else execute_legacy i (some input) w

    -- `_failure_code_for_run`, a read.
    unfoldable pub failure_code_for_run : ℕ → RunRuntimeKind → World → RunFailureCode × World
    failure_code_for_run i fallback w =
        let kind : RunRuntimeKind = elim (get_run i (arrive w)) [
          | none ↦ fallback
          | some run ↦ run.origin.runtime_kind
        ] in
        (
          (if is_main kind
              then RunFailureCode.main_agent_failed
              else RunFailureCode.diagnosis_failed),
          (arrive w, suc w.1),
        )

    -- The handlers of `execute_run`.
    unfoldable pub handle : ℕ → RunRuntimeKind → Result Run × World → Result Run × World
    handle i kind (ok run, w) = (ok run, w)
    handle i kind (err run_not_found, w) = (err run_not_found, w)
    handle i kind (err (execution_error code), w) = fail_run i code w
    handle i kind (err input_unavailable, w) =
        fail_run i RunFailureCode.main_agent_input_unavailable w
    handle i kind (err _, w) = let (code, w') = failure_code_for_run i kind w in fail_run i code w'

    unfoldable pub after_claim :
        ℕ → Result (Run × Option ExecutionInput) × World → Result Run × World
    after_claim i (err raised, w) = handle i RunRuntimeKind.diagnosis (err raised, w)
    after_claim i (ok claimed, w) = handle i claimed.0.origin.runtime_kind (attempt i claimed w)

    -- `execute_run`
    unfoldable pub execute_run : ℕ → World → Result Run × World
    execute_run i w = after_claim i (turn (claim_run (s.now w.1) i) w)
