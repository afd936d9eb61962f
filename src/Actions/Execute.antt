-- ===== src/Actions/Execute.antt =====
-- `execute` of backend/src/application/action_services.py as a sequence of transactions, with the
-- calls of the executor between them.
use oper_mind.Base.{ℕ, Option, none, some}
use oper_mind.Actions.Records.{Proposal, Execution}
use oper_mind.Actions.Store.{unexpected, Result, ok, err, Db, get_proposal, get_execution_of}
use oper_mind.Actions.Events.{in_transaction}
use oper_mind.Actions.Execution.{
  execution_failed, precondition_blocked, verification_failed, Outcome, returned, controlled,
  os_or_value_error, other_error, Verdict, Attempt, Executor, claim_execution, record_success,
  start_verification, finish_verified, finish_verification_failed, finish_blocked, finish_failed,
}

abbrev OutcomeOfCall : Type 0
OutcomeOfCall = Result (Unit {0}) × Db

-- Continue with the next transaction unless an exception left the call.
abbrev and_then : OutcomeOfCall → (Db → OutcomeOfCall) → OutcomeOfCall
and_then (ok _, db) next = next db
and_then (err e, db) next = (err e, db)

-- The second half: the executor's independent check and its record.
finish_verify : (ℕ → ℕ) → Proposal → Execution → Outcome Verdict → Db → OutcomeOfCall
finish_verify now p e (returned v) db = in_transaction (finish_verified now p e v) db
finish_verify now p e (controlled error) db =
    in_transaction (finish_verification_failed now p e error) db
finish_verify now p e os_or_value_error db =
    in_transaction (finish_verification_failed now p e verification_failed) db
finish_verify now p e other_error db = (err unexpected, db)

-- The first half: what the executor's attempt leads to.
finish_attempt :
    (ℕ → ℕ → ℕ) → Executor → Proposal → Execution → Outcome Attempt → Db → OutcomeOfCall
unfolding finish_verify
finish_attempt clock x p e (returned a) db =
    and_then (in_transaction (record_success (clock 1) p e a) db) λ db₁.
      and_then (in_transaction (start_verification (clock 2) p.id) db₁)
        λ db₂. finish_verify (clock 3) p e (x.verify p) db₂
finish_attempt clock x p e (controlled precondition_blocked) db =
    in_transaction (finish_blocked (clock 1) p e precondition_blocked) db
finish_attempt clock x p e (controlled error) db =
    in_transaction (finish_failed (clock 1) p e error) db
finish_attempt clock x p e os_or_value_error db =
    in_transaction (finish_failed (clock 1) p e execution_failed) db
finish_attempt clock x p e other_error db = (err unexpected, db)

after_claim : (ℕ → ℕ → ℕ) → Executor → Result (Option (Proposal × Execution)) × Db → OutcomeOfCall
unfolding finish_attempt
after_claim clock x (err e, db) = (err e, db)
after_claim clock x (ok none, db) = (ok tt, db)
after_claim clock x (ok (some (p, e)), db) = finish_attempt clock x p e (x.execute p) db

-- `_finish_without_executor`
unfoldable pub finish_without_executor : (ℕ → ℕ) → ℕ → Db → OutcomeOfCall
finish_without_executor now i db = elim (get_proposal i db) [
  | none ↦ (ok tt, db)
  | some p ↦ elim (get_execution_of i db) [
    | none ↦ (ok tt, db)
    | some e ↦ in_transaction (finish_failed now p e execution_failed) db
  ]
]

-- `ActionApplicationService.execute`
unfoldable pub execute : (ℕ → ℕ → ℕ) → Option Executor → ℕ → Db → OutcomeOfCall
unfolding after_claim
execute clock none i db = finish_without_executor (clock 0) i db
execute clock (some x) i db = after_claim clock x (in_transaction (claim_execution (clock 0) i) db)
