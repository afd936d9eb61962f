-- ===== src/Actions/Store.antt =====
-- The tables of the controlled actions and their repositories
-- (backend/src/infrastructure/persistence/action_repositories.py), with the unique constraints of
-- backend/src/infrastructure/persistence/models.py. A table is the list of its rows. What a
-- repository raises, or the database refuses, is an `ActionError`.
use mathlib.Core.Option as Opt
use oper_mind.Base.{
  ℕ, ◌-◌, ◌+◌, String, count, Bool, true, false, ◌&&◌, ◌||◌, Option, none, some, List, [], ◌∷◌,
  ◌++◌, ◌==◌, leb, if◌then◌else◌, any, find, update_where, count_where,
}
use oper_mind.Actions.Records.{
  ProposalStatus, ExecutionStatus, Endpoint, same_status, same_execution_status, same_endpoint,
  Progress, Proposal, Approval, Execution, Verification, Event, IdempotencyKey,
}

-- `integrity` is sqlalchemy's IntegrityError, `validation` is pydantic's ValidationError.
pub data ActionError : Type 0 where
  proposal_not_found invalid_state proposal_expired key_reused integrity validation unexpected :
      ActionError

pub data Result {ℓ} (A : Type ℓ) : Type ℓ where
  ok : A → Result A
  err : ActionError → Result A

infixl 5 ◌>>=◌ ◌>>◌
abbrev pub ◌>>=◌ {ℓ κ} : {A : Type ℓ} {B : Type κ} → Result A → (A → Result B) → Result B
ok value >>= next = next value
err raised >>= next = err raised

abbrev pub ◌>>◌ {ℓ} : {B : Type ℓ} → Result (Unit {0}) → Result B → Result B
check >> rest = check >>= λ _. rest

abbrev pub raise_if : Bool → ActionError → Result (Unit {0})
raise_if true e = err e
raise_if false e = ok tt

abbrev pub or_raise {ℓ} : {A : Type ℓ} → Option A → ActionError → Result A
or_raise none e = err e
or_raise (some a) e = ok a

pub record Db : Type 0 where
  pub proposals : List Proposal
  pub approvals : List Approval
  pub executions : List Execution
  pub verifications : List Verification
  pub events : List Event
  pub keys : List IdempotencyKey

abbrev pub empty_db : Db
empty_db = record {
  proposals = [];
  approvals = [];
  executions = [];
  verifications = [];
  events = [];
  keys = [];
}

-- SqlAlchemyActionProposalRepository
abbrev pub has_id : ℕ → Proposal → Bool
has_id i p = p.id == i

abbrev pub from_run : ℕ → Proposal → Bool
from_run r p = p.snapshot.source_run_id == r

-- The table has a primary key `id`, and `source_run_id` is unique.
unfoldable pub add_proposal : Proposal → Db → Result Db
add_proposal p db =
    if any (has_id p.id) db.proposals || any (from_run p.snapshot.source_run_id) db.proposals
    then err integrity
    else ok (record db { proposals = db.proposals ++ p ∷ [] })

unfoldable pub get_proposal : ℕ → Db → Option Proposal
get_proposal i db = find (has_id i) db.proposals

unfoldable pub get_proposal_by_source_run : ℕ → Db → Option Proposal
get_proposal_by_source_run r db = find (from_run r) db.proposals

-- The keyword arguments of `transition_status`; an absent one leaves its column alone.
pub record ProposalChange : Type 0 where
  pub updated_at : ℕ
  pub approved_at : Option ℕ
  pub expires_at : Option ℕ
  pub execution_started_at : Option ℕ
  pub completed_at : Option ℕ
  pub failure_code : Option String
  pub failure_message : Option String

abbrev pub change_at : ℕ → ProposalChange
change_at now = record {
  updated_at = now;
  approved_at = none;
  expires_at = none;
  execution_started_at = none;
  completed_at = none;
  failure_code = none;
  failure_message = none;
}

abbrev pub or_keep {ℓ} : {A : Type ℓ} → Option A → Option A → Option A
or_keep none old = old
or_keep (some a) old = some a

unfoldable pub advance : ProposalStatus → ProposalChange → Progress → Progress
advance s c p = record {
  status = s;
  updated_at = c.updated_at;
  approved_at = or_keep c.approved_at p.approved_at;
  expires_at = or_keep c.expires_at p.expires_at;
  execution_started_at = or_keep c.execution_started_at p.execution_started_at;
  completed_at = or_keep c.completed_at p.completed_at;
  failure_code = or_keep c.failure_code p.failure_code;
  failure_message = or_keep c.failure_message p.failure_message;
}

unfoldable pub set_progress : ProposalStatus → ProposalChange → Proposal → Proposal
set_progress s c p = record p { progress = advance s c p.progress }

-- The WHERE clause of the compare-and-set. Every call expects exactly one status.
abbrev pub is_at : ℕ → ProposalStatus → Proposal → Bool
is_at i expected p = p.id == i && same_status p.progress.status expected

unfoldable pub transition_proposal :
    ℕ → ProposalStatus → ProposalStatus → ProposalChange → Db → Option Proposal × Db
unfolding set_progress get_proposal
transition_proposal i expected s c db =
    let db' : Db = record db {
      proposals = update_where (is_at i expected) (set_progress s c) db.proposals;
    } in
    (if count_where (is_at i expected) db.proposals == 1 then get_proposal i db' else none, db')

abbrev pub bump_sequence : Proposal → Proposal
bump_sequence p = record p { next_event_sequence = p.next_event_sequence + 1 }

-- The number that the new event takes, and the advanced counter.
unfoldable pub reserve_event_sequence : ℕ → Db → Option ℕ × Db
unfolding get_proposal
reserve_event_sequence i db =
    let db' : Db = record db { proposals = update_where (has_id i) bump_sequence db.proposals } in
    (Opt.map (λ p. p.next_event_sequence - 1) (get_proposal i db'), db')

-- SqlAlchemyActionApprovalRepository
abbrev pub approval_of : ℕ → Approval → Bool
approval_of i a = a.proposal_id == i

unfoldable pub add_approval : Approval → Db → Result Db
add_approval a db =
    if any (approval_of a.proposal_id) db.approvals
    then err integrity
    else ok (record db { approvals = db.approvals ++ a ∷ [] })

unfoldable pub get_approval : ℕ → Db → Option Approval
get_approval i db = find (approval_of i) db.approvals

-- SqlAlchemyActionExecutionRepository
abbrev pub execution_of : ℕ → Execution → Bool
execution_of i e = e.proposal_id == i

abbrev pub execution_id_is : ℕ → Execution → Bool
execution_id_is i e = e.id == i

unfoldable pub add_execution : Execution → Db → Result Db
add_execution e db =
    if any (execution_of e.proposal_id) db.executions || any (execution_id_is e.id) db.executions
    then err integrity
    else ok (record db { executions = db.executions ++ e ∷ [] })

unfoldable pub get_execution_of : ℕ → Db → Option Execution
get_execution_of i db = find (execution_of i) db.executions

unfoldable pub get_execution : ℕ → Db → Option Execution
get_execution i db = find (execution_id_is i) db.executions

pub record ExecutionChange : Type 0 where
  pub started_at : Option ℕ
  pub finished_at : Option ℕ
  pub precondition_summary : Option String
  pub action_summary : Option String
  pub failure_code : Option String
  pub failure_message : Option String

abbrev pub no_change : ExecutionChange
no_change = record {
  started_at = none;
  finished_at = none;
  precondition_summary = none;
  action_summary = none;
  failure_code = none;
  failure_message = none;
}

unfoldable pub set_execution : ExecutionStatus → ExecutionChange → Execution → Execution
set_execution s c e = record e {
  status = s;
  started_at = or_keep c.started_at e.started_at;
  finished_at = or_keep c.finished_at e.finished_at;
  precondition_summary = or_keep c.precondition_summary e.precondition_summary;
  action_summary = or_keep c.action_summary e.action_summary;
  failure_code = or_keep c.failure_code e.failure_code;
  failure_message = or_keep c.failure_message e.failure_message;
}

abbrev pub execution_is_at : ℕ → ExecutionStatus → Execution → Bool
execution_is_at i expected e = e.id == i && same_execution_status e.status expected

abbrev fits : ℕ → Option String → Bool
fits n none = true
fits n (some s) = leb (count s) n

-- The length limits of `ActionExecutionData`, checked when the updated row is read back.
unfoldable pub is_valid_execution : Execution → Bool
is_valid_execution e =
    fits 500 e.precondition_summary
    && fits 500 e.action_summary
    && fits 80 e.failure_code
    && fits 500 e.failure_message

unfoldable pub read_back : Option Execution → Db → Result (Option Execution × Db)
read_back none db = ok (none, db)
read_back (some e) db = if is_valid_execution e then ok (some e, db) else err validation

unfoldable pub write_execution : ℕ → ExecutionStatus → ExecutionStatus → ExecutionChange → Db → Db
write_execution i expected s c db = record db {
  executions = update_where (execution_is_at i expected) (set_execution s c) db.executions;
}

unfoldable pub transition_execution :
    ℕ → ExecutionStatus → ExecutionStatus → ExecutionChange → Db → Result (Option Execution × Db)
transition_execution i expected s c db =
    let db' = write_execution i expected s c db in
    if count_where (execution_is_at i expected) db.executions == 1
    then read_back (get_execution i db') db'
    else ok (none, db')

-- SqlAlchemyActionVerificationRepository
abbrev pub verification_of : ℕ → Verification → Bool
verification_of i v = v.execution_id == i

abbrev pub is_bad_summary : String → Bool
is_bad_summary s = leb (count s) 0 || leb 501 (count s)

-- `summary` has between 1 and 500 code points, or the record is not built.
unfoldable pub add_verification : Verification → Db → Result Db
add_verification v db =
    if is_bad_summary v.summary
    then err validation
    else if any (verification_of v.execution_id) db.verifications
    then err integrity
    else ok (record db { verifications = db.verifications ++ v ∷ [] })

unfoldable pub get_verification : ℕ → Db → Option Verification
get_verification i db = find (verification_of i) db.verifications

-- SqlAlchemyActionEventRepository
abbrev pub event_at : ℕ → ℕ → Event → Bool
event_at i n e = e.proposal_id == i && e.sequence == n

unfoldable pub add_event : Event → Db → Result Db
add_event e db =
    if any (event_at e.proposal_id e.sequence) db.events
    then err integrity
    else ok (record db { events = db.events ++ e ∷ [] })

-- SqlAlchemyActionIdempotencyKeyRepository
abbrev pub in_scope : ℕ → Endpoint → ℕ → IdempotencyKey → Bool
in_scope i endpoint key k =
    k.proposal_id == i && same_endpoint k.endpoint endpoint && k.idempotency_key == key

unfoldable pub add_key : IdempotencyKey → Db → Result Db
add_key k db =
    if any (in_scope k.proposal_id k.endpoint k.idempotency_key) db.keys
    then err integrity
    else ok (record db { keys = db.keys ++ k ∷ [] })

unfoldable pub get_key_by_scope : ℕ → Endpoint → ℕ → Db → Option IdempotencyKey
get_key_by_scope i endpoint key db = find (in_scope i endpoint key) db.keys
