-- ===== src/Actions/Events.antt =====
-- What the transactions of `ActionApplicationService`
-- (backend/src/application/action_services.py) share: the audit event with its reserved number, the
-- detail snapshot, the transaction wrapper; and the making of a proposal. `now k` is the reading of
-- the clock by the k-th call of `_utc_now` in a transaction, `new_id` the identifier that `uuid4`
-- gives the row that it adds.
use oper_mind.Base.{
  ℕ, String, count, Bool, ◌&&◌, Option, none, some, List, [], ◌∷◌, leb, ltb, if◌then◌else◌, any,
  str_eq,
}
use oper_mind.Actions.Records.{
  ProposalStatus, EventType, Mode, status_value, mode_value, Snapshot, Proposal, EventData, Detail,
}
use oper_mind.Actions.Store.{
  proposal_not_found, Result, ok, err, ◌>>=◌, or_raise, Db, add_proposal, reserve_event_sequence,
  get_approval, get_execution_of, get_verification, add_event,
}

abbrev keep_if : (String → Bool) → Option String → Option String
keep_if p none = none
keep_if p (some s) = if p s then some s else none

abbrev pub allowed_statuses : List String
allowed_statuses =
    "pending_approval" ∷ "approved" ∷ "rejected" ∷ "expired" ∷ "executing" ∷ "verifying"
    ∷ "verified" ∷ "blocked" ∷ "failed" ∷ "queued" ∷ "running" ∷ "succeeded" ∷ "passed" ∷ []

abbrev pub is_one_of : List String → String → Bool
is_one_of l s = any (str_eq s) l

abbrev pub sized : ℕ → String → Bool
sized n s = ltb 0 (count s) && leb (count s) n

-- `_safe_action_event_data`, whose callers give it texts only.
unfoldable pub safe_action_event_data : EventData → EventData
safe_action_event_data d = record {
  action_id = keep_if (sized 120) d.action_id;
  status = keep_if (is_one_of allowed_statuses) d.status;
  mode = keep_if (is_one_of ("mock" ∷ "target" ∷ [])) d.mode;
  summary = keep_if (sized 500) d.summary;
}

-- `_append_event_in_transaction`
unfoldable pub append_event : ℕ → EventType → EventData → ℕ → Db → Result Db
append_event i type details at db = do
  let (reserved, db') = reserve_event_sequence i db
  n ← or_raise reserved proposal_not_found
  add_event
      (record {
        proposal_id = i;
        sequence = n;
        type = type;
        occurred_at = at;
        details = safe_action_event_data details;
      })
      db'

abbrev pub event_data : String → Mode → String → EventData
event_data status mode summary = record {
  action_id = none;
  status = some status;
  mode = some (mode_value mode);
  summary = some summary;
}

abbrev pub status_event_data : String → String → EventData
status_event_data status summary = record {
  action_id = none;
  status = some status;
  mode = none;
  summary = some summary;
}

unfoldable pub new_proposal : ℕ → Snapshot → ℕ → Proposal
new_proposal new_id snapshot updated_at = record {
  id = new_id;
  snapshot = snapshot;
  progress = record {
    status = ProposalStatus.pending_approval;
    updated_at = updated_at;
    approved_at = none;
    expires_at = none;
    execution_started_at = none;
    completed_at = none;
    failure_code = none;
    failure_message = none;
  };
  next_event_sequence = 1;
}

-- `maybe_create_proposal_in_transaction`, from the snapshot that the matched facts give (none
-- where the mode is not `target` or the facts do not match). `now 0` is the default of `updated_at`.
unfoldable pub create_proposal :
    (now : ℕ → ℕ) (new_id : ℕ) → Option Snapshot → Db → Result (Option Proposal × Db)
unfolding new_proposal
create_proposal now new_id none db = ok (none, db)
create_proposal now new_id (some snapshot) db = do
  let proposal = new_proposal new_id snapshot (now 0)
  db₁ ← add_proposal proposal db
  db₂ ←
      append_event new_id EventType.proposal_created
        (record {
          action_id = some snapshot.action_id;
          status = some (status_value ProposalStatus.pending_approval);
          mode = some (mode_value snapshot.mode);
          summary = some "已生成受控靶场固定动作提案。";
        })
        (now 1) db₁
  ok (some proposal, db₂)

-- `_detail`
unfoldable pub detail : Proposal → Db → Detail
detail p db = record {
  proposal = p;
  approval = get_approval p.id db;
  execution = get_execution_of p.id db;
  verification = elim (get_execution_of p.id db) [
    | none ↦ none
    | some e ↦ get_verification e.id db
  ];
}

-- `_in_transaction`: an exception drops what the operation wrote.
unfoldable pub settle {ℓ} : {A : Type ℓ} → Db → Result (A × Db) → Result A × Db
settle db (ok (a, db')) = (ok a, db')
settle db (err e) = (err e, db)

unfoldable pub in_transaction {ℓ} : {A : Type ℓ} → (Db → Result (A × Db)) → Db → Result A × Db
unfolding settle
in_transaction op db = settle db (op db)
