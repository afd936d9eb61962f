-- ===== src/Actions/Guards.antt =====
-- Who may start an execution, and what happens without an executor: `request_execution` and
-- `execute` of backend/src/application/action_services.py.
use mathlib.Core.Path.{subst}
use mathlib.Core.Option as Opt
use oper_mind.Base.{
  ℕ, ◌+◌, ◌<◌, ◌≡◌, refl, ap, inl, inr, true, false, not, String, Option, none, some, arith,
  Option-cases, Bool-cases, ◌&&◌, str_eq, Bool, ◌==◌,
}
use oper_mind.Actions.Records.{
  Progress, Proposal, Execution, ProposalStatus, ExecutionStatus, same_status,
  same_execution_status, approval_validity, execution_endpoint,
}
use oper_mind.Actions.Store.{
  Result, ok, err, Db, get_proposal, get_execution_of, get_key_by_scope, advance, get_execution,
  ProposalChange, ExecutionChange, proposal_not_found, invalid_state, key_reused,
  transition_execution,
}
use oper_mind.Actions.Events.{in_transaction, append_event, settle}
use oper_mind.Actions.Claim.{
  ExecuteCommand, AcceptedExecution, is_past, claim_approved, expire_approved, request_new,
  request_replay, request_in_transaction,
}
use oper_mind.Actions.Execution.{
  execution_failed, finish_failed, finish_execution_terminal, failure_change,
}
use oper_mind.Actions.Execute.{execute, finish_without_executor}
use oper_mind.Actions.View.{
  Post, Post-bind, Post-or_raise, Post-raise_if, progress_of, At, get_proposal-id, append_event-At,
  transition_execution-At, moved, run_moved, progress_of-transition, get_execution_of-transition,
}
use oper_mind.Actions.Diagram.{Agrees, Stamped, was_approved}

-- A new claim was made on an approved proposal before its approval expired.
abbrev Fresh : (now : ℕ) → ExecuteCommand → Db → AcceptedExecution → Type 0
Fresh now c db a =
    a.replayed ≡ false
    → (p : Proposal) × (get_proposal c.proposal_id db ≡ some p)
      × (p.progress.status ≡ ProposalStatus.approved)
      × (is_past p.progress.expires_at now ≡ false)

abbrev FreshResult : (now : ℕ) → ExecuteCommand → Db → Option AcceptedExecution × Db → Type 0
FreshResult now c db (none, _) = Unit
FreshResult now c db (some a, _) = Fresh now c db a

any-Post {ℓ κ} : {A : Type ℓ} (P : A → Type κ) (r : Result A) → ((a : A) → P a) → Post P r
any-Post P (ok a) h = h a
any-Post P (err e) h = tt

approved-eq :
    (s : ProposalStatus)
    → same_status s ProposalStatus.approved ≡ true
    → s ≡ ProposalStatus.approved
approved-eq s h = ground arith

expire-Fresh :
    (now : ℕ → ℕ) (c : ExecuteCommand) (p : Proposal) (db : Db)
    → Post (FreshResult (now 0) c db) (expire_approved now p db)
unfolding expire_approved
expire-Fresh now c p db =
    Post-bind (λ _. Unit {0}) (FreshResult (now 0) c db) (append_event _ _ _ _ _) _
      (any-Post (λ _. Unit {0}) _ (λ _. tt)) λ _ _. tt

request-Fresh :
    (f : String) (now : ℕ → ℕ) (new_id : ℕ) (c : ExecuteCommand) (db : Db)
    → Post (FreshResult (now 0) c db) (request_new f now new_id c db)
unfolding request_new
request-Fresh f now new_id c db =
    Post-or_raise (FreshResult (now 0) c db) (get_proposal c.proposal_id db) proposal_not_found _
      λ p found. elim (Bool-cases (same_status p.progress.status ProposalStatus.approved)) [
        | inr other ↦ rw other tt
        | inl at ↦ elim (Bool-cases (is_past p.progress.expires_at (now 0))) [
          | inl past ↦ rw (at, past) (expire-Fresh now c p db)
          | inr live ↦
              rw (at, live)
                (any-Post (FreshResult (now 0) c db) (claim_approved f now new_id c p db)
                  λ (r : Option AcceptedExecution × Db).
                    fresh p found (approved-eq p.progress.status at) live r.0 r.1)
        ]
      ]
  where
    fresh :
        (p : Proposal)
        → get_proposal c.proposal_id db ≡ some p
        → p.progress.status ≡ ProposalStatus.approved
        → is_past p.progress.expires_at (now 0) ≡ false
        → (o : Option AcceptedExecution) (db' : Db) → FreshResult (now 0) c db (o, db')
    fresh p found at live none db' = tt
    fresh p found at live (some a) db' = λ _. (p, found, at, live)

replay-Fresh :
    (resource : ℕ) (stored f : String) (now : ℕ) (c : ExecuteCommand) (db : Db)
    → Post (FreshResult now c db) (request_replay resource stored f db)
unfolding request_replay
replay-Fresh resource stored f now c db =
    Post-raise_if (FreshResult now c db) (not (str_eq stored f)) key_reused _ λ _.
      Post-or_raise (FreshResult now c db) (get_execution resource db) invalid_state _
        λ e _. λ h. cc

claim-Fresh :
    (f : String) (now : ℕ → ℕ) (new_id : ℕ) (c : ExecuteCommand) (db : Db)
    → Post (FreshResult (now 0) c db) (request_in_transaction f now new_id c db)
unfolding request_in_transaction
claim-Fresh f now new_id c db =
    elim (Option-cases (get_key_by_scope c.proposal_id execution_endpoint c.idempotency_key db)) [
      | inl fresh ↦ rw (fresh, request_in_transaction) (request-Fresh f now new_id c db)
      | inr (k, found) ↦
          rw (found, request_in_transaction)
            (replay-Fresh k.resource_id k.request_fingerprint f (now 0) c db)
    ]

within_stamp :
    (a x : Option ℕ) (now : ℕ)
    → Stamped true a x
    → is_past x now ≡ false
    → (t : ℕ) × (a ≡ some t) × (now < t + approval_validity)
within_stamp none none now h live = absurd h
within_stamp none (some x) now h live = absurd h
within_stamp (some a) none now h live = absurd h
within_stamp (some a) (some x) now h live = (a, refl, ground arith)

within_validity :
    (p : Progress) (e : Option Execution) (now : ℕ)
    → Agrees (some p) e
    → p.status ≡ ProposalStatus.approved
    → is_past p.expires_at now ≡ false
    → (t : ℕ) × (p.approved_at ≡ some t) × (now < t + approval_validity)
within_validity p e now h at live =
    within_stamp p.approved_at p.expires_at now
      (subst (λ s. Stamped (was_approved s) p.approved_at p.expires_at) at h.1) live

-- Where the rows of the proposal agree, a new execution is accepted only if the proposal was approved
-- and less than 15 minutes have passed since the approval.
pub request_needs_approval :
    (f : String) (now : ℕ → ℕ) (new_id : ℕ) (c : ExecuteCommand) (db db' : Db)
    (a : AcceptedExecution)
    → Agrees (progress_of c.proposal_id db) (get_execution_of c.proposal_id db)
    → request_in_transaction f now new_id c db ≡ ok (some a, db')
    → a.replayed ≡ false
    → (p : Progress) × (t : ℕ) × (progress_of c.proposal_id db ≡ some p)
      × (p.status ≡ ProposalStatus.approved)
      × (p.approved_at ≡ some t)
      × (now 0 < t + approval_validity)
unfolding progress_of
request_needs_approval f now new_id c db db' a agrees h new =
    let (p, found, at, live) =
      subst (Post (FreshResult (now 0) c db)) h (claim-Fresh f now new_id c db) new in
    let (t, stamp, early) =
      within_validity p.progress (get_execution_of c.proposal_id db) (now 0)
        (subst (λ o. Agrees o (get_execution_of c.proposal_id db))
          (ap (Opt.map (λ p. p.progress)) found) agrees)
        at live in
    (p.progress, t, ap (Opt.map (λ p. p.progress)) found, at, stamp, early)

queued_unmoved :
    (s : ExecutionStatus) (c : ExecutionChange) (e : Execution)
    → e.status ≡ ExecutionStatus.queued
    → run_moved e.id ExecutionStatus.running s c e ≡ e
queued_unmoved s c e h = rw (miss e.status h (e.id == e.id))
  where
    miss :
        (t : ExecutionStatus)
        → t ≡ ExecutionStatus.queued
        → (b : Bool) → (b && same_execution_status t ExecutionStatus.running) ≡ false
    miss t h b = ground arith

moved_hit :
    (i k : ℕ) (expected s : ProposalStatus) (c : ProposalChange) (p : Progress)
    → k ≡ i
    → p.status ≡ expected
    → moved i k expected s c p ≡ advance s c p
moved_hit i k expected s c p same at = rw (hit p.status at)
  where
    hit : (t : ProposalStatus) → t ≡ expected → (i == k && same_status t expected) ≡ true
    hit t h = ground arith

module _ (i : ℕ) (p : Proposal) (e : Execution) (now : ℕ → ℕ) where
  -- What is left without an executor: a failed proposal over an execution that is still queued.
  abbrev Stranded : Option Progress → Option Execution → Type 0
  Stranded q x =
      (q
        ≡ some (advance ProposalStatus.failed (failure_change execution_failed (now 0)) p.progress))
      × (x ≡ some e)

  finish-Stranded :
      (db : Db)
      → get_proposal i db ≡ some p
      → p.progress.status ≡ ProposalStatus.executing
      → get_execution_of i db ≡ some e
      → e.status ≡ ExecutionStatus.queued
      → Post (λ (r : Unit {0} × Db). At Stranded i r.1) (finish_failed now p e execution_failed db)
  unfolding finish_failed finish_execution_terminal progress_of
  finish-Stranded db found at row queued =
      Post-bind
        (λ (r : Option Execution × Db). At (λ q x. (q ≡ some p.progress) × (x ≡ some e)) i r.1)
        (λ (r : Unit {0} × Db). At Stranded i r.1)
        (transition_execution e.id ExecutionStatus.running ExecutionStatus.failed _ db) _
        (transition_execution-At (λ q x. (q ≡ some p.progress) × (x ≡ some e)) i _ _ _ _ db
          (ap (Opt.map (λ p. p.progress)) found, rw row (ap some (queued_unmoved _ _ e queued))))
        λ r q.
          Post-bind (At Stranded i) (λ (r : Unit {0} × Db). At Stranded i r.1) _ _
            (append_event-At Stranded i p.id _ _ _ _ (
              rw (progress_of-transition, get_execution_of-transition)
                (
                  rw q.0 (
                      ap some
                        (moved_hit i p.id _ _ _ p.progress (get_proposal-id i db p found) at)),
                  q.1,
                )))
            λ db₃ q₃. q₃

  finish_result :
      (db : Db) (r : Result (Unit {0} × Db))
      → Post (λ (r : Unit {0} × Db). At Stranded i r.1) r
      → (settle db r).0 ≡ ok tt
      → At Stranded i (settle db r).1
  unfolding settle
  finish_result db (ok r) h o = h
  finish_result db (err x) h o = cc

  without-Stranded :
      (db : Db)
      → get_proposal i db ≡ some p
      → p.progress.status ≡ ProposalStatus.executing
      → get_execution_of i db ≡ some e
      → e.status ≡ ExecutionStatus.queued
      → (finish_without_executor now i db).0 ≡ ok tt
      → At Stranded i (finish_without_executor now i db).1
  unfolding finish_without_executor in_transaction
  without-Stranded db found at row queued done =
      rw (found, row, finish_without_executor)
        (finish_result db _ (finish-Stranded db found at row queued)
          (rw (found, row, finish_without_executor) at done))

-- Without an executor, a claimed proposal that waits for execution becomes `failed`, with the code
-- and message of a failed execution, while its execution row stays as it was, `queued`.
pub no_executor_strands :
    (i : ℕ) (p : Proposal) (e : Execution) (clock : ℕ → ℕ → ℕ) (db : Db)
    → get_proposal i db ≡ some p
    → p.progress.status ≡ ProposalStatus.executing
    → get_execution_of i db ≡ some e
    → e.status ≡ ExecutionStatus.queued
    → (execute clock none i db).0 ≡ ok tt
    → (progress_of i (execute clock none i db).1
        ≡ some (
            advance ProposalStatus.failed (failure_change execution_failed (clock 0 0)) p.progress))
      × (get_execution_of i (execute clock none i db).1 ≡ some e)
unfolding execute
no_executor_strands i p e clock db = without-Stranded i p e (clock 0) db
