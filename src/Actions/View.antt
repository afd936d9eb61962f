-- ===== src/Actions/View.antt =====
-- What the tables hold of one proposal, and what each repository call does to it: rules for the
-- transactions of the component.
use mathlib.Core.Option as Opt
use oper_mind.Base.{
  ℕ, ◌≡◌, refl, Bool, true, false, Option, none, some, List, [], ◌∷◌, arith, ◌==◌, find, any, alter,
  Bool-cases, inl, inr, count_where, find-update_where, find-append_fresh, find-none_of_any, map-if,
  if◌then◌else◌, ◌&&◌,
}
use oper_mind.Actions.Records.{
  ProposalStatus, ExecutionStatus, EventType, Progress, Proposal, Approval, Execution, Verification,
  EventData, IdempotencyKey, same_status,
}
use oper_mind.Actions.Store.{
  is_valid_execution, read_back, get_execution, write_execution, verification_of, is_bad_summary,
  integrity, validation, execution_id_is, from_run, advance, ActionError, Result, ok, err, ◌>>=◌,
  or_raise, raise_if, Db, has_id, is_at, execution_is_at, execution_of, add_proposal, get_proposal,
  ProposalChange, set_progress, transition_proposal, bump_sequence, reserve_event_sequence,
  add_approval, add_execution, get_execution_of, ExecutionChange, set_execution,
  transition_execution, add_verification, add_event, add_key,
}
use oper_mind.Actions.Events.{append_event}

-- What holds of a result if nothing was raised.
abbrev pub Post {ℓ κ} : {A : Type ℓ} → (A → Type κ) → Result A → Type κ
Post P (ok a) = P a
Post P (err e) = Unit

pub Post-bind {ℓ κ μ ν} :
    {A : Type ℓ} {B : Type κ} (Q : A → Type μ) (P : B → Type ν) (m : Result A) (f : A → Result B)
    → Post Q m
    → ((a : A) → Q a → Post P (f a))
    → Post P (m >>= f)
Post-bind Q P (ok a) f q k = k a q
Post-bind Q P (err e) f q k = tt

pub Post-or_raise {ℓ κ ν} :
    {A : Type ℓ} {B : Type κ} (P : B → Type ν) (o : Option A) (e : ActionError) (f : A → Result B)
    → ((a : A) → o ≡ some a → Post P (f a))
    → Post P (or_raise o e >>= f)
Post-or_raise P none e f k = tt
Post-or_raise P (some a) e f k = k a refl

pub Post-raise_if {κ ν} :
    {B : Type κ} (P : B → Type ν) (b : Bool) (e : ActionError) (f : Unit {0} → Result B)
    → (b ≡ false → Post P (f tt))
    → Post P (raise_if b e >>= f)
Post-raise_if P true e f k = tt
Post-raise_if P false e f k = k refl

pub Post-else {ℓ κ} :
    {A : Type ℓ} (P : A → Type κ) (b : Bool) (e : ActionError) (r : Result A)
    → Post P r
    → Post P (if b then err e else r)
Post-else P true e r p = tt
Post-else P false e r p = p

pub Post-if {ℓ κ} :
    {A : Type ℓ} (P : A → Type κ) (b : Bool) (r s : Result A)
    → (b ≡ true → Post P r)
    → Post P s
    → Post P (if b then r else s)
Post-if P true r s p q = p refl
Post-if P false r s p q = q

unfoldable pub progress_of : ℕ → Db → Option Progress
progress_of j db = Opt.map (λ p. p.progress) (get_proposal j db)

-- The update of `transition_proposal`, on the progress of the proposal `j`.
abbrev pub moved : ℕ → ℕ → ProposalStatus → ProposalStatus → ProposalChange → Progress → Progress
moved j i expected s c p = if j == i && same_status p.status expected then advance s c p else p

find_id : (j : ℕ) (l : List Proposal) (p : Proposal) → find (has_id j) l ≡ some p → p.id ≡ j
unfolding find
find_id j [] p h = cc
find_id j (x ∷ l) p h = ground (arith, find_id j l p)

pub get_proposal-id : (j : ℕ) (db : Db) (p : Proposal) → get_proposal j db ≡ some p → p.id ≡ j
unfolding get_proposal
get_proposal-id j db p h = find_id j db.proposals p h

alter_progress :
    (j i : ℕ) (expected s : ProposalStatus) (c : ProposalChange) (o : Option Proposal)
    → ((p : Proposal) → o ≡ some p → p.id ≡ j)
    → Opt.map (λ p. p.progress) (Opt.map (alter (is_at i expected) (set_progress s c)) o)
      ≡ Opt.map (moved j i expected s c) (Opt.map (λ p. p.progress) o)
unfolding set_progress
alter_progress j i expected s c none h = refl
alter_progress j i expected s c (some p) h = ground (arith, h p refl)

is_at-keeps_id :
    (j i : ℕ) (expected s : ProposalStatus) (c : ProposalChange) (p : Proposal)
    → has_id j (alter (is_at i expected) (set_progress s c) p) ≡ has_id j p
unfolding set_progress
is_at-keeps_id j i expected s c p = ground arith

pub progress_of-transition :
    (i : ℕ) (expected s : ProposalStatus) (c : ProposalChange) (db : Db) (j : ℕ)
    → progress_of j (transition_proposal i expected s c db).1
      ≡ Opt.map (moved j i expected s c) (progress_of j db)
unfolding progress_of transition_proposal
progress_of-transition i expected s c db j =
    rw
      (find-update_where (has_id j) (is_at i expected) (set_progress s c) db.proposals
        (is_at-keeps_id j i expected s c))
      (alter_progress j i expected s c (get_proposal j db) (get_proposal-id j db))

bump-keeps_id : (j i : ℕ) (p : Proposal) → has_id j (alter (has_id i) bump_sequence p) ≡ has_id j p
bump-keeps_id j i p = ground arith

alter_bump :
    (i : ℕ) (o : Option Proposal)
    → Opt.map (λ p. p.progress) (Opt.map (alter (has_id i) bump_sequence) o)
      ≡ Opt.map (λ p. p.progress) o
alter_bump i none = refl
alter_bump i (some p) = ground arith

pub progress_of-reserve :
    (i : ℕ) (db : Db) (j : ℕ) → progress_of j (reserve_event_sequence i db).1 ≡ progress_of j db
unfolding progress_of reserve_event_sequence
progress_of-reserve i db j =
    rw (find-update_where (has_id j) (has_id i) bump_sequence db.proposals (bump-keeps_id j i))
      (alter_bump i (get_proposal j db))

-- A view that is kept by the calls which write neither progress nor executions.
module _ (Q : Option Progress → Option Execution → Type 0) (j : ℕ) where
  abbrev pub At : Db → Type 0
  At db = Q (progress_of j db) (get_execution_of j db)

  pub append_event-At :
      (i : ℕ) (type : EventType) (d : EventData) (at : ℕ) (db : Db)
      → At db
      → Post At (append_event i type d at db)
  unfolding append_event add_event progress_of get_proposal get_execution_of reserve_event_sequence
  append_event-At i type d at db q =
      Post-or_raise At (reserve_event_sequence i db).0 _ _
        λ n _. Post-else At _ _ (ok _) (rw (progress_of-reserve i db j) q)

  pub add_approval-At : (a : Approval) (db : Db) → At db → Post At (add_approval a db)
  unfolding add_approval progress_of get_proposal get_execution_of
  add_approval-At a db q = Post-else At _ _ (ok _) q

  pub add_key-At : (k : IdempotencyKey) (db : Db) → At db → Post At (add_key k db)
  unfolding add_key progress_of get_proposal get_execution_of
  add_key-At k db q = Post-else At _ _ (ok _) q

  pub add_verification-At : (v : Verification) (db : Db) → At db → Post At (add_verification v db)
  unfolding add_verification progress_of get_proposal get_execution_of
  add_verification-At v db q =
      Post-else At (is_bad_summary v.summary) validation _
        (Post-else At (any (verification_of v.execution_id) db.verifications) integrity (ok _) q)

  pub transition_proposal-At :
      (i : ℕ) (expected s : ProposalStatus) (c : ProposalChange) (db : Db)
      → Q (Opt.map (moved j i expected s c) (progress_of j db)) (get_execution_of j db)
      → At (transition_proposal i expected s c db).1
  unfolding transition_proposal get_execution_of
  transition_proposal-At i expected s c db q = rw (progress_of-transition i expected s c db j) q

-- A move of a proposal leaves the executions alone.
pub get_execution_of-transition :
    (i : ℕ) (expected s : ProposalStatus) (c : ProposalChange) (db : Db) (j : ℕ)
    → get_execution_of j (transition_proposal i expected s c db).1 ≡ get_execution_of j db
unfolding transition_proposal get_execution_of
get_execution_of-transition i expected s c db j = refl

-- The update of `transition_execution`, on the execution of the proposal `j`.
abbrev pub run_moved :
    ℕ → ExecutionStatus → ExecutionStatus → ExecutionChange → Execution → Execution
run_moved x expected s c = alter (execution_is_at x expected) (set_execution s c)

run_keeps_proposal :
    (j x : ℕ) (expected s : ExecutionStatus) (c : ExecutionChange) (e : Execution)
    → execution_of j (run_moved x expected s c e) ≡ execution_of j e
unfolding set_execution
run_keeps_proposal j x expected s c e = ground arith

module _ (Q : Option Progress → Option Execution → Type 0) (j : ℕ) where
  read_back-At :
      (o : Option Execution) (db : Db)
      → At Q j db
      → Post (λ (r : Option Execution × Db). At Q j r.1) (read_back o db)
  unfolding read_back
  read_back-At none db q = q
  read_back-At (some e) db q =
      Post-if (λ (r : Option Execution × Db). At Q j r.1) (is_valid_execution e) (ok (some e, db)) _
        (λ _. q) tt

  write_execution-At :
      (x : ℕ) (expected s : ExecutionStatus) (c : ExecutionChange) (db : Db)
      → Q (progress_of j db) (Opt.map (run_moved x expected s c) (get_execution_of j db))
      → At Q j (write_execution x expected s c db)
  unfolding write_execution get_execution_of progress_of get_proposal
  write_execution-At x expected s c db q =
      rw
        (find-update_where (execution_of j) (execution_is_at x expected) (set_execution s c)
          db.executions (run_keeps_proposal j x expected s c))
        q

  pub transition_execution-At :
      (x : ℕ) (expected s : ExecutionStatus) (c : ExecutionChange) (db : Db)
      → Q (progress_of j db) (Opt.map (run_moved x expected s c) (get_execution_of j db))
      → Post (λ (r : Option Execution × Db). At Q j r.1) (transition_execution x expected s c db)
  unfolding transition_execution
  transition_execution-At x expected s c db q =
      let kept = write_execution-At x expected s c db q in
      Post-if (λ (r : Option Execution × Db). At Q j r.1)
        (count_where (execution_is_at x expected) db.executions == 1)
        (read_back (get_execution x (write_execution x expected s c db))
          (write_execution x expected s c db))
        _ (λ _. read_back-At (get_execution x (write_execution x expected s c db)) _ kept) kept

  -- A new execution row, of a proposal that has none.
  pub add_execution-At :
      (x : Execution) (db : Db)
      → (get_execution_of x.proposal_id db ≡ none
          → Q (progress_of j db) (if x.proposal_id == j then some x else get_execution_of j db))
      → Post (At Q j) (add_execution x db)
  unfolding add_execution get_execution_of progress_of get_proposal
  add_execution-At x db q = elim (Bool-cases (any (execution_of x.proposal_id) db.executions)) [
    | inl taken ↦ rw taken tt
    | inr free ↦
        let unused = find-none_of_any (execution_of x.proposal_id) db.executions free in
        rw free (
          Post-else (At Q j) (any (execution_id_is x.id) db.executions) integrity (ok _)
            (rw (find-append_fresh (λ e. e.proposal_id) j db.executions x unused) (q unused)))
  ]

  -- A new proposal row, under a fresh identifier.
  pub add_proposal-At :
      (p : Proposal) (db : Db)
      → (progress_of p.id db ≡ none
          → Q (if p.id == j then some p.progress else progress_of j db) (get_execution_of j db))
      → Post (At Q j) (add_proposal p db)
  unfolding add_proposal get_execution_of progress_of get_proposal
  add_proposal-At p db q = elim (Bool-cases (any (has_id p.id) db.proposals)) [
    | inl taken ↦ rw taken tt
    | inr free ↦
        let unused = find-none_of_any (has_id p.id) db.proposals free in
        rw free (
          Post-else (At Q j) (any (from_run p.snapshot.source_run_id) db.proposals) integrity (ok _)
            (rw (find-append_fresh (λ r. r.id) j db.proposals p unused, map-if) (q (rw unused))))
  ]
