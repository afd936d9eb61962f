-- ===== src/Actions/Schedule.antt =====
-- Requests and background executions interleave: any sequence of committed or dropped transactions,
-- with any arguments, readings of the clock and answers of the executor.
use mathlib.Core.Path.{subst}
use oper_mind.Base.{
  ℕ, ◌≡◌, refl, sym, ap, inl, inr, true, String, Option, none, some, List, [], ◌∷◌, arith, find,
}
use oper_mind.Actions.Records.{is_terminal, Snapshot, Progress, Proposal, Execution, ProposalStatus}
use oper_mind.Actions.Store.{Result, ok, err, Db, empty_db, get_proposal, get_execution_of}
use oper_mind.Actions.Events.{create_proposal, settle, in_transaction}
use oper_mind.Actions.Approval.{DecideCommand, decide_in_transaction}
use oper_mind.Actions.Claim.{ExecuteCommand, request_in_transaction}
use oper_mind.Actions.Execution.{
  ControlledError, Attempt, Verdict, claim_execution, record_success, start_verification,
  finish_verified, finish_verification_failed, finish_blocked, finish_failed,
}
use oper_mind.Actions.View.{Post, progress_of, At}
use oper_mind.Actions.Diagram.{Agrees, Follows, Allowed, Allowed-refl, is_edge}
use oper_mind.Actions.Sound.{From, Leaves}
use oper_mind.Actions.Sound.Decide.{create-Leaves, decide-Leaves}
use oper_mind.Actions.Sound.Request.{request-Leaves}
use oper_mind.Actions.Sound.Run.{
  claim-Leaves, success-Leaves, verification-Leaves, verified-Leaves, verification_failed-Leaves,
  blocked-Leaves, failed-Leaves,
}

-- One transaction of the service, with its arguments. The first of each is the clock.
pub data Transaction : Type 0 where
  create : (ℕ → ℕ) → ℕ → Option Snapshot → Transaction
  decide : String → (ℕ → ℕ) → ℕ → DecideCommand → Transaction
  request : String → (ℕ → ℕ) → ℕ → ExecuteCommand → Transaction
  claim : (ℕ → ℕ) → ℕ → Transaction
  success : (ℕ → ℕ) → Proposal → Execution → Attempt → Transaction
  verification : (ℕ → ℕ) → ℕ → Transaction
  verified : (ℕ → ℕ) → Proposal → Execution → Verdict → Transaction
  verification_failed blocked failed :
      (ℕ → ℕ) → Proposal → Execution → ControlledError → Transaction

unfoldable pub perform : Transaction → Db → Db
unfolding in_transaction
perform (create now new_id s) db = (in_transaction (create_proposal now new_id s) db).1
perform (decide f now new_id c) db = (in_transaction (decide_in_transaction f now new_id c) db).1
perform (request f now new_id c) db = (in_transaction (request_in_transaction f now new_id c) db).1
perform (claim now i) db = (in_transaction (claim_execution now i) db).1
perform (success now p e a) db = (in_transaction (record_success now p e a) db).1
perform (verification now i) db = (in_transaction (start_verification now i) db).1
perform (verified now p e v) db = (in_transaction (finish_verified now p e v) db).1
perform (verification_failed now p e x) db =
    (in_transaction (finish_verification_failed now p e x) db).1
perform (blocked now p e x) db = (in_transaction (finish_blocked now p e x) db).1
perform (failed now p e x) db = (in_transaction (finish_failed now p e x) db).1

unfoldable pub perform_all : List Transaction → Db → Db
perform_all [] db = db
perform_all (t ∷ ts) db = perform_all ts (perform t db)

settle-Leaves {ℓ} :
    {A : Type ℓ} (db : Db) (j : ℕ) (r : Result (A × Db))
    → Post (Leaves db j) r
    → At (From db j) j (settle db r).1
unfolding settle
settle-Leaves db j (ok (a, db')) h = h
settle-Leaves db j (err e) h = Allowed-refl (progress_of j db) (get_execution_of j db)

-- Every transaction, whether it commits or is dropped, makes only allowed writes at every proposal:
-- its status stays or moves along an edge of the diagram, a new proposal is pending and a new
-- execution queued, and the rows of a proposal and its execution go on agreeing.
pub perform-Allowed :
    (t : Transaction) (db : Db) (j : ℕ)
    → Allowed
        (progress_of j db)
        (get_execution_of j db)
        (progress_of j (perform t db))
        (get_execution_of j (perform t db))
unfolding perform
perform-Allowed (create now new_id s) db j = settle-Leaves db j _ (create-Leaves db j now new_id s)
perform-Allowed (decide f now new_id c) db j =
    settle-Leaves db j _ (decide-Leaves db j f now new_id c)
perform-Allowed (request f now new_id c) db j =
    settle-Leaves db j _ (request-Leaves db j f now new_id c)
perform-Allowed (claim now i) db j = settle-Leaves db j _ (claim-Leaves db j now i)
perform-Allowed (success now p e a) db j = settle-Leaves db j _ (success-Leaves db j now p e a)
perform-Allowed (verification now i) db j = settle-Leaves db j _ (verification-Leaves db j now i)
perform-Allowed (verified now p e v) db j = settle-Leaves db j _ (verified-Leaves db j now p e v)
perform-Allowed (verification_failed now p e x) db j =
    settle-Leaves db j _ (verification_failed-Leaves db j now p e x)
perform-Allowed (blocked now p e x) db j = settle-Leaves db j _ (blocked-Leaves db j now p e x)
perform-Allowed (failed now p e x) db j = settle-Leaves db j _ (failed-Leaves db j now p e x)

perform_all-Agrees :
    (ts : List Transaction) (db : Db) (j : ℕ)
    → Agrees (progress_of j db) (get_execution_of j db)
    → Agrees (progress_of j (perform_all ts db)) (get_execution_of j (perform_all ts db))
unfolding perform_all
perform_all-Agrees [] db j h = h
perform_all-Agrees (t ∷ ts) db j h =
    perform_all-Agrees ts (perform t db) j ((perform-Allowed t db j).agrees h)

-- From empty tables, whatever the interleaving: a proposal has an execution row and a start time
-- exactly if it has been claimed, has an approval time and the expiry that belongs to it exactly if
-- it has been approved, and no execution is without a proposal.
pub schedule-Agrees :
    (ts : List Transaction) (j : ℕ)
    → Agrees
        (progress_of j (perform_all ts empty_db))
        (get_execution_of j (perform_all ts empty_db))
unfolding progress_of get_proposal get_execution_of find
schedule-Agrees ts j = perform_all-Agrees ts empty_db j refl

no_edge : (s t : ProposalStatus) → is_terminal s ≡ true → is_edge s t ≡ true → ⊥
unfolding is_terminal
no_edge s t h e = ground arith

terminal_stays :
    (p : Progress) (o : Option Progress)
    → is_terminal p.status ≡ true
    → Follows (some p) o
    → o ≡ some p
terminal_stays p none t f = absurd f
terminal_stays p (some q) t (inl same) = ap some (sym same)
terminal_stays p (some q) t (inr edge) = absurd (no_edge p.status q.status t edge)

-- A proposal in a terminal status is frozen: no sequence of transactions changes its status, its
-- times or its failure text.
pub terminal_absorbs :
    (ts : List Transaction) (db : Db) (j : ℕ) (p : Progress)
    → progress_of j db ≡ some p
    → is_terminal p.status ≡ true
    → progress_of j (perform_all ts db) ≡ some p
unfolding perform_all
terminal_absorbs [] db j p h t = h
terminal_absorbs (x ∷ ts) db j p h t =
    terminal_absorbs ts (perform x db) j p
      (terminal_stays p (progress_of j (perform x db)) t
        (subst (λ o. Follows o (progress_of j (perform x db))) h (perform-Allowed x db j).follows))
      t
