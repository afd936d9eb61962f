-- ===== src/Runs/Schedule.antt =====
-- Requests and executions interleave: any sequence of the transactions of
-- backend/src/application/services.py, with any arguments, each committed or dropped.
use oper_mind.Base.{
  ℕ, refl, Bool, true, false, String, Option, List, [], ◌∷◌, arith, ok, err, Post, settle,
  in_transaction, find, count_where,
}
use oper_mind.Actions.Records.{Snapshot}
use oper_mind.Agent.Records.{MainDelivery}
use oper_mind.Runs.Records.{RunEventType, Value, Run, DiagnosisResult}
use oper_mind.Runs.Inputs.{InputSnapshot}
use oper_mind.Runs.Store.{Result, Db, empty_db, get_run}
use oper_mind.Runs.Sessions.{
  CreateSessionCommand, UpdateSessionCommand, create_session, update_session,
}
use oper_mind.Runs.Lifecycle.{cancel_run, complete_failure, append_any, append_execution_event}
use oper_mind.Runs.Complete.{complete_success, complete_main_success}
use oper_mind.Runs.Claim.{claim_run}
use oper_mind.Runs.Accept.{Rules, NewIds, Request, Command, accept_in_transaction}
use oper_mind.Runs.Rerun.{rerun_in_transaction}
use oper_mind.Runs.View.{view, events_of}
use oper_mind.Runs.Journal.{Sound, Keeps, stays-Keeps}
use oper_mind.Runs.Steps.{Leaves}
use oper_mind.Runs.Steps.Ends.{cancel-Leaves, failure-Leaves, success-Leaves, main_success-Leaves}
use oper_mind.Runs.Steps.Starts.{claim-Leaves}
use oper_mind.Runs.Steps.Events.{record-Leaves, append-Leaves}
use oper_mind.Runs.Steps.Accept.{accept-Leaves, rerun-Leaves}
use oper_mind.Runs.Steps.Sessions.{create_session-Leaves, update_session-Leaves}

-- What the services call: the assembler of results, the proposals that a result makes, the checks
-- and the text of a delivery, the fingerprint of a rerun, and the rules of accepting.
pub record Ports : Type 1 where
  pub D : Type 0
  pub assemble : Run → D → Option DiagnosisResult
  pub proposes : Run → DiagnosisResult → Option Snapshot
  pub validate : MainDelivery → Run → InputSnapshot → Bool
  pub text_of : MainDelivery → String
  pub is_sensitive : String → Bool
  pub fingerprint : ℕ → Command → String
  pub rules : Rules

module _ (p : Ports) where
  -- One transaction of the services, with its arguments.
  pub data Transaction : Type 0 where
    create : Option (List String) → ℕ → ℕ → CreateSessionCommand → Transaction
    update : ℕ → UpdateSessionCommand → Transaction
    accept : NewIds → ℕ → Request → Transaction
    rerun : NewIds → ℕ → (i key : ℕ) → Transaction
    claim cancel : (ℕ → ℕ) → ℕ → Transaction
    record_event append : (i : ℕ) → RunEventType → List (String × Value) → ℕ → Transaction
    success : (now action_now : ℕ → ℕ) → (message_id new_id i : ℕ) → p.D → Transaction
    main_success : (ℕ → ℕ) → (message_id i : ℕ) → MainDelivery → Transaction
    failure : (ℕ → ℕ) → ℕ → (code message : String) → Transaction

  unfoldable pub perform : Transaction → Db → Db
  perform (create registered now new_id c) db =
      (in_transaction (create_session registered now new_id c) db).1
  perform (update now c) db = (in_transaction (update_session now c) db).1
  perform (accept ids now r) db = (in_transaction (accept_in_transaction p.rules ids now r) db).1
  perform (rerun ids now i key) db =
      (in_transaction (rerun_in_transaction p.fingerprint p.rules ids now i key) db).1
  perform (claim now i) db = (in_transaction (claim_run now i) db).1
  perform (cancel now i) db = (in_transaction (cancel_run now i) db).1
  perform (record_event i type details at) db =
      (in_transaction (append_execution_event i type details at) db).1
  perform (append i type details at) db = (in_transaction (append_any i type details at) db).1
  perform (success now action_now message_id new_id i d) db =
      (in_transaction
        (complete_success p.D p.assemble p.proposes now action_now message_id new_id i d) db).1
  perform (main_success now message_id i d) db =
      (in_transaction (complete_main_success p.validate p.text_of p.is_sensitive now message_id i d)
        db).1
  perform (failure now i code message) db =
      (in_transaction (complete_failure now i code message) db).1

  unfoldable pub perform_all : List Transaction → Db → Db
  perform_all [] db = db
  perform_all (t ∷ ts) db = perform_all ts (perform t db)

  -- Every run's rows are as a run of the service needs them.
  abbrev pub AllSound : Db → Type 0
  AllSound db = (j : ℕ) → Sound (view j db)

  -- Whether a transaction writes an event without a look at the status, as the path of a diagnosis does.
  abbrev pub is_append : Transaction → Bool
  is_append (append i type details at) = true
  is_append _ = false

  settle-Keeps {ℓ} :
      {A : Type ℓ} (b : Bool) (j : ℕ) (db : Db) (r : Result (A × Db))
      → Sound (view j db)
      → Post (Leaves b j db) r
      → Keeps b (view j db) (view j (settle db r).1)
  unfolding settle
  settle-Keeps b j db (ok (a, db')) s h = h
  settle-Keeps b j db (err e) s h = stays-Keeps b (view j db) s

  pub perform-Keeps :
      (t : Transaction) (db : Db)
      → AllSound db
      → (j : ℕ) → Keeps (is_append t) (view j db) (view j (perform t db))
  unfolding perform in_transaction
  perform-Keeps (create registered now new_id c) db s j =
      settle-Keeps _ j db _ (s j) (create_session-Leaves _ j db (s j) registered now new_id c)
  perform-Keeps (update now c) db s j =
      settle-Keeps _ j db _ (s j) (update_session-Leaves _ j db (s j) now c)
  perform-Keeps (accept ids now r) db s j =
      settle-Keeps _ j db _ (s j) (accept-Leaves _ j db (s j) p.rules ids now r)
  perform-Keeps (rerun ids now i key) db s j =
      settle-Keeps _ j db _ (s j) (rerun-Leaves _ j db (s j) p.fingerprint p.rules ids now i key)
  perform-Keeps (claim now i) db s j = settle-Keeps _ j db _ (s j) (claim-Leaves _ j db (s j) now i)
  perform-Keeps (cancel now i) db s j =
      settle-Keeps _ j db _ (s j) (cancel-Leaves _ j db (s j) now i)
  perform-Keeps (record_event i type details at) db s j =
      settle-Keeps _ j db _ (s j) (record-Leaves _ j db (s j) type details at i (s i).rows)
  perform-Keeps (append i type details at) db s j =
      settle-Keeps _ j db _ (s j) (append-Leaves j db (s j) type details at i)
  perform-Keeps (success now action_now message_id new_id i d) db s j =
      settle-Keeps _ j db _ (s j)
        (success-Leaves _ j db (s j) p.D p.assemble p.proposes now action_now message_id new_id i d)
  perform-Keeps (main_success now message_id i d) db s j =
      settle-Keeps _ j db _ (s j)
        (main_success-Leaves _ j db (s j) p.validate p.text_of p.is_sensitive now message_id i d)
  perform-Keeps (failure now i code message) db s j =
      settle-Keeps _ j db _ (s j) (failure-Leaves _ j db (s j) now i code message)

  pub perform_all-AllSound :
      (ts : List Transaction) (db : Db) → AllSound db → AllSound (perform_all ts db)
  unfolding perform_all
  perform_all-AllSound [] db s = s
  perform_all-AllSound (t ∷ ts) db s =
      perform_all-AllSound ts (perform t db) λ j. (perform-Keeps t db s j).sound

-- Empty tables are sound.
pub empty-Sound : (j : ℕ) → Sound (view j empty_db)
unfolding count_where get_run find events_of
empty-Sound j = record { rows = omega arith; homes = λ s. omega arith; homed = tt; numbered = refl }

module _ (p : Ports) where
  -- From empty tables, whatever the requests and however they interleave: an identifier has at most one
  -- run, the conversation of a run is there, and the events of a run are numbered 1, 2, 3 and so on
  -- without a gap, its counter being the next number.
  pub schedule-Sound :
      (ts : List (Transaction p)) (j : ℕ) → Sound (view j (perform_all p ts empty_db))
  schedule-Sound ts = perform_all-AllSound p ts empty_db empty-Sound
