-- ===== src/Runs/Liveness.antt =====
-- `execute_run` of backend/src/application/services.py ends the run that it claims.
use mathlib.Core.Option as Opt
use mathlib.Core.Path.{subst, ap₂}
use oper_mind.Base.{
  ℕ, String, ==_iff, suc, ◌≡◌, refl, sym, ap, ◌∙◌, true, false, Option, none, some, List, [], ◌∷◌,
  any, ok, err, is_some, Post, Post-then, Fails, settle, in_transaction,
}
use oper_mind.Stream.Run.{RunFailureCode}
use oper_mind.Runs.Records.{RunStatus, RunEventType, Value, RunRuntimeKind, Run, same_status}
use oper_mind.Runs.Store.{
  session_not_found, session_archived, service_not_found, service_context_required, key_reused,
  run_not_found, run_not_terminal, run_already_terminal, input_message_invalid, input_unavailable,
  input_rejected, unsupported_rule, integrity, unexpected, execution_error, action_error, Result,
  Db, get_run, RunChange, advance, bump_sequence, write_status, transition_status,
}
use oper_mind.Runs.Lifecycle.{append_event, state}
use oper_mind.Runs.Claim.{ExecutionInput, claim_run, claimed, input_message_of, execution_input}
use oper_mind.Runs.View.{View, view, emitted_by, append_event-view}
use oper_mind.Runs.Returns.{event-Returns, written, transition_writes}
use oper_mind.Runs.Transition.{transition_status-some}
use oper_mind.Runs.Journal.{Sound}
use oper_mind.Runs.Steps.{HasEnded}
use oper_mind.Runs.Steps.Starts.{claim-Leaves}
use oper_mind.Runs.Steps.Found.{IsFound, claim-IsFound}
use oper_mind.Runs.Schedule.{Ports, AllSound}
use oper_mind.Runs.Stage.{IsAt, Stage, Leaves-IsAt}
use oper_mind.Runs.Execute.{
  Setting, World, arrive, turn, fail_run, attempt, failure_code_for_run, handle, after_claim,
  execute_run,
}
use oper_mind.Runs.Settles.{Settles, arrive-IsAt, fail-HasEnded, attempt-Settles}

-- A claim of a queued run that returns has an input, and the run is not queued any more.
abbrev Begins : ℕ → (Run × Option ExecutionInput) × Db → Type 0
Begins i r =
    (is_some r.0.1 ≡ true) × ((q : Run) × (get_run i r.1 ≡ some q) × Stage false q.progress)

emitted_by-run :
    (i : ℕ) (type : RunEventType) (details : List (String × Value)) (at : ℕ) (v : View)
    → (emitted_by i type details at i v).run ≡ Opt.map bump_sequence v.run
emitted_by-run i type details at v = rw ((==_iff i i).1 refl) refl

event-run :
    (i : ℕ) (db₁ : Db) (now : ℕ → ℕ) (db₂ : Db)
    → append_event i RunEventType.run_started (state RunStatus.running) (now 1) db₁ ≡ ok db₂
    → get_run i db₂ ≡ Opt.map bump_sequence (get_run i db₁)
event-run i db₁ now db₂ e =
    let type = RunEventType.run_started in
    let details = state RunStatus.running in
    ap (λ (v : View). v.run)
      (subst (Post (λ d. view i d ≡ emitted_by i type details (now 1) i (view i db₁))) e
        (append_event-view i type details (now 1) i db₁))
    ∙ emitted_by-run i type details (now 1) (view i db₁)

module _ (i : ℕ) (db : Db) (run : Run) (found : get_run i db ≡ some run) (sound : Sound (view i db))
    (queued : run.progress.status ≡ RunStatus.queued) where
  claimed-Begins :
      (now : ℕ → ℕ) (input : ExecutionInput) (c : RunChange)
      → Post
          (Begins i)
          (claimed now i input (transition_status i (RunStatus.queued ∷ []) RunStatus.running c db))
  unfolding claimed advance
  claimed-Begins now input c =
      let live : any (same_status run.progress.status) (RunStatus.queued ∷ []) ≡ true =
        rw queued refl in
      let expected = RunStatus.queued ∷ [] in
      let db₁ = write_status i expected RunStatus.running c db in
      let (db₂, e) =
        event-Returns i expected RunStatus.running c db sound run found live
          RunEventType.run_started (state RunStatus.running) (now 1) in
      subst (λ q. Post (Begins i) (claimed now i input q))
        (sym (
          ap₂ (λ o d. (o, d))
            (transition_status-some i run expected RunStatus.running c db found live sound.rows)
            (transition_writes i expected RunStatus.running c db)))
        (rw e (
          refl,
          (
            bump_sequence (record run { progress = advance RunStatus.running c run.progress }),
            event-run i db₁ now db₂ e
                ∙ ap (Opt.map bump_sequence)
                    (written i expected RunStatus.running c db sound run found live),
            refl,
          ),
        ))

  claim-Begins : (now : ℕ → ℕ) → Post (Begins i) (claim_run now i db)
  unfolding claim_run
  claim-Begins now =
      rw (found, queued)
        (Post-then (Begins i) (input_message_of run db) _ λ m _.
          Post-then (Begins i) (execution_input run m db) _ λ input _. claimed-Begins now input _)

module _ (p : Ports) (s : Setting p) (i : ℕ) where
  -- The run is returned, and has ended.
  abbrev pub IsDone : Result Run × World p → Type 0
  IsDone x = (r : Run) × (x.0 ≡ ok r) × HasEnded i x.1.0

  other-IsDone :
      (kind : RunRuntimeKind) (w : World p)
      → IsAt p i true w.0
      → IsDone (
          fail_run p s i
            (failure_code_for_run p s i kind w).0
            (failure_code_for_run p s i kind w).1)
  unfolding failure_code_for_run
  other-IsDone kind w a = fail-HasEnded p s i _ (arrive p s w, suc w.1) (arrive-IsAt p s i true w a)

  handle-IsDone :
      (kind : RunRuntimeKind) (x : Result Run × World p)
      → Settles p s i x
      → IsDone (handle p s i kind x)
  unfolding handle
  handle-IsDone kind (ok run, w) h = (run, refl, h)
  handle-IsDone kind (err run_not_found, w) h = absurd (cc (h.0))
  handle-IsDone kind (err (execution_error code), w) h = fail-HasEnded p s i code w h.1
  handle-IsDone kind (err input_unavailable, w) h =
      fail-HasEnded p s i RunFailureCode.main_agent_input_unavailable w h.1
  handle-IsDone kind (err session_not_found, w) h = other-IsDone kind w h.1
  handle-IsDone kind (err session_archived, w) h = other-IsDone kind w h.1
  handle-IsDone kind (err service_not_found, w) h = other-IsDone kind w h.1
  handle-IsDone kind (err service_context_required, w) h = other-IsDone kind w h.1
  handle-IsDone kind (err key_reused, w) h = other-IsDone kind w h.1
  handle-IsDone kind (err run_not_terminal, w) h = other-IsDone kind w h.1
  handle-IsDone kind (err run_already_terminal, w) h = other-IsDone kind w h.1
  handle-IsDone kind (err input_message_invalid, w) h = other-IsDone kind w h.1
  handle-IsDone kind (err input_rejected, w) h = other-IsDone kind w h.1
  handle-IsDone kind (err unsupported_rule, w) h = other-IsDone kind w h.1
  handle-IsDone kind (err integrity, w) h = other-IsDone kind w h.1
  handle-IsDone kind (err unexpected, w) h = other-IsDone kind w h.1
  handle-IsDone kind (err (action_error e), w) h = other-IsDone kind w h.1

  claimed-IsDone :
      (r : Result ((Run × Option ExecutionInput) × Db)) (db : Db) (n : ℕ)
      → IsAt p i true db
      → Post (λ x. IsAt p i true x.1) r
      → Post (Begins i) r
      → Fails IsFound r
      → IsDone (after_claim p s i ((settle db r).0, ((settle db r).1, n)))
  unfolding settle after_claim
  claimed-IsDone (err e) db n a k b f =
      handle-IsDone RunRuntimeKind.diagnosis (err e, (db, n)) (f, a)
  claimed-IsDone (ok ((run, none), db')) db n a k b f = absurd (cc (b.0))
  claimed-IsDone (ok ((run, some input), db')) db n a k b f =
      handle-IsDone run.origin.runtime_kind (attempt p s i (run, some input) (db', n)) (
        attempt-Settles p s i run input (db', n)
          (record { sound = k.sound; run = b.1.0; found = b.1.1; stage = b.1.2 }))

  -- An execution that comes to a queued run, in sound tables, returns a run instead of raising, and
  -- leaves the queued run ended: succeeded, failed or cancelled. This holds whatever the executors
  -- stream or raise, whether an executor is there, whatever the assembler and the checks of a delivery
  -- answer, and whatever transactions others commit before each of its own.
  pub execute_run_ends_it :
      (w : World p) (run : Run)
      → AllSound p (arrive p s w)
      → get_run i (arrive p s w) ≡ some run
      → run.progress.status ≡ RunStatus.queued
      → (r : Run) × ((execute_run p s i w).0 ≡ ok r) × HasEnded i (execute_run p s i w).1.0
  unfolding execute_run turn in_transaction
  execute_run_ends_it w run sound found queued =
      let db = arrive p s w in
      let a : IsAt p i true db = record { sound = sound; run = run; found = found; stage = refl } in
      claimed-IsDone (claim_run (s.now w.1) i db) db (suc w.1) a
        (Leaves-IsAt p i true true db (claim_run (s.now w.1) i db) a
          λ j. claim-Leaves true j db (sound j) (s.now w.1) i)
        (claim-Begins i db run found (sound i) queued (s.now w.1))
        (claim-IsFound i db run found (s.now w.1) (sound i))
