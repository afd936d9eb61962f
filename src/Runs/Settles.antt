-- ===== src/Runs/Settles.antt =====
-- The two loops of `execute_run` of backend/src/application/services.py: a step returns with the run
-- ended, or raises something that `execute_run` handles.
use mathlib.Core.Path.{subst}
use oper_mind.Base.{
  ℕ, suc, ◌≡◌, refl, sym, ◌∙◌, Bool, true, false, String, some, List, [], ◌∷◌, arith, ok, err,
  or_raise, Post, Fails, Post-and, Post-weaken, settle, in_transaction, Bool-cases, Option-cases,
  inl, inr,
}
use oper_mind.Agent.Records.{MainDelivery}
use oper_mind.Stream.Run as Typed
use oper_mind.Stream.Run.{RunFailureCode, RunSignal, guard_run_stream, safe_message}
use oper_mind.Stream.Runtime as Legacy
use oper_mind.Stream.Runtime.{RuntimeSignal, guard_runtime_stream}
use oper_mind.Runs.Records.{RunEventType, Value, Run, is_terminal, is_main}
use oper_mind.Runs.Store.{run_not_found, Result, Db, is_cancelled}
use oper_mind.Runs.Lifecycle.{append_any, append_execution_event}
use oper_mind.Runs.Complete.{complete_success, complete_main_success}
use oper_mind.Runs.Claim.{ExecutionInput, diagnosis_input, main_input}
use oper_mind.Runs.EventData.{ExecutionEvent}
use oper_mind.Runs.Recorded.{is_running, Recorded, append_execution_event-Recorded}
use oper_mind.Runs.Steps.{Leaves, HasEnded}
use oper_mind.Runs.Steps.Events.{record-Leaves, append-Leaves}
use oper_mind.Runs.Steps.Terminal.{
  fails-HasEnded, complete_success-HasEnded, complete_main_success-HasEnded,
}
use oper_mind.Runs.Steps.Found.{
  IsFound, append_any-IsFound, append_execution_event-IsFound, complete_success-IsFound,
  complete_main_success-IsFound,
}
use oper_mind.Runs.Schedule.{Ports, AllSound}
use oper_mind.Runs.Stage.{IsAt, Stage, arrived-IsAt, Leaves-IsAt, Keeps-HasEnded, arrived-HasEnded}
use oper_mind.Runs.Execute.{
  Setting, World, and_then, arrive, turn, load_run, fail_run, play_typed, execute_typed,
  play_legacy, execute_legacy, attempt, code_value,
}

module _ (p : Ports) (s : Setting p) (i : ℕ) where
  -- A step returns with the run ended, or raises, with the run there.
  abbrev pub Settles : Result Run × World p → Type 0
  Settles (ok run, w) = HasEnded i w.0
  Settles (err e, w) = IsFound e × IsAt p i true w.0

  pub early : (b : Bool) (db : Db) → IsAt p i b db → IsAt p i true db
  early b db a = record { sound = a.sound; run = a.run; found = a.found; stage = refl }

  pub arrive-IsAt : (b : Bool) (w : World p) → IsAt p i b w.0 → IsAt p i b (arrive p s w)
  unfolding arrive
  arrive-IsAt b w a = arrived-IsAt p i b (s.others w.1) w.0 a

  settled :
      (b : Bool) (db : Db) (n : ℕ) (r : Result (Run × Db))
      → IsAt p i b db
      → Post (λ x. HasEnded i x.1) r
      → Fails IsFound r
      → Settles ((settle db r).0, ((settle db r).1, n))
  unfolding settle
  settled b db n (ok (run, db')) a h f = h
  settled b db n (err e) a h f = (f, early b db a)

  -- A last transaction.
  turn-Settles :
      (b : Bool) (op : Db → Result (Run × Db)) (w : World p)
      → IsAt p i b (arrive p s w)
      → Post (λ x. HasEnded i x.1) (op (arrive p s w))
      → Fails IsFound (op (arrive p s w))
      → Settles (turn p s op w)
  unfolding turn in_transaction
  turn-Settles b op w a h f = settled b (arrive p s w) (suc w.1) (op (arrive p s w)) a h f

  load-Settles : (w : World p) → AllSound p w.0 → HasEnded i w.0 → Settles (load_run p s i w)
  unfolding load_run arrive
  load-Settles w sound h =
      let (r, found, ended) = arrived-HasEnded p i (s.others w.1) w.0 sound h in
      subst (λ o. Settles (or_raise o run_not_found, (arrive p s w, suc w.1))) (sym found)
        (r, found, ended)

  -- Neither queued nor running is ended.
  idle_ended :
      (r : Run)
      → Stage false r.progress
      → is_running (some r) ≡ false
      → is_terminal r.progress.status ≡ true
  unfolding is_terminal
  idle_ended r h k = ground arith

  -- The event of a loop: the run goes on, or has ended.
  abbrev Continues : Bool × Db → Type 0
  Continues r = IsAt p i false r.1 × (r.0 ≡ false → HasEnded i r.1)

  record-Continues :
      (type : RunEventType) (details : List (String × Value)) (at : ℕ) (db : Db)
      → IsAt p i false db
      → Post Continues (append_execution_event i type details at db)
  record-Continues type details at db a =
      Post-weaken
        (λ r. IsAt p i false r.1 × (Recorded type details at i i db r × Leaves true i db r))
        Continues _
        (Post-and _ _ _
          (Leaves-IsAt p i false true db (append_execution_event i type details at db) a
            λ j. record-Leaves true j db (a.sound j) type details at i (a.sound i).rows)
          (Post-and _ _ _ (append_execution_event-Recorded type details at i i db (a.sound i).rows)
            (record-Leaves true i db (a.sound i) type details at i (a.sound i).rows)))
        λ r h. (
          h.0,
          λ idle. Keeps-HasEnded p i true db r.1 h.1.1 (
            a.run,
            a.found,
            idle_ended a.run a.stage
                (subst (λ o. is_running o ≡ false) a.found (sym h.1.0.1 ∙ idle)),
          ),
        )

  -- A failed run: nothing is raised.
  pub fail-HasEnded :
      (code : RunFailureCode) (w : World p)
      → IsAt p i true w.0
      → (r : Run) × ((fail_run p s i code w).0 ≡ ok r) × HasEnded i (fail_run p s i code w).1.0
  unfolding fail_run turn in_transaction settle
  fail-HasEnded code w a =
      let b = arrive-IsAt true w a in
      let (r, e, h) =
        fails-HasEnded (s.now w.1) i (code_value code) (safe_message code) (arrive p s w) b.run
          (b.sound i) b.found in
      rw e (r.0, refl, h)

  fail-Settles :
      (code : RunFailureCode) (w : World p) → IsAt p i true w.0 → Settles (fail_run p s i code w)
  fail-Settles code w a =
      let (r, e, h) = fail-HasEnded code w a in
      subst (λ x. Settles (x, (fail_run p s i code w).1)) (sym e) h

  -- One more event, and the rest of a loop.
  event-Settles :
      (r : Result (Bool × Db)) (db : Db) (n : ℕ) (stop go : World p → Result Run × World p)
      → IsAt p i false db
      → Post Continues r
      → Fails IsFound r
      → ((db' : Db) → AllSound p db' → HasEnded i db' → Settles (stop (db', n)))
      → ((db' : Db) → IsAt p i false db' → Settles (go (db', n)))
      → Settles (
          and_then p
            ((settle db r).0, ((settle db r).1, n))
            λ accepted w'. elim accepted [ false ↦ stop w' | true ↦ go w' ])
  unfolding settle
  event-Settles (ok (true, db')) db n stop go a h f k m = m db' h.0
  event-Settles (ok (false, db')) db n stop go a h f k m = k db' h.0.sound (h.1 refl)
  event-Settles (err e) db n stop go a h f k m = (f, early false db a)

  play_typed-Settles :
      (l : List (RunSignal ExecutionEvent p.D MainDelivery)) (w : World p)
      → IsAt p i false w.0
      → Settles (play_typed p s i l w)
  unfolding play_typed turn in_transaction
  play_typed-Settles [] w a = (refl, early false w.0 a)
  play_typed-Settles (Typed.event e ∷ rest) w a =
      let b = arrive-IsAt false w a in
      event-Settles _ (arrive p s w) (suc w.1) (load_run p s i) (play_typed p s i rest) b
        (record-Continues e.type _ e.occurred_at _ b)
        (append_execution_event-IsFound i e.type _ e.occurred_at _)
        (λ db' sound ended. load-Settles (db', suc w.1) sound ended)
        λ db' c. play_typed-Settles rest (db', suc w.1) c
  play_typed-Settles (Typed.failure code ∷ rest) w a = fail-Settles code w (early false w.0 a)
  play_typed-Settles (Typed.diagnosis d ∷ rest) w a = (refl, early false w.0 a)
  play_typed-Settles (Typed.delivery d ∷ rest) w a =
      let b = arrive-IsAt false w a in
      turn-Settles false
        (complete_main_success p.validate p.text_of p.is_sensitive (s.now w.1) s.message_id i d) w b
        (complete_main_success-HasEnded i (arrive p s w) b.run b.found p.validate p.text_of
          p.is_sensitive (s.now w.1) s.message_id d)
        (complete_main_success-IsFound i (arrive p s w) b.run b.found p.validate p.text_of
          p.is_sensitive (s.now w.1) s.message_id d)

  -- An event that is written whatever the status is, and the rest of a loop.
  any_event-Settles :
      (r : Result (Unit {0} × Db)) (db : Db) (n : ℕ) (go : World p → Result Run × World p)
      → IsAt p i false db
      → Post (λ x. IsAt p i false x.1) r
      → Fails IsFound r
      → ((db' : Db) → IsAt p i false db' → Settles (go (db', n)))
      → Settles (and_then p ((settle db r).0, ((settle db r).1, n)) λ _ w'. go w')
  unfolding settle
  any_event-Settles (ok (t, db')) db n go a h f m = m db' h
  any_event-Settles (err e) db n go a h f m = (f, early false db a)

  cancelled-HasEnded :
      (db : Db) (b : Bool) → IsAt p i b db → is_cancelled i db ≡ true → HasEnded i db
  unfolding is_cancelled is_terminal
  cancelled-HasEnded db b a h = (a.run, a.found, ground (arith, h, a.found))

  append-IsAt :
      (type : RunEventType) (details : List (String × Value)) (at : ℕ) (db : Db)
      → IsAt p i false db
      → Post (λ x. IsAt p i false x.1) (append_any i type details at db)
  append-IsAt type details at db a =
      Leaves-IsAt p i false true db (append_any i type details at db) a
        λ j. append-Leaves j db (a.sound j) type details at i

  play_legacy-Settles :
      (l : List (RuntimeSignal ExecutionEvent p.D)) (w : World p)
      → IsAt p i false w.0
      → Settles (play_legacy p s i l w)
  unfolding play_legacy turn in_transaction
  play_legacy-Settles [] w a = (refl, early false w.0 a)
  play_legacy-Settles (Legacy.runtime_event e ∷ rest) w a =
      let b = arrive-IsAt false w a in
      let w₁ : World p = (arrive p s w, suc w.1) in
      let c = arrive-IsAt false w₁ b in
      elim (Bool-cases (is_cancelled i (arrive p s w))) [
        | inl stopped ↦
            rw (stopped, play_legacy)
              (load-Settles w₁ b.sound (cancelled-HasEnded (arrive p s w) false b stopped))
        | inr goes_on ↦
            rw (goes_on, play_legacy)
              (any_event-Settles _ (arrive p s w₁) (suc w₁.1) (play_legacy p s i rest) c
                (append-IsAt e.type _ e.occurred_at _ c)
                (append_any-IsFound i e.type _ e.occurred_at _ c.run c.found)
                λ db' d. play_legacy-Settles rest (db', suc w₁.1) d)
      ]
  play_legacy-Settles (Legacy.runtime_failure code message ∷ rest) w a =
      fail-Settles RunFailureCode.diagnosis_failed w (early false w.0 a)
  play_legacy-Settles (Legacy.runtime_result d ∷ rest) w a =
      let b = arrive-IsAt false w a in
      turn-Settles false
        (complete_success p.D p.assemble p.proposes (s.now w.1) s.action_now s.message_id
          s.proposal_id i d)
        w b
        (complete_success-HasEnded i (arrive p s w) b.run b.found p.D p.assemble p.proposes
          (s.now w.1) s.action_now s.message_id s.proposal_id d)
        (complete_success-IsFound i (arrive p s w) b.run b.found p.D p.assemble p.proposes
          (s.now w.1) s.action_now s.message_id s.proposal_id d)

  execute_typed-Settles :
      (input : ExecutionInput) (w : World p)
      → IsAt p i false w.0
      → Settles (execute_typed p s i (some input) w)
  unfolding execute_typed
  execute_typed-Settles input w a = elim (Option-cases s.run_executor) [
    | inl missing ↦ rw (missing, execute_typed) (refl, early false w.0 a)
    | inr (executor, there) ↦ rw (there, execute_typed) (play_typed-Settles _ w a)
  ]

  execute_legacy-Settles :
      (input : ExecutionInput) (w : World p)
      → IsAt p i false w.0
      → Settles (execute_legacy p s i (some input) w)
  unfolding execute_legacy load_run
  execute_legacy-Settles (diagnosis_input query service_id) w a =
      let b = arrive-IsAt false w a in rw b.found (play_legacy-Settles _ (arrive p s w, suc w.1) b)
  execute_legacy-Settles (main_input run_id session_id snapshot) w a = (refl, early false w.0 a)

  pub attempt-Settles :
      (run : Run) (input : ExecutionInput) (w : World p)
      → IsAt p i false w.0
      → Settles (attempt p s i (run, some input) w)
  unfolding attempt
  attempt-Settles run input w a = elim (Bool-cases (is_main run.origin.runtime_kind)) [
    | inl main ↦ rw main (execute_typed-Settles input w a)
    | inr legacy ↦ rw legacy (execute_legacy-Settles input w a)
  ]
