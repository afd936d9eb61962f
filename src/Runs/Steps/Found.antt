-- ===== src/Runs/Steps/Found.antt =====
-- No transaction of backend/src/application/services.py on a run that is there raises RunNotFoundError.
use mathlib.Core.Option as Opt
use mathlib.Core.Path.{subst, ap₂}
use oper_mind.Base.{
  ℕ, ◌≡◌, refl, sym, ap, ◌∙◌, Bool, true, false, String, Option, none, some, List, [], ◌∷◌, arith,
  ◌==◌, any, alter, not, ◌||◌, ok, err, Fails, Fails-bind, Fails-then, Fails-or_raise,
  Fails-raise_if, Fails-if, Post,
}
use oper_mind.Actions.Records.{Snapshot}
use oper_mind.Actions.Store as Actions
use oper_mind.Actions.Events.{create_proposal}
use oper_mind.Agent.Records.{MainDelivery}
use oper_mind.Runs.Records.{
  RunStatus, RunEventType, Value, Run, RunEvent, Message, DiagnosisResult, same_status, is_terminal,
  is_main, is_user,
}
use oper_mind.Runs.Inputs.{InputSnapshot}
use oper_mind.Runs.Store.{
  RunError, run_not_found, Result, Db, get_run, RunChange, advance, set_progress, is_at, add_event,
  add_message, add_result, add_delivery, touch_updated_at, write_status, transition_status,
  get_message, get_input, input_message_invalid, input_unavailable, reserve_running_event_sequence,
  run_already_terminal, unexpected, integrity,
}
use oper_mind.Runs.Lifecycle.{
  state, append_event, append_any, append_execution_event, add_reserved, touch_session, finish_run,
}
use oper_mind.Runs.Complete.{
  complete_success, complete_main_success, if_running, succeed, create_proposal_for, store_actions,
}
use oper_mind.Runs.Claim.{claim_run, claimed, input_message_of, execution_input, ExecutionInput}
use oper_mind.Runs.View.{View, view, with_run, view-write_status, get_run-id}
use oper_mind.Runs.Writes.{
  Same, add_message-Same, add_result-Same, add_delivery-Same, create_proposal_for-Same,
}
use oper_mind.Runs.Journal.{Sound}
use oper_mind.Runs.Returns.{reserved, event-Returns, transition_writes}
use oper_mind.Runs.Transition.{transition_status-some}

abbrev pub is_missing : RunError → Bool
is_missing run_not_found = true
is_missing _ = false

abbrev pub IsFound : RunError → Type 0
IsFound e = is_missing e ≡ false

add_event-IsFound : (e : RunEvent) (db : Db) → Fails IsFound (add_event e db)
unfolding add_event
add_event-IsFound e db = Fails-if IsFound _ (err integrity) (ok _) (λ _. refl) λ _. tt

add_message-IsFound : (m : Message) (db : Db) → Fails IsFound (add_message m db)
unfolding add_message
add_message-IsFound m db = Fails-if IsFound _ (err integrity) (ok _) (λ _. refl) λ _. tt

add_result-IsFound : (r : DiagnosisResult) (db : Db) → Fails IsFound (add_result r db)
unfolding add_result
add_result-IsFound r db = Fails-if IsFound _ (err integrity) (ok _) (λ _. refl) λ _. tt

add_delivery-IsFound : (i : ℕ) (d : MainDelivery) (db : Db) → Fails IsFound (add_delivery i d db)
unfolding add_delivery
add_delivery-IsFound i d db = Fails-if IsFound _ (err integrity) (ok _) (λ _. refl) λ _. tt

touch_session-IsFound : (s at : ℕ) (db : Db) → Fails IsFound (touch_session s at db)
unfolding touch_session touch_updated_at
touch_session-IsFound s at db = Fails-if IsFound _ (ok _) (err _) (λ _. tt) λ _. refl

store_actions-IsFound {ℓ} :
    {A : Type ℓ} (db : Db) (r : Actions.Result (A × Actions.Db))
    → Fails IsFound (store_actions db r)
unfolding store_actions
store_actions-IsFound db (Actions.ok (a, actions)) = tt
store_actions-IsFound db (Actions.err e) = refl

create_proposal_for-IsFound :
    (now : ℕ → ℕ) (new_id : ℕ) (s : Option Snapshot) (db : Db)
    → Fails IsFound (create_proposal_for now new_id s db)
unfolding create_proposal_for
create_proposal_for-IsFound now new_id s db =
    store_actions-IsFound db (create_proposal now new_id s db.actions)

append_event-IsFound :
    (i : ℕ) (type : RunEventType) (details : List (String × Value)) (at : ℕ) (db : Db) (r : Run)
    → get_run i db ≡ some r
    → Fails IsFound (append_event i type details at db)
unfolding append_event
append_event-IsFound i type details at db r found =
    rw (reserved i db r found) (add_event-IsFound _ _)

pub append_any-IsFound :
    (i : ℕ) (type : RunEventType) (details : List (String × Value)) (at : ℕ) (db : Db) (r : Run)
    → get_run i db ≡ some r
    → Fails IsFound (append_any i type details at db)
unfolding append_any
append_any-IsFound i type details at db r found =
    Fails-then IsFound (append_event i type details at db) _
      (append_event-IsFound i type details at db r found) λ db₁. tt

add_reserved-IsFound :
    (i : ℕ) (type : RunEventType) (details : List (String × Value)) (at : ℕ) (o : Option ℕ)
    (db : Db)
    → Fails IsFound (add_reserved i type details at (o, db))
unfolding add_reserved
add_reserved-IsFound i type details at none db = tt
add_reserved-IsFound i type details at (some n) db =
    Fails-then IsFound (add_event _ db) _ (add_event-IsFound _ db) λ db₁. tt

pub append_execution_event-IsFound :
    (i : ℕ) (type : RunEventType) (details : List (String × Value)) (at : ℕ) (db : Db)
    → Fails IsFound (append_execution_event i type details at db)
unfolding append_execution_event
append_execution_event-IsFound i type details at db =
    add_reserved-IsFound i type details at (reserve_running_event_sequence i db).0
      (reserve_running_event_sequence i db).1

-- The run that a compare-and-set leaves.
module _ (run : Run) (expected : List RunStatus) (s : RunStatus) (c : RunChange) (db db₁ : Db)
    (found : get_run run.id db ≡ some run)
    (live : any (same_status run.progress.status) expected ≡ true) (same : Same run.id db db₁) where
  left :
      (db₂ : Db)
      → Same run.id (write_status run.id expected s c db₁) db₂
      → get_run run.id db₂ ≡ some (record run { progress = advance s c run.progress })
  left db₂ h =
      ap (λ (v : View). v.run)
        (h
          ∙ view-write_status run.id expected s c run.id db₁
          ∙ ap (with_run (Opt.map (alter (is_at run.id expected) (set_progress s c)))) same)
      ∙ ap (Opt.map (alter (is_at run.id expected) (set_progress s c))) found
      ∙ ground (arith, live)

  finish_run-IsFound :
      (also : Run → Db → Result Db) (type : RunEventType) (details : List (String × Value))
      (at touched : ℕ)
      → ((u : Run) (d : Db) → Post (Same run.id d) (also u d))
      → ((u : Run) (d : Db) → Fails IsFound (also u d))
      → Fails IsFound (finish_run run expected s c also type details at touched db₁)
  unfolding finish_run transition_status
  finish_run-IsFound also type details at touched k f =
      Fails-or_raise IsFound (transition_status run.id expected s c db₁).0 run_already_terminal _
        refl
        λ updated.
          Fails-bind (Same run.id (write_status run.id expected s c db₁)) IsFound
            (also updated (write_status run.id expected s c db₁)) _ (f updated _) (k updated _)
            λ db₂ h.
              Fails-then IsFound (append_event run.id type details at db₂) _
                (append_event-IsFound run.id type details at db₂ _ (left db₂ h))
                λ db₃.
                  Fails-then IsFound (touch_session run.origin.session_id touched db₃) _
                    (touch_session-IsFound run.origin.session_id touched db₃) λ db₄. tt

module _ (i : ℕ) (db : Db) (run : Run) (found : get_run i db ≡ some run) where
  abbrev own : i ≡ run.id
  own = sym (get_run-id i db run found)

  succeed-IsFound :
      (now : ℕ → ℕ) (content : String) (message_id : ℕ) (also : Run → Db → Result Db) (db₁ : Db)
      → same_status run.progress.status RunStatus.running ≡ true
      → Same run.id db db₁
      → ((u : Run) (d : Db) → Post (Same run.id d) (also u d))
      → ((u : Run) (d : Db) → Fails IsFound (also u d))
      → Fails IsFound (succeed now run content message_id also db₁)
  succeed-IsFound now content message_id also db₁ running h k f =
      Fails-bind (Same run.id db₁) IsFound (add_message _ db₁) _ (add_message-IsFound _ db₁)
        (add_message-Same run.id db₁ _)
        λ db₂ h₂.
          finish_run-IsFound run (RunStatus.running ∷ []) RunStatus.succeeded _ db db₂
            (subst (λ j. get_run j db ≡ some run) own found) (rw running refl) (h₂ ∙ h) also _ _ _ _
            k f

  if_running-IsFound :
      (next : Result (Run × Db))
      → (same_status run.progress.status RunStatus.running ≡ true → Fails IsFound next)
      → Fails IsFound (if_running run db next)
  if_running-IsFound next k =
      Fails-if IsFound (same_status run.progress.status RunStatus.running) next _ k λ _.
        Fails-if IsFound (is_terminal run.progress.status) (ok (run, db)) (err run_already_terminal)
          (λ _. tt) λ _. refl

  pub complete_success-IsFound :
      (D : Type 0) (assemble : Run → D → Option DiagnosisResult)
      (proposes : Run → DiagnosisResult → Option Snapshot) (now action_now : ℕ → ℕ)
      (message_id new_id : ℕ) (d : D)
      → Fails IsFound (complete_success D assemble proposes now action_now message_id new_id i d db)
  unfolding complete_success
  complete_success-IsFound D assemble proposes now action_now message_id new_id d = rw found (
      if_running-IsFound _ λ running.
        Fails-or_raise IsFound (assemble run d) unexpected _ refl λ result.
          Fails-raise_if IsFound (not (result.run_id == run.id)) unexpected _ refl (
            Fails-bind (Same run.id db) IsFound (add_result result db) _
              (add_result-IsFound result db) (add_result-Same run.id db result)
              λ db₁ h₁.
                succeed-IsFound now result.summary message_id _ db₁ running h₁
                  (λ u d'. create_proposal_for-Same run.id d' action_now new_id (proposes u result))
                  λ u d'. create_proposal_for-IsFound action_now new_id (proposes u result) d'))

  pub complete_main_success-IsFound :
      (validate : MainDelivery → Run → InputSnapshot → Bool) (text_of : MainDelivery → String)
      (is_sensitive : String → Bool) (now : ℕ → ℕ) (message_id : ℕ) (d : MainDelivery)
      → Fails IsFound (complete_main_success validate text_of is_sensitive now message_id i d db)
  unfolding complete_main_success
  complete_main_success-IsFound validate text_of is_sensitive now message_id d = rw found (
      Fails-raise_if IsFound (not (is_main run.origin.runtime_kind)) _ _ refl (
        if_running-IsFound _ λ running.
          Fails-or_raise IsFound (get_input i db) input_unavailable _ refl λ snapshot.
            Fails-raise_if IsFound (not (validate d run snapshot)) _ _ refl (
              Fails-raise_if IsFound (is_sensitive (text_of d)) _ _ refl (
                Fails-bind (Same run.id db) IsFound (add_delivery i d db) _
                  (add_delivery-IsFound i d db) (add_delivery-Same run.id db i d)
                  λ db₁ h₁.
                    succeed-IsFound now (text_of d) message_id _ db₁ running h₁ (λ u d'. refl)
                      λ u d'. tt))))

  input_message_of-IsFound : Fails IsFound (input_message_of run db)
  input_message_of-IsFound =
      Fails-or_raise IsFound (get_message run.origin.input_message_id db) input_message_invalid _
        refl
        λ m.
          Fails-raise_if IsFound
            (not (m.session_id == run.origin.session_id) || not (is_user m.role))
            input_message_invalid (λ _. ok m) refl tt

  execution_input-IsFound : (m : Message) → Fails IsFound (execution_input run m db)
  execution_input-IsFound m =
      Fails-if IsFound (is_main run.origin.runtime_kind) _ (ok _)
        (λ _. Fails-or_raise IsFound (get_input run.id db) input_unavailable _ refl λ s. tt) λ _. tt

  claimed-IsFound :
      (now : ℕ → ℕ) (input : ExecutionInput) (c : RunChange)
      → Sound (view i db)
      → not (same_status run.progress.status RunStatus.queued) ≡ false
      → Fails IsFound
          (claimed now i input (transition_status i (RunStatus.queued ∷ []) RunStatus.running c db))
  unfolding claimed
  claimed-IsFound now input c sound queued =
      let live : any (same_status run.progress.status) (RunStatus.queued ∷ []) ≡ true =
        ground (arith, queued) in
      let (db₂, e) =
        event-Returns i (RunStatus.queued ∷ []) RunStatus.running c db sound run found live
          RunEventType.run_started (state RunStatus.running) (now 1) in
      subst (λ q. Fails IsFound (claimed now i input q))
        (sym (
          ap₂ (λ o d. (o, d))
            (transition_status-some i run (RunStatus.queued ∷ []) RunStatus.running c db found live
              sound.rows)
            (transition_writes i (RunStatus.queued ∷ []) RunStatus.running c db)))
        (rw e tt)

  -- The run starts, or is not queued, or its input is not there.
  pub claim-IsFound : (now : ℕ → ℕ) → Sound (view i db) → Fails IsFound (claim_run now i db)
  unfolding claim_run
  claim-IsFound now sound = rw found (
      Fails-if IsFound (not (same_status run.progress.status RunStatus.queued)) _ _ (λ _. tt)
        λ queued. Fails-then IsFound (input_message_of run db) _ input_message_of-IsFound λ m.
          Fails-then IsFound (execution_input run m db) _ (execution_input-IsFound m)
            λ input. claimed-IsFound now input _ sound queued)
