-- ===== src/Runs/Steps/Terminal.antt =====
-- The ends of a run leave it ended: `_complete_failure`, `_complete_success` and
-- `_complete_main_success` of backend/src/application/services.py.
use mathlib.Core.Option as Opt
use mathlib.Core.Path.{subst}
use oper_mind.Base.{
  ℕ, ◌≡◌, refl, ap, ◌∙◌, Bool, true, String, Option, some, List, [], ◌∷◌, arith, ◌==◌, ==_iff, any,
  alter, not, ok, err, Post, Post-or_raise, Post-raise_if, Post-if, Post-bind, Post-weaken,
  Bool-cases, inl, inr,
}
use oper_mind.Actions.Records.{Snapshot}
use oper_mind.Agent.Records.{MainDelivery}
use oper_mind.Runs.Records.{
  RunStatus, RunEventType, Value, Run, DiagnosisResult, same_status, is_terminal, is_main,
}
use oper_mind.Runs.Inputs.{InputSnapshot}
use oper_mind.Runs.Store.{
  Result, Db, get_run, run_already_terminal, unexpected, input_unavailable, RunChange, advance,
  set_progress, is_at, bump_sequence, get_input, add_result, add_delivery,
}
use oper_mind.Runs.Lifecycle.{finish_run, complete_failure}
use oper_mind.Runs.Complete.{complete_success, complete_main_success, if_running, succeed}
use oper_mind.Runs.View.{View, view, with_run, emitted_by, get_run-id}
use oper_mind.Runs.Writes.{
  Same, add_result-Same, add_delivery-Same, add_message-Same, create_proposal_for-Same,
}
use oper_mind.Runs.Returns.{live_unended, complete_failure-Returns}
use oper_mind.Runs.Journal.{Sound}
use oper_mind.Runs.Steps.{HasEnded, finish_run-view}

abbrev Ends : ℕ → Run × Db → Type 0
Ends i r = HasEnded i r.1

module _ (i : ℕ) (db : Db) (run : Run) (found : get_run i db ≡ some run) where
  emitted-run :
      (expected : List RunStatus) (s : RunStatus) (c : RunChange) (type : RunEventType)
      (details : List (String × Value)) (at : ℕ)
      → any (same_status run.progress.status) expected ≡ true
      → (emitted_by run.id type details at i
          (with_run (Opt.map (alter (is_at run.id expected) (set_progress s c))) (view i db))).run
        ≡ some (bump_sequence (record run { progress = advance s c run.progress }))
  emitted-run expected s c type details at live =
      rw ((==_iff run.id i).1 (get_run-id i db run found), found) (ground (arith, live))

  pub finish_run-HasEnded :
      (expected : List RunStatus) (s : RunStatus) (c : RunChange) (type : RunEventType) (db₁ : Db)
      (also : Run → Db → Result Db) (details : List (String × Value)) (at touched : ℕ)
      → any (same_status run.progress.status) expected ≡ true
      → is_terminal s ≡ true
      → Same i db db₁
      → ((u : Run) (db' : Db) → Post (Same i db') (also u db'))
      → Post (Ends i) (finish_run run expected s c also type details at touched db₁)
  unfolding advance
  finish_run-HasEnded expected s c type db₁ also details at touched live ended h k =
      Post-weaken _ (Ends i) _
        (finish_run-view i db run expected s c type db₁ also details at touched h k)
        λ r e. (
          bump_sequence (record run { progress = advance s c run.progress }),
          ap (λ (v : View). v.run) e ∙ emitted-run expected s c type details at live,
          ended,
        )

  complete_failure-HasEnded :
      (now : ℕ → ℕ) (code message : String) → Post (Ends i) (complete_failure now i code message db)
  unfolding complete_failure is_terminal
  complete_failure-HasEnded now code message = elim (Bool-cases (is_terminal run.progress.status)) [
    | inl ended ↦ rw (found, ended) (run, found, ended)
    | inr unended ↦
        rw (found, unended)
          (finish_run-HasEnded _ RunStatus.failed _ RunEventType.run_failed db _ _ _ _
            (live_unended run.progress.status unended) refl refl λ u db'. refl)
  ]

  Ends-HasEnded :
      (next : Result (Run × Db))
      → (same_status run.progress.status RunStatus.running ≡ true → Post (Ends i) next)
      → Post (Ends i) (if_running run db next)
  Ends-HasEnded next k =
      Post-if (Ends i) (same_status run.progress.status RunStatus.running) next _ k λ _.
        Post-if (Ends i) (is_terminal run.progress.status) (ok (run, db)) (err run_already_terminal)
          (λ ended. (run, found, ended)) λ _. tt

  succeed-HasEnded :
      (now : ℕ → ℕ) (content : String) (message_id : ℕ) (also : Run → Db → Result Db) (db₁ : Db)
      → same_status run.progress.status RunStatus.running ≡ true
      → Same i db db₁
      → ((u : Run) (db' : Db) → Post (Same i db') (also u db'))
      → Post (Ends i) (succeed now run content message_id also db₁)
  unfolding is_terminal
  succeed-HasEnded now content message_id also db₁ running h k =
      Post-bind (Same i db₁) (Ends i) _ _ (add_message-Same i db₁ _) λ db₂ h₂.
        finish_run-HasEnded (RunStatus.running ∷ []) RunStatus.succeeded _
          RunEventType.run_succeeded db₂ also _ _ _ (rw running refl) refl (h₂ ∙ h) k

  pub complete_success-HasEnded :
      (D : Type 0) (assemble : Run → D → Option DiagnosisResult)
      (proposes : Run → DiagnosisResult → Option Snapshot) (now action_now : ℕ → ℕ)
      (message_id new_id : ℕ) (d : D)
      → Post (Ends i) (complete_success D assemble proposes now action_now message_id new_id i d db)
  unfolding complete_success
  complete_success-HasEnded D assemble proposes now action_now message_id new_id d = rw found (
      Ends-HasEnded _ λ running. Post-or_raise (Ends i) (assemble run d) unexpected _ λ result _.
        Post-raise_if (Ends i) (not (result.run_id == run.id)) unexpected _ λ _.
          Post-bind (Same i db) (Ends i) (add_result result db) _ (add_result-Same i db result)
            λ db₁ h₁.
              succeed-HasEnded now result.summary message_id _ db₁ running h₁
                λ u db'. create_proposal_for-Same i db' action_now new_id (proposes u result))

  pub complete_main_success-HasEnded :
      (validate : MainDelivery → Run → InputSnapshot → Bool) (text_of : MainDelivery → String)
      (is_sensitive : String → Bool) (now : ℕ → ℕ) (message_id : ℕ) (d : MainDelivery)
      → Post (Ends i) (complete_main_success validate text_of is_sensitive now message_id i d db)
  unfolding complete_main_success
  complete_main_success-HasEnded validate text_of is_sensitive now message_id d = rw found (
      Post-raise_if (Ends i) (not (is_main run.origin.runtime_kind)) _ _ λ _.
        Ends-HasEnded _ λ running.
          Post-or_raise (Ends i) (get_input i db) input_unavailable _ λ snapshot _.
            Post-raise_if (Ends i) (not (validate d run snapshot)) _ _ λ _.
              Post-raise_if (Ends i) (is_sensitive (text_of d)) _ _ λ _.
                Post-bind (Same i db) (Ends i) (add_delivery i d db) _ (add_delivery-Same i db i d)
                  λ db₁ h₁.
                    succeed-HasEnded now (text_of d) message_id _ db₁ running h₁ λ u db'. refl)

-- Failing a run of sound tables ends it, and raises nothing.
pub fails-HasEnded :
    (now : ℕ → ℕ) (i : ℕ) (code message : String) (db : Db) (run : Run)
    → Sound (view i db)
    → get_run i db ≡ some run
    → (r : Run × Db) × (complete_failure now i code message db ≡ ok r) × HasEnded i r.1
fails-HasEnded now i code message db run sound found =
    let (r, e) = complete_failure-Returns now i code message db run sound found in
    (r, e, subst (Post (Ends i)) e (complete_failure-HasEnded i db run found now code message))
