-- ===== src/Runs/Steps/Ends.antt =====
-- Lemmas on `cancel_run`, `_complete_failure`, `_complete_success` and `_complete_main_success` of
-- backend/src/application/services.py.
use oper_mind.Base.{
  ℕ, ◌≡◌, refl, Bool, true, false, String, Option, some, List, [], ◌∷◌, sym, ◌∙◌, arith, ◌==◌, any,
  not, ◌||◌, ok, err, Post, Post-or_raise, Post-raise_if, Post-if,
}
use mathlib.Core.Path.{subst}
use oper_mind.Actions.Records.{Snapshot}
use oper_mind.Agent.Records.{MainDelivery}
use oper_mind.Runs.Records.{
  RunStatus, RunEventType, Run, DiagnosisResult, same_status, is_terminal, is_main,
}
use oper_mind.Runs.Inputs.{InputSnapshot}
use oper_mind.Runs.Store.{
  Result, Db, get_run, run_not_found, run_already_terminal, unexpected, input_unavailable,
  get_input, add_result, add_delivery,
}
use oper_mind.Runs.Lifecycle.{cancel_run, complete_failure}
use oper_mind.Runs.Complete.{complete_success, complete_main_success, if_running, succeed}
use oper_mind.Runs.View.{view, get_run-id}
use oper_mind.Runs.Writes.{
  Same, add_result-Same, add_delivery-Same, add_message-Same, create_proposal_for-Same,
}
use oper_mind.Runs.Journal.{Sound, edge}
use oper_mind.Runs.Steps.{Leaves, Same-Leaves, then-Same, finish_run-Leaves}

abbrev is_live : RunStatus → List RunStatus → Bool
is_live s expected = any (same_status s) expected

cancels :
    (s : RunStatus)
    → (same_status s RunStatus.succeeded || same_status s RunStatus.failed) ≡ false
    → same_status s RunStatus.cancelled ≡ false
    → (is_live s (RunStatus.queued ∷ RunStatus.running ∷ []) ≡ true)
      × (edge s RunStatus.cancelled ≡ some RunEventType.run_cancelled)
cancels s h k = ground arith

fails :
    (s : RunStatus)
    → is_terminal s ≡ false
    → (is_live s (RunStatus.running ∷ RunStatus.queued ∷ []) ≡ true)
      × (edge s RunStatus.failed ≡ some RunEventType.run_failed)
unfolding is_terminal
fails s h = ground arith

succeeds :
    (s : RunStatus)
    → same_status s RunStatus.running ≡ true
    → (is_live s (RunStatus.running ∷ []) ≡ true)
      × (edge s RunStatus.succeeded ≡ some RunEventType.run_succeeded)
succeeds s h = ground arith

module _ (b : Bool) (j : ℕ) (db : Db) (sound : Sound (view j db)) where
  -- A run that was looked up is the run of its identifier.
  pub found_under :
      (i : ℕ) (run : Run) → get_run i db ≡ some run → run.id ≡ j → get_run j db ≡ some run
  found_under i run found same =
      subst (λ k. get_run k db ≡ some run) (sym (get_run-id i db run found) ∙ same) found

  pub cancel-Leaves : (now : ℕ → ℕ) (i : ℕ) → Post (Leaves b j db) (cancel_run now i db)
  unfolding cancel_run
  cancel-Leaves now i = Post-or_raise (Leaves b j db) (get_run i db) run_not_found _ λ run found.
      Post-raise_if (Leaves b j db)
        (same_status run.progress.status RunStatus.succeeded
          || same_status run.progress.status RunStatus.failed)
        run_already_terminal _
        λ unended.
          Post-if (Leaves b j db) (same_status run.progress.status RunStatus.cancelled)
            (ok (run, db)) _ (λ _. Same-Leaves b j db sound run db refl)
            λ uncancelled.
              finish_run-Leaves b j db sound run _ RunStatus.cancelled _ RunEventType.run_cancelled
                (found_under i run found) (cancels _ unended uncancelled).0
                (cancels _ unended uncancelled).1 db _ _ _ _ refl λ u db'. refl

  pub failure-Leaves :
      (now : ℕ → ℕ) (i : ℕ) (code message : String)
      → Post (Leaves b j db) (complete_failure now i code message db)
  unfolding complete_failure
  failure-Leaves now i code message =
      Post-or_raise (Leaves b j db) (get_run i db) run_not_found _ λ run found.
        Post-if (Leaves b j db) (is_terminal run.progress.status) (ok (run, db)) _
          (λ _. Same-Leaves b j db sound run db refl)
          λ unended.
            finish_run-Leaves b j db sound run _ RunStatus.failed _ RunEventType.run_failed
              (found_under i run found) (fails _ unended).0 (fails _ unended).1 db _ _ _ _ refl
              λ u db'. refl

  ends-Leaves :
      (run : Run) (next : Result (Run × Db))
      → (same_status run.progress.status RunStatus.running ≡ true → Post (Leaves b j db) next)
      → Post (Leaves b j db) (if_running run db next)
  ends-Leaves run next k =
      Post-if (Leaves b j db) (same_status run.progress.status RunStatus.running) next _ k λ _.
        Post-if (Leaves b j db) (is_terminal run.progress.status) (ok (run, db))
          (err run_already_terminal) (λ _. Same-Leaves b j db sound run db refl) λ _. tt

  succeed-Leaves :
      (now : ℕ → ℕ) (i : ℕ) (run : Run) (content : String) (message_id : ℕ)
      (also : Run → Db → Result Db) (db₁ : Db)
      → get_run i db ≡ some run
      → same_status run.progress.status RunStatus.running ≡ true
      → Same j db db₁
      → ((u : Run) (db' : Db) → Post (Same j db') (also u db'))
      → Post (Leaves b j db) (succeed now run content message_id also db₁)
  succeed-Leaves now i run content message_id also db₁ found running h k =
      then-Same b j db sound db₁ _ _ h (add_message-Same j db₁ _) λ db₂ h₂.
        finish_run-Leaves b j db sound run _ RunStatus.succeeded _ RunEventType.run_succeeded
          (found_under i run found) (succeeds _ running).0 (succeeds _ running).1 db₂ also _ _ _ h₂
          k

  pub success-Leaves :
      (D : Type 0) (assemble : Run → D → Option DiagnosisResult)
      (proposes : Run → DiagnosisResult → Option Snapshot) (now action_now : ℕ → ℕ)
      (message_id new_id i : ℕ) (d : D)
      → Post
          (Leaves b j db)
          (complete_success D assemble proposes now action_now message_id new_id i d db)
  unfolding complete_success
  success-Leaves D assemble proposes now action_now message_id new_id i d =
      Post-or_raise (Leaves b j db) (get_run i db) run_not_found _ λ run found.
        ends-Leaves run _ λ running.
          Post-or_raise (Leaves b j db) (assemble run d) unexpected _ λ result _.
            Post-raise_if (Leaves b j db) (not (result.run_id == run.id)) unexpected _ λ _.
              then-Same b j db sound db (add_result result db) _ refl (add_result-Same j db result)
                λ db₁ h₁.
                  succeed-Leaves now i run result.summary message_id _ db₁ found running h₁
                    λ u db'. create_proposal_for-Same j db' action_now new_id (proposes u result)

  pub main_success-Leaves :
      (validate : MainDelivery → Run → InputSnapshot → Bool) (text_of : MainDelivery → String)
      (is_sensitive : String → Bool) (now : ℕ → ℕ) (message_id i : ℕ) (d : MainDelivery)
      → Post
          (Leaves b j db)
          (complete_main_success validate text_of is_sensitive now message_id i d db)
  unfolding complete_main_success
  main_success-Leaves validate text_of is_sensitive now message_id i d =
      Post-or_raise (Leaves b j db) (get_run i db) run_not_found _ λ run found.
        Post-raise_if (Leaves b j db) (not (is_main run.origin.runtime_kind)) _ _ λ _.
          ends-Leaves run _ λ running.
            Post-or_raise (Leaves b j db) (get_input i db) input_unavailable _ λ snapshot _.
              Post-raise_if (Leaves b j db) (not (validate d run snapshot)) _ _ λ _.
                Post-raise_if (Leaves b j db) (is_sensitive (text_of d)) _ _ λ _.
                  then-Same b j db sound db (add_delivery i d db) _ refl
                    (add_delivery-Same j db i d)
                    λ db₁ h₁.
                      succeed-Leaves now i run (text_of d) message_id _ db₁ found running h₁
                        λ u db'. refl
