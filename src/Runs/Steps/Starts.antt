-- ===== src/Runs/Steps/Starts.antt =====
-- Lemmas on `_claim_run` of backend/src/application/services.py.
use mathlib.Core.Path.{subst}
use oper_mind.Base.{
  ℕ, ◌≡◌, ◌≤◌, refl, sym, ap, ◌∙◌, Bool, true, false, Option, none, some, List, [], ◌∷◌, arith,
  ◌==◌, ==_iff, any, not, ok, Post, Post-or_raise, Post-raise_if, Post-then, Post-if, Bool-cases,
  inl, inr,
}
use oper_mind.Runs.Records.{RunStatus, RunEventType, Run, same_status}
use oper_mind.Runs.Store.{
  Db, get_run, RunChange, set_progress, is_at, write_status, transition_status, run_not_found,
  run_already_terminal,
}
use oper_mind.Runs.Claim.{claim_run, claimed, ExecutionInput, input_message_of, execution_input}
use oper_mind.Runs.View.{view, view-IsUnder, alter_other, view-write_status, get_run-id}
use oper_mind.Runs.Transition.{transition_status-some}
use oper_mind.Runs.Journal.{edge, Sound, Keeps, stays-Keeps}
use oper_mind.Runs.Steps.{Leaves, Same-Leaves, begin-Leaves}

starts :
    (s : RunStatus)
    → not (same_status s RunStatus.queued) ≡ false
    → (any (same_status s) (RunStatus.queued ∷ []) ≡ true)
      × (edge s RunStatus.running ≡ some RunEventType.run_started)
starts s h = ground arith

module _ (b : Bool) (j : ℕ) (db : Db) (sound : Sound (view j db)) where
  -- A compare-and-set that reports no row has not touched the run.
  missed-Keeps :
      (i : ℕ) (run : Run) (expected : List RunStatus) (s : RunStatus) (c : RunChange)
      → get_run i db ≡ some run
      → any (same_status run.progress.status) expected ≡ true
      → (transition_status i expected s c db).0 ≡ none
      → Keeps b (view j db) (view j (write_status i expected s c db))
  missed-Keeps i run expected s c found live none_changed = elim (Bool-cases (i == j)) [
    | inl hit ↦
        let changed =
          transition_status-some i run expected s c db found live
            (subst (λ k. (view k db).rows ≤ 1) (sym ((==_iff i j).0 hit)) sound.rows) in
        absurd (cc (changed, none_changed))
    | inr miss ↦
        subst (Keeps b (view j db))
          (sym (
            view-write_status i expected s c j db
            ∙ ap (λ o. record (view j db) { run = o })
                (alter_other (is_at i expected) (set_progress s c) j (get_run j db)
                  (λ r h. ground (arith, h, miss)) (view-IsUnder j db))))
          (stays-Keeps b (view j db) sound)
  ]

  -- The transition of a queued run with its event, or no transition.
  claimed-Leaves :
      (now : ℕ → ℕ) (i : ℕ) (input : ExecutionInput) (run : Run) (c : RunChange) (o : Option Run)
      → get_run i db ≡ some run
      → not (same_status run.progress.status RunStatus.queued) ≡ false
      → (transition_status i (RunStatus.queued ∷ []) RunStatus.running c db).0 ≡ o
      → Post
          (Leaves b j db)
          (claimed now i input (o, write_status i (RunStatus.queued ∷ []) RunStatus.running c db))
  unfolding claimed
  claimed-Leaves now i input run c none found queued changed =
      let live = (starts run.progress.status queued).0 in
      let kept = missed-Keeps i run _ RunStatus.running c found live changed in
      Post-or_raise (Leaves b j db) (get_run i _) run_not_found _ λ latest _.
        Post-raise_if (Leaves b j db) (same_status latest.progress.status RunStatus.queued)
          run_already_terminal (λ _. ok ((latest, none), _)) λ _. kept
  claimed-Leaves now i input run c (some updated) found queued changed =
      begin-Leaves b j db sound i run (get_run-id i db run found) (RunStatus.queued ∷ [])
        RunStatus.running c RunEventType.run_started
        (λ same. subst (λ k. get_run k db ≡ some run) same found)
        (starts run.progress.status queued).0 (starts run.progress.status queued).1 _ _ _

  pub claim-Leaves : (now : ℕ → ℕ) (i : ℕ) → Post (Leaves b j db) (claim_run now i db)
  unfolding claim_run transition_status
  claim-Leaves now i = Post-or_raise (Leaves b j db) (get_run i db) run_not_found _ λ run found.
      Post-if (Leaves b j db) (not (same_status run.progress.status RunStatus.queued)) _ _
        (λ _. Same-Leaves b j db sound {A = Run × Option ExecutionInput} (run, none) db refl)
        λ queued. Post-then (Leaves b j db) (input_message_of run db) _ λ message _.
          Post-then (Leaves b j db) (execution_input run message db) _
            λ input _. claimed-Leaves now i input run _ _ found queued refl
