-- ===== src/Runs/Transition.antt =====
-- The compare-and-set of backend/src/infrastructure/persistence/repositories.py succeeds where the run
-- has one row and an expected status.
use mathlib.Core.Option as Opt
use oper_mind.Base.{ℕ, ◌≡◌, ◌≤◌, ap, ◌∙◌, true, some, List, arith, any, alter, count_where-matched}
use oper_mind.Runs.Records.{RunStatus, Run, same_status}
use oper_mind.Runs.Store.{
  Db, has_id, get_run, RunChange, advance, set_progress, is_at, transition_status,
}
use oper_mind.Runs.View.{View, view, view-write_status, get_run-id}

pub transition_status-some :
    (i : ℕ) (run : Run) (expected : List RunStatus) (s : RunStatus) (c : RunChange) (db : Db)
    → get_run i db ≡ some run
    → any (same_status run.progress.status) expected ≡ true
    → (view i db).rows ≤ 1
    → (transition_status i expected s c db).0
      ≡ some (record run { progress = advance s c run.progress })
unfolding transition_status get_run
transition_status-some i run expected s c db found live one =
    let own = get_run-id i db run found in
    let matches =
      count_where-matched (has_id i) (λ r. any (same_status r.progress.status) expected) db.runs run
        found live one in
    rw matches (
      ap (λ (v : View). v.run) (view-write_status i expected s c i db)
      ∙ ap (Opt.map (alter (is_at i expected) (set_progress s c))) found
      ∙ ground (arith, live, own))
