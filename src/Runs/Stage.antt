-- ===== src/Runs/Stage.antt =====
-- What a run keeps while the transactions of backend/src/application/services.py follow one another: it
-- stays, does not go back to the queue, and once ended stays ended.
use mathlib.Core.Option as Opt
use mathlib.Core.Option.{some-injective}
use mathlib.Core.Path.{subst}
use oper_mind.Base.{
  ℕ, ◌≡◌, sym, ap, ◌∙◌, Bool, true, ◌||◌, not, Option, none, some, List, [], ◌∷◌, arith, ok, err,
  Post, Option-cases, inl, inr,
}
use oper_mind.Runs.Records.{RunStatus, RunEventType, Progress, Run, same_status, is_terminal}
use oper_mind.Runs.Store.{Result, Db, get_run}
use oper_mind.Runs.View.{view}
use oper_mind.Runs.Journal.{Journal, Move, stays, accepts, moves, records, edge, journal, Keeps}
use oper_mind.Runs.Steps.{Leaves, HasEnded}
use oper_mind.Runs.Schedule.{
  Ports, Transaction, perform, perform_all, AllSound, is_append, perform-Keeps,
}
use oper_mind.Runs.Refinement.{ended_progress}

-- Any status if `early`, otherwise one that is not queued.
abbrev pub Stage : Bool → Progress → Type 0
Stage early q = (early || not (same_status q.status RunStatus.queued)) ≡ true

abbrev HasStage : Bool → Option Progress → Type 0
HasStage early none = ⊥
HasStage early (some q) = Stage early q

edge-Stage :
    (early : Bool) (q r : RunStatus) (e : RunEventType)
    → edge q r ≡ some e
    → (early || not (same_status r RunStatus.queued)) ≡ true
edge-Stage early q r e h = ground arith

Move-Stage :
    (early b : Bool) (a c : Journal)
    → Move b a c
    → HasStage early a.progress
    → HasStage early c.progress
Move-Stage early b a c (stays e) h = subst (λ (j : Journal). HasStage early j.progress) e h
Move-Stage early b a c (accepts q e₁ e₂ e₃ e₄) h = absurd (subst (HasStage early) e₁ h)
Move-Stage early b a c (moves q r e e₁ e₂ e₃ e₄) h =
    subst (HasStage early) (sym e₂) (edge-Stage early q.status r.status e e₃)
Move-Stage early b a c (records q e e₁ e₂ e₃ e₄) h =
    subst (HasStage early) (sym e₂) (subst (HasStage early) e₁ h)

module _ (p : Ports) (i : ℕ) where
  -- The tables are sound and the run is there, at its stage.
  pub record IsAt (early : Bool) (db : Db) : Type 0 where
    pub sound : AllSound p db
    pub run : Run
    pub found : get_run i db ≡ some run
    pub stage : Stage early run.progress

  IsAt-of :
      (early : Bool) (db : Db)
      → AllSound p db
      → HasStage early (journal (view i db)).progress
      → IsAt early db
  IsAt-of early db s h = elim (Option-cases (get_run i db)) [
    | inl missing ↦
        absurd (subst (λ o. HasStage early (Opt.map (λ (r : Run). r.progress) o)) missing h)
    | inr (r, found) ↦ record {
      sound = s;
      run = r;
      found = found;
      stage = subst (λ o. HasStage early (Opt.map (λ (r : Run). r.progress) o)) found h;
    }
  ]

  progress-Stage :
      (early : Bool) (db : Db) → IsAt early db → HasStage early (journal (view i db)).progress
  progress-Stage early db a =
      subst (λ o. HasStage early (Opt.map (λ (r : Run). r.progress) o)) (sym a.found) a.stage

  pub arrived-IsAt :
      (early : Bool) (ts : List (Transaction p)) (db : Db)
      → IsAt early db
      → IsAt early (perform_all p ts db)
  unfolding perform_all
  arrived-IsAt early [] db a = a
  arrived-IsAt early (t ∷ ts) db a = arrived-IsAt early ts (perform p t db) (
      IsAt-of early (perform p t db) (λ j. (perform-Keeps p t db a.sound j).sound)
        (Move-Stage early (is_append p t) _ _ (perform-Keeps p t db a.sound i).follows
          (progress-Stage early db a)))

  -- A committed transaction of an execution.
  pub Leaves-IsAt {ℓ} :
      {A : Type ℓ} (early b : Bool) (db : Db) (m : Result (A × Db))
      → IsAt early db
      → ((j : ℕ) → Post (Leaves b j db) m)
      → Post (λ r. IsAt early r.1) m
  Leaves-IsAt early b db (err e) a k = tt
  Leaves-IsAt early b db (ok (x, db')) a k =
      IsAt-of early db' (λ j. (k j).sound)
        (Move-Stage early b _ _ (k i).follows (progress-Stage early db a))

  HasEnded-of :
      (db : Db) (q : Progress)
      → (journal (view i db)).progress ≡ some q
      → is_terminal q.status ≡ true
      → HasEnded i db
  HasEnded-of db q h t = elim (Option-cases (get_run i db)) [
    | inl missing ↦ absurd (cc (sym h ∙ ap (Opt.map (λ (r : Run). r.progress)) missing))
    | inr (r, found) ↦ (
      r,
      found,
      subst (λ (x : Progress). is_terminal x.status ≡ true)
          (some-injective q r.progress (sym h ∙ ap (Opt.map (λ (r : Run). r.progress)) found)) t,
    )
  ]

  pub Keeps-HasEnded :
      (b : Bool) (db db' : Db) → Keeps b (view i db) (view i db') → HasEnded i db → HasEnded i db'
  Keeps-HasEnded b db db' k (r, found, ended) =
      HasEnded-of db' r.progress
        (ended_progress b (journal (view i db)) (journal (view i db')) r.progress
          (ap (Opt.map (λ (r : Run). r.progress)) found) ended k.follows)
        ended

  pub arrived-HasEnded :
      (ts : List (Transaction p)) (db : Db)
      → AllSound p db
      → HasEnded i db
      → HasEnded i (perform_all p ts db)
  unfolding perform_all
  arrived-HasEnded [] db s h = h
  arrived-HasEnded (t ∷ ts) db s h =
      arrived-HasEnded ts (perform p t db) (λ j. (perform-Keeps p t db s j).sound)
        (Keeps-HasEnded (is_append p t) db (perform p t db) (perform-Keeps p t db s i) h)
