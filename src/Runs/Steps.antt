-- ===== src/Runs/Steps.antt =====
-- The transactions of backend/src/application/services.py against the machine of a run: what each of
-- them may leave of a run. The children are about one group of transactions each.
pub mod Ends
pub mod Starts
pub mod Events
pub mod Accept
pub mod Sessions
pub mod Terminal
pub mod Found
use mathlib.Core.Option as Opt
use mathlib.Core.Path.{subst}
use oper_mind.Base.{
  ℕ, ◌≡◌, refl, sym, ap, ◌∙◌, Bool, true, false, String, Option, none, some, List, arith, ◌==◌,
  ==_iff, any, alter, Bool-cases, inl, inr, ◌&&◌, if◌then◌else◌, Outcome, ok, ◌>>=◌, Post,
  Post-bind, Post-or_raise, Post-weaken,
}
use oper_mind.Runs.Records.{RunStatus, RunEventType, Value, Run, same_status, is_terminal}
use oper_mind.Runs.Store.{
  RunError, Result, Db, get_run, RunChange, advance, set_progress, is_at, write_status,
  transition_status, run_already_terminal,
}
use oper_mind.Runs.Lifecycle.{append_event, touch_session, finish_run}
use oper_mind.Runs.View.{
  view, with_run, IsUnder, view-IsUnder, alter_other, emitted, emitted_by, view-write_status,
  append_event-view,
}
use oper_mind.Runs.Writes.{Same, touch_session-Same}
use oper_mind.Runs.Journal.{edge, Sound, Keeps, stays-Keeps, moved-Keeps}

abbrev pub Leaves {ℓ} : {A : Type ℓ} → Bool → ℕ → Db → A × Db → Type 0
Leaves b j db r = Keeps b (view j db) (view j r.1)

module _ (j : ℕ) (db : Db) where
  -- What the end of a run makes of the view, whatever is written along with it elsewhere.
  pub finish_run-view :
      (run : Run) (expected : List RunStatus) (s : RunStatus) (c : RunChange) (type : RunEventType)
      (db₁ : Db) (also : Run → Db → Result Db) (details : List (String × Value)) (at touched : ℕ)
      → Same j db db₁
      → ((u : Run) (db' : Db) → Post (Same j db') (also u db'))
      → Post
          (λ r.
            view j r.1
            ≡ emitted_by run.id type details at j
                (with_run (Opt.map (alter (is_at run.id expected) (set_progress s c))) (view j db)))
          (finish_run run expected s c also type details at touched db₁)
  unfolding finish_run transition_status
  finish_run-view run expected s c type db₁ also details at touched h k =
      let alters = with_run (Opt.map (alter (is_at run.id expected) (set_progress s c))) in
      let w = alters (view j db) in
      let P : Run × Db → Type 0 = λ r. view j r.1 ≡ emitted_by run.id type details at j w in
      let db₀ = write_status run.id expected s c db₁ in
      Post-or_raise P (transition_status run.id expected s c db₁).0 run_already_terminal _
        λ updated _.
          Post-bind (λ d. view j d ≡ w) P (also updated db₀) _
            (Post-weaken (Same j db₀) (λ d. view j d ≡ w) _ (k updated db₀)
              λ d e. e ∙ view-write_status run.id expected s c j db₁ ∙ ap alters h)
            λ db₂ e₂.
              Post-bind (λ d. view j d ≡ emitted_by run.id type details at j w) P
                (append_event run.id type details at db₂) _
                (Post-weaken _ (λ d. view j d ≡ emitted_by run.id type details at j w) _
                  (append_event-view run.id type details at j db₂)
                  λ d e. e ∙ ap (emitted_by run.id type details at j) e₂)
                λ db₃ e₃.
                  Post-bind (Same j db₃) P (touch_session run.origin.session_id touched db₃) _
                    (touch_session-Same j db₃ run.origin.session_id touched) λ db₄ e₄. e₄ ∙ e₃

module _ (b : Bool) (j : ℕ) (db : Db) (sound : Sound (view j db)) where
  -- A transaction that has not touched the run.
  pub Same-Leaves {ℓ} : {A : Type ℓ} (a : A) (db' : Db) → Same j db db' → Leaves b j db (a, db')
  Same-Leaves a db' h = subst (Keeps b (view j db)) (sym h) (stays-Keeps b (view j db) sound)

  -- A write that leaves the view alone, and the rest of the transaction.
  pub then-Same {ℓ} :
      {A : Type ℓ} (db₁ : Db) (m : Result Db) (f : Db → Result (A × Db))
      → Same j db db₁
      → Post (Same j db₁) m
      → ((db₂ : Db) → Same j db db₂ → Post (Leaves b j db) (f db₂))
      → Post (Leaves b j db) (m >>= f)
  then-Same db₁ m f h k rest =
      Post-bind (Same j db₁) (Leaves b j db) m f k λ db₂ h₂. rest db₂ (h₂ ∙ h)

  module _ (i : ℕ) (run : Run) (own : run.id ≡ i) (expected : List RunStatus) (s : RunStatus)
      (c : RunChange) (type : RunEventType) (found : i ≡ j → get_run j db ≡ some run)
      (live : any (same_status run.progress.status) expected ≡ true)
      (along : edge run.progress.status s ≡ some type) where
    altered :
        i ≡ j
        → Opt.map (alter (is_at i expected) (set_progress s c)) (get_run j db)
          ≡ some (record run { progress = advance s c run.progress })
    altered same =
        ap (Opt.map (alter (is_at i expected) (set_progress s c))) (found same)
        ∙ ground (arith, live, own)

    pub finished-Keeps :
        (details : List (String × Value)) (at : ℕ)
        → Keeps b (view j db) (
            emitted_by i type details at j
              (with_run (Opt.map (alter (is_at i expected) (set_progress s c))) (view j db)))
    unfolding advance
    finished-Keeps details at = elim (Bool-cases (i == j)) [
      | inl hit ↦
          let same = (==_iff i j).0 hit in
          rw hit (
            subst
              (λ o.
                Keeps b (view j db) (emitted j type details at (record (view j db) { run = o })))
              (sym (altered same))
              (moved-Keeps b (view j db) j type details at run (found same)
                (advance s c run.progress) along sound))
      | inr miss ↦
          rw
            (
              miss,
              alter_other (is_at i expected) (set_progress s c) j (get_run j db)
                  (λ r h. ground (arith, h, miss)) (view-IsUnder j db),
            )
            (stays-Keeps b (view j db) sound)
    ]

    -- A move with its event, and nothing more.
    pub begin-Leaves {ℓ} :
        {A : Type ℓ} (a : A) (details : List (String × Value)) (at : ℕ)
        → Post
            (Leaves b j db)
            (append_event i type details at (write_status i expected s c db) >>= λ db₂. ok (a, db₂))
    begin-Leaves a details at =
        let w = with_run (Opt.map (alter (is_at i expected) (set_progress s c))) (view j db) in
        Post-bind (λ d. view j d ≡ emitted_by i type details at j w) (Leaves b j db)
          (append_event i type details at (write_status i expected s c db)) _
          (Post-weaken _ (λ d. view j d ≡ emitted_by i type details at j w) _
            (append_event-view i type details at j (write_status i expected s c db))
            λ d e. e ∙ ap (emitted_by i type details at j) (view-write_status i expected s c j db))
          λ db₂ e. subst (Keeps b (view j db)) (sym e) (finished-Keeps details at)

  pub finish_run-Leaves :
      (run : Run) (expected : List RunStatus) (s : RunStatus) (c : RunChange) (type : RunEventType)
      (found : run.id ≡ j → get_run j db ≡ some run)
      (live : any (same_status run.progress.status) expected ≡ true)
      (along : edge run.progress.status s ≡ some type) (db₁ : Db) (also : Run → Db → Result Db)
      (details : List (String × Value)) (at touched : ℕ)
      → Same j db db₁
      → ((u : Run) (db' : Db) → Post (Same j db') (also u db'))
      → Post (Leaves b j db) (finish_run run expected s c also type details at touched db₁)
  finish_run-Leaves run expected s c type found live along db₁ also details at touched h k =
      Post-weaken _ (Leaves b j db) _
        (finish_run-view j db run expected s c type db₁ also details at touched h k)
        λ r e.
          subst (Keeps b (view j db)) (sym e)
            (finished-Keeps run.id run refl expected s c type found live along details at)

-- A run that has ended.
abbrev pub HasEnded : ℕ → Db → Type 0
HasEnded i db = (r : Run) × (get_run i db ≡ some r) × (is_terminal r.progress.status ≡ true)
