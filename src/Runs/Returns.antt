-- ===== src/Runs/Returns.antt =====
-- Where the tables are sound, the writes that end a run of backend/src/application/services.py raise
-- nothing: the number of the event is free, the conversation is there, the status is as expected.
use mathlib.Core.Option as Opt
use mathlib.Core.Path.{subst}
use oper_mind.Base.{
  ℕ, zero, suc, ◌-◌, ◌≤◌, ◌<◌, ◌≡◌, refl, sym, ap, ◌∙◌, Bool, true, false, ◌||◌, String, some, List,
  [], ◌∷◌, ◌++◌, length, arith, ◌==◌, any, alter, ok, Post, Bool-cases, inl, inr,
}
use oper_mind.Runs.Records.{RunStatus, RunEventType, Value, Run, RunEvent, same_status, is_terminal}
use oper_mind.Runs.Store.{
  Result, Db, get_run, RunChange, advance, set_progress, is_at, has_id, bump_sequence, write_status,
  transition_status, reserve_event_sequence, event_at, add_event, touch_updated_at,
}
use oper_mind.Runs.Lifecycle.{
  append_event, touch_session, finish_run, nothing_else, complete_failure,
}
use oper_mind.Runs.View.{
  View, view, events_of, view-bump, view-write_status, get_run-id, append_event-view, emitted_by,
}
use oper_mind.Runs.Journal.{Sound, numbers, sequences, Numbered, Homed}
use oper_mind.Runs.Transition.{transition_status-some}

abbrev pub Returns {ℓ} : {A : Type ℓ} → Result A → Type ℓ
Returns {A = A} m = (a : A) × (m ≡ ok a)

abbrev has_number : ℕ → RunEvent → Bool
has_number n e = e.sequence == n

any-events_of :
    (i n : ℕ) (es : List RunEvent) → any (event_at i n) es ≡ any (has_number n) (events_of i es)
unfolding events_of
any-events_of i n [] = refl
any-events_of i n (e ∷ es) = ground (arith, any-events_of i n es)

any-sequences :
    (n : ℕ) (es : List RunEvent) → any (has_number n) es ≡ any (λ k. k == n) (sequences es)
any-sequences n [] = refl
any-sequences n (e ∷ es) = ground (arith, any-sequences n es)

any-snoc :
    (n k : ℕ) (ks : List ℕ) → any (λ m. m == n) (ks ++ k ∷ []) ≡ (any (λ m. m == n) ks || k == n)
any-snoc n k [] = ground arith
any-snoc n k (x ∷ ks) = ground (arith, any-snoc n k ks)

-- A number above all is not among them.
any-numbers : (n m : ℕ) → m < n → any (λ k. k == n) (numbers m) ≡ false
unfolding numbers
any-numbers n zero h = refl
any-numbers n (suc m) h =
    ground (arith, any-snoc n (suc m) (numbers m), any-numbers n m (omega (arith, h)))

pub reserved :
    (i : ℕ) (db : Db) (r : Run)
    → get_run i db ≡ some r
    → (reserve_event_sequence i db).0 ≡ some r.next_event_sequence
unfolding reserve_event_sequence
reserved i db r found =
    ap (λ (v : View). Opt.map (λ x. x.next_event_sequence - 1) v.run) (view-bump i i db)
    ∙ ap
        (λ o.
          Opt.map (λ (x : Run). x.next_event_sequence - 1)
            (Opt.map (alter (has_id i) bump_sequence) o))
        found
    ∙ ground (arith, get_run-id i db r found)

module _ (i : ℕ) (db : Db) (sound : Sound (view i db)) (r : Run)
    (found : get_run i db ≡ some r) where
  number_is_free : any (event_at i r.next_event_sequence) db.events ≡ false
  number_is_free =
      let (ordered, next) = subst (λ o. Numbered o (events_of i db.events)) found sound.numbered in
      any-events_of i r.next_event_sequence db.events
      ∙ any-sequences r.next_event_sequence (events_of i db.events)
      ∙ rw (ordered, next)
          (any-numbers (suc (length (events_of i db.events))) (length (events_of i db.events))
            (omega arith))

  same_events : (reserve_event_sequence i db).1.events ≡ db.events
  unfolding reserve_event_sequence
  same_events = refl

  pub append_event-Returns :
      (type : RunEventType) (details : List (String × Value)) (at : ℕ)
      → Returns (append_event i type details at db)
  unfolding append_event add_event
  append_event-Returns type details at =
      rw (reserved i db r found, same_events, number_is_free) (_, refl)

touch_session-Returns :
    (i s at : ℕ) (db : Db) → (view i db).homes s ≡ 1 → Returns (touch_session s at db)
unfolding touch_session touch_updated_at
touch_session-Returns i s at db home = rw home (_, refl)

emitted-homes :
    (i : ℕ) (type : RunEventType) (details : List (String × Value)) (at : ℕ) (v : View) (k : ℕ)
    → (emitted_by i type details at i v).homes k ≡ v.homes k
emitted-homes i type details at v k = elim (Bool-cases (i == i)) [
  | inl hit ↦ rw hit refl
  | inr miss ↦ rw miss refl
]

-- A compare-and-set of a run's own row keeps the tables sound.
module _ (i : ℕ) (expected : List RunStatus) (s : RunStatus) (c : RunChange) (db : Db)
    (sound : Sound (view i db)) (run : Run) (found : get_run i db ≡ some run)
    (live : any (same_status run.progress.status) expected ≡ true) where
  abbrev pub changed : Run
  changed = record run { progress = advance s c run.progress }

  pub written : get_run i (write_status i expected s c db) ≡ some changed
  written =
      ap (λ (v : View). v.run) (view-write_status i expected s c i db)
      ∙ ap (Opt.map (alter (is_at i expected) (set_progress s c))) found
      ∙ ground (arith, live, get_run-id i db run found)

  written-Sound : Sound (view i (write_status i expected s c db))
  written-Sound = record {
    rows =
        subst (λ n. n ≤ 1) (sym (ap (λ (v : View). v.rows) (view-write_status i expected s c i db)))
          sound.rows;
    homes = sound.homes;
    homed =
        subst (λ o. Homed o (view i db).homes) (sym written)
          (subst (λ o. Homed o (view i db).homes) found sound.homed);
    numbered =
        subst (λ o. Numbered o (view i db).events) (sym written)
          (subst (λ o. Numbered o (view i db).events) found sound.numbered);
  }

  pub event-Returns :
      (type : RunEventType) (details : List (String × Value)) (at : ℕ)
      → Returns (append_event i type details at (write_status i expected s c db))
  event-Returns type details at =
      append_event-Returns i (write_status i expected s c db) written-Sound changed written type
        details at

  -- The event takes the view on, and leaves the conversations alone.
  event-homes :
      (type : RunEventType) (details : List (String × Value)) (at k : ℕ) (db₂ : Db)
      → append_event i type details at (write_status i expected s c db) ≡ ok db₂
      → (view i db₂).homes k ≡ (view i db).homes k
  event-homes type details at k db₂ e =
      let after =
        subst
          (Post (λ d.
            view i d ≡ emitted_by i type details at i (view i (write_status i expected s c db))))
          e (append_event-view i type details at i (write_status i expected s c db)) in
      ap (λ (v : View). v.homes k) after
      ∙ emitted-homes i type details at (view i (write_status i expected s c db)) k

pub transition_writes :
    (i : ℕ) (expected : List RunStatus) (s : RunStatus) (c : RunChange) (db : Db)
    → (transition_status i expected s c db).1 ≡ write_status i expected s c db
unfolding transition_status
transition_writes i expected s c db = refl

-- A run that is found under an expected status is moved, with its event, and nothing is raised.
pub finish_run-Returns :
    (run : Run) (expected : List RunStatus) (s : RunStatus) (c : RunChange) (type : RunEventType)
    (details : List (String × Value)) (at touched : ℕ) (db : Db)
    → Sound (view run.id db)
    → get_run run.id db ≡ some run
    → any (same_status run.progress.status) expected ≡ true
    → Returns (finish_run run expected s c nothing_else type details at touched db)
unfolding finish_run
finish_run-Returns run expected s c type details at touched db sound found live =
    let (db₂, e) = event-Returns run.id expected s c db sound run found live type details at in
    let home =
      event-homes run.id expected s c db sound run found live type details at run.origin.session_id
        db₂ e
      ∙ subst (λ o. Homed o (view run.id db).homes) found sound.homed in
    let (db₃, t) = touch_session-Returns run.id run.origin.session_id touched db₂ home in
    rw
      (
        transition_status-some run.id run expected s c db found live sound.rows,
        transition_writes run.id expected s c db,
        e,
        t,
      )
      (_, refl)

pub live_unended :
    (s : RunStatus)
    → is_terminal s ≡ false
    → any (same_status s) (RunStatus.running ∷ RunStatus.queued ∷ []) ≡ true
unfolding is_terminal
live_unended s h = ground arith

-- Failing a run of sound tables raises nothing.
pub complete_failure-Returns :
    (now : ℕ → ℕ) (i : ℕ) (code message : String) (db : Db) (run : Run)
    → Sound (view i db)
    → get_run i db ≡ some run
    → Returns (complete_failure now i code message db)
unfolding complete_failure
complete_failure-Returns now i code message db run sound found =
    let own = sym (get_run-id i db run found) in
    elim (Bool-cases (is_terminal run.progress.status)) [
      | inl ended ↦ rw (found, ended) (_, refl)
      | inr unended ↦
          rw (found, unended)
            (finish_run-Returns run (RunStatus.running ∷ RunStatus.queued ∷ []) RunStatus.failed _
              RunEventType.run_failed _ _ _ db (subst (λ k. Sound (view k db)) own sound)
              (subst (λ k. get_run k db ≡ some run) own found)
              (live_unended run.progress.status unended))
    ]
