-- ===== src/Runs/Steps/Events.antt =====
-- Lemmas on `_append_event` and `_append_execution_event` of backend/src/application/services.py.
use mathlib.Core.Option as Opt
use mathlib.Core.Path.{subst}
use oper_mind.Base.{
  ℕ, ◌-◌, ◌≡◌, ◌≤◌, refl, sym, ap, ◌∙◌, Bool, true, String, Option, none, some, List, arith, ◌==◌,
  ==_iff, alter, Post, Post-bind, Post-or_raise, Post-and, Post-all, ◌⊎◌, Post-weaken, Bool-cases,
  Option-cases, inl, inr,
}
use oper_mind.Runs.Records.{RunStatus, RunEventType, Value, Run}
use oper_mind.Runs.Store.{Db, get_run, reserve_event_sequence, add_event, bump_sequence, has_id}
use oper_mind.Runs.Lifecycle.{append_any, append_event, append_execution_event}
use oper_mind.Runs.View.{view-bump, View, view, emitted, emitted_by, append_event-view}
use oper_mind.Runs.Recorded.{is_running, running_emitted, Recorded, append_execution_event-Recorded}
use oper_mind.Runs.Journal.{Sound, Keeps, stays-Keeps, recorded-Keeps}
use oper_mind.Runs.Steps.{Leaves}

running_run :
    (o : Option Run)
    → is_running o ≡ true
    → (r : Run) × (o ≡ some r) × (r.progress.status ≡ RunStatus.running)
running_run none h = absurd (cc h)
running_run (some r) h = (r, refl, ground (arith, h))

module _ (b : Bool) (j : ℕ) (db : Db) (sound : Sound (view j db)) where
  -- An event that leaves the run's status alone.
  event-Keeps :
      (type : RunEventType) (details : List (String × Value)) (at : ℕ) (r : Run)
      → get_run j db ≡ some r
      → (b ≡ true) ⊎ (r.progress.status ≡ RunStatus.running)
      → Keeps b (view j db) (emitted j type details at (view j db))
  event-Keeps type details at r found allowed =
      subst (λ o. Keeps b (view j db) (emitted j type details at (record (view j db) { run = o })))
        (sym found)
        (recorded-Keeps b (view j db) j type details at r found r.progress refl allowed sound)

  record-Keeps :
      (type : RunEventType) (details : List (String × Value)) (at i : ℕ)
      → Keeps b (view j db) (running_emitted type details at i j (view j db))
  record-Keeps type details at i = elim (Bool-cases (i == j)) [
    | inr miss ↦ rw miss (stays-Keeps b (view j db) sound)
    | inl hit ↦ elim (Bool-cases (is_running (get_run j db))) [
      | inr idle ↦ rw (hit, idle) (stays-Keeps b (view j db) sound)
      | inl busy ↦
          let (r, found, running) = running_run (get_run j db) busy in
          rw (hit, busy) (event-Keeps type details at r found (inr running))
    ]
  ]

  pub record-Leaves :
      (type : RunEventType) (details : List (String × Value)) (at i : ℕ)
      → (view i db).rows ≤ 1
      → Post (Leaves b j db) (append_execution_event i type details at db)
  record-Leaves type details at i one =
      Post-weaken (Recorded type details at i j db) (Leaves b j db) _
        (append_execution_event-Recorded type details at i j db one)
        λ r h. subst (Keeps b (view j db)) (sym h.0) (record-Keeps type details at i)

abbrev Exists : ℕ → Db → Type 0
Exists i db = (r : Run) × (get_run i db ≡ some r)

reserved-Exists : (i n : ℕ) (db : Db) → (reserve_event_sequence i db).0 ≡ some n → Exists i db
unfolding reserve_event_sequence
reserved-Exists i n db h = elim (Option-cases (get_run i db)) [
  | inr found ↦ found
  | inl missing ↦
      let gone =
        ap (λ (v : View). v.run) (view-bump i i db)
        ∙ ap (Opt.map (alter (has_id i) bump_sequence)) missing in
      absurd (cc (sym h ∙ ap (Opt.map (λ r. r.next_event_sequence - 1)) gone))
]

-- An event that is written whatever the status of its run is.
module _ (j : ℕ) (db : Db) (sound : Sound (view j db)) where
  any-Keeps :
      (type : RunEventType) (details : List (String × Value)) (at i : ℕ) (r : Run)
      → get_run i db ≡ some r
      → Keeps true (view j db) (emitted_by i type details at j (view j db))
  any-Keeps type details at i r found = elim (Bool-cases (i == j)) [
    | inr miss ↦ rw miss (stays-Keeps true (view j db) sound)
    | inl hit ↦
        let own = subst (λ k. get_run k db ≡ some r) ((==_iff i j).0 hit) found in
        rw hit (event-Keeps true j db sound type details at r own (inl refl))
  ]

  append-Exists :
      (type : RunEventType) (details : List (String × Value)) (at i : ℕ)
      → Post (λ _. Exists i db) (append_event i type details at db)
  unfolding append_event
  append-Exists type details at i =
      Post-or_raise (λ _. Exists i db) (reserve_event_sequence i db).0 _ _
        λ n h. Post-all (λ _. Exists i db) (add_event _ _) λ _. reserved-Exists i n db h

  pub append-Leaves :
      (type : RunEventType) (details : List (String × Value)) (at i : ℕ)
      → Post (Leaves true j db) (append_any i type details at db)
  unfolding append_any
  append-Leaves type details at i =
      Post-bind (λ d. (view j d ≡ emitted_by i type details at j (view j db)) × Exists i db)
        (Leaves true j db) (append_event i type details at db) _
        (Post-and _ _ _ (append_event-view i type details at j db)
          (append-Exists type details at i))
        λ d h. subst (Keeps true (view j db)) (sym h.0) (any-Keeps type details at i h.1.0 h.1.1)
