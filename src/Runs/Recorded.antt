-- ===== src/Runs/Recorded.antt =====
-- `_append_execution_event` of backend/src/application/services.py: what it does to the view of a run
-- where a run has one row.
use mathlib.Core.Option as Opt
use oper_mind.Base.{
  ℕ, ◌≤◌, ◌≡◌, refl, sym, ap, ◌∙◌, Bool, true, false, String, Option, none, some, List, [], ◌∷◌,
  arith, ◌==◌, ==_iff, find, any, alter, Bool-cases, Option-cases, inl, inr, find-both, found-both,
  if◌then◌else◌, Post, Post-bind, not_both,
}
use oper_mind.Runs.Records.{RunStatus, RunEventType, Value, same_status, Run}
use oper_mind.Runs.Store.{
  Db, has_id, get_run, is_at, bump_sequence, reserve_running_event_sequence, add_event,
}
use oper_mind.Runs.Lifecycle.{append_execution_event, add_reserved}
use oper_mind.Runs.View.{
  View, view, with_run, view-update, event, emitted, with_event, add_event-view, view-IsUnder,
  IsUnder, alter_other,
}

-- The event of an execution: written for a run that is running, or nothing is.
abbrev pub is_running : Option Run → Bool
is_running none = false
is_running (some r) = same_status r.progress.status RunStatus.running

abbrev pub running_emitted : RunEventType → List (String × Value) → ℕ → ℕ → ℕ → View → View
running_emitted type details at i j v =
    if i == j then (if is_running v.run then emitted j type details at v else v) else v

abbrev running : ℕ → Run → Bool
running i = is_at i (RunStatus.running ∷ [])

running_other :
    (i j : ℕ) (o : Option Run)
    → (i == j) ≡ false
    → IsUnder j o
    → Opt.map (alter (running i) bump_sequence) o ≡ o
running_other i j o miss = alter_other (running i) bump_sequence j o λ r h. ground (arith, h, miss)

running_self :
    (i : ℕ) (o : Option Run)
    → IsUnder i o
    → is_running o ≡ true
    → Opt.map (alter (running i) bump_sequence) o ≡ Opt.map bump_sequence o
running_self i none u h = refl
running_self i (some r) u h = ground (arith, u, h)

idle_self :
    (i : ℕ) (o : Option Run)
    → is_running o ≡ false
    → Opt.map (alter (running i) bump_sequence) o ≡ o
idle_self i none h = refl
idle_self i (some r) h = ground (arith, h)

module _ (i j : ℕ) (db : Db) where
  running-bump :
      view j (reserve_running_event_sequence i db).1
      ≡ with_run (Opt.map (alter (running i) bump_sequence)) (view j db)
  unfolding reserve_running_event_sequence
  running-bump = view-update (running i) bump_sequence j db λ r. refl

abbrev runs_now : Run → Bool
runs_now r = any (same_status r.progress.status) (RunStatus.running ∷ [])

runs_now-is_running : (r : Run) → runs_now r ≡ is_running (some r)
runs_now-is_running r = ground arith

not_running :
    (i : ℕ) (db : Db) → find (running i) db.runs ≡ none → is_running (get_run i db) ≡ false
unfolding get_run
not_running i db h = elim (Option-cases (get_run i db)) [
  | inl missing ↦ rw missing refl
  | inr (r, found) ↦
      rw found (sym (runs_now-is_running r) ∙ not_both (has_id i) runs_now db.runs r h found)
]

running_found :
    (i : ℕ) (db : Db) (r : Run)
    → find (running i) db.runs ≡ some r
    → (view i db).rows ≤ 1
    → (get_run i db ≡ some r) × (is_running (get_run i db) ≡ true)
unfolding get_run
running_found i db r h one =
    let found = find-both (has_id i) runs_now db.runs r h one in
    (found, rw found (sym (runs_now-is_running r) ∙ found-both (has_id i) runs_now db.runs r h))

module _ (type : RunEventType) (details : List (String × Value)) (at i j : ℕ) (db : Db) where
  -- What the transaction leaves of `j`, and what it says of `i`.
  abbrev pub Recorded : Bool × Db → Type 0
  Recorded r =
      (view j r.1 ≡ running_emitted type details at i j (view j db))
      × (r.0 ≡ is_running (get_run i db))

  idle-Recorded :
      is_running (get_run i db) ≡ false → Recorded (false, (reserve_running_event_sequence i db).1)
  idle-Recorded idle = elim (Bool-cases (i == j)) [
    | inl hit ↦ (
      running-bump i j db
          ∙ rw (hit, sym ((==_iff i j).0 hit), idle, idle_self i (get_run i db) idle) refl,
      sym idle,
    )
    | inr miss ↦ (
      running-bump i j db
          ∙ rw (miss, running_other i j (get_run j db) miss (view-IsUnder j db)) refl,
      sym idle,
    )
  ]

  busy-view :
      (r : Run)
      → get_run i db ≡ some r
      → is_running (get_run i db) ≡ true
      → with_event j
          (event i type details at r.next_event_sequence)
          (with_run (Opt.map (alter (running i) bump_sequence)) (view j db))
        ≡ running_emitted type details at i j (view j db)
  busy-view r found busy = elim (Bool-cases (i == j)) [
    | inl hit ↦
        rw
          (
            hit,
            sym ((==_iff i j).0 hit),
            busy,
            running_self i (get_run i db) (view-IsUnder i db) busy,
            found,
          )
          refl
    | inr miss ↦ rw (miss, running_other i j (get_run j db) miss (view-IsUnder j db)) refl
  ]

  busy-Recorded :
      (r : Run)
      → get_run i db ≡ some r
      → is_running (get_run i db) ≡ true
      → Post Recorded (
          add_reserved i type details at
            (some r.next_event_sequence, (reserve_running_event_sequence i db).1))
  unfolding add_reserved
  busy-Recorded r found busy =
      let e = event i type details at r.next_event_sequence in
      Post-bind
        (λ db'. view j db' ≡ with_event j e (view j (reserve_running_event_sequence i db).1))
        Recorded (add_event e (reserve_running_event_sequence i db).1) _
        (add_event-view e j (reserve_running_event_sequence i db).1)
        λ db' h. (h ∙ ap (with_event j e) (running-bump i j db) ∙ busy-view r found busy, sym busy)

  pub append_execution_event-Recorded :
      (view i db).rows ≤ 1 → Post Recorded (append_execution_event i type details at db)
  unfolding append_execution_event reserve_running_event_sequence get_run add_reserved
  append_execution_event-Recorded one = elim (Option-cases (find (running i) db.runs)) [
    | inl idle ↦ rw idle (idle-Recorded (not_running i db idle))
    | inr (r, found) ↦
        let (own, busy) = running_found i db r found one in rw found (busy-Recorded r own busy)
  ]
