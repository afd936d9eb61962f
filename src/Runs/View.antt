-- ===== src/Runs/View.antt =====
-- What the tables hold of one run, and what each repository call does to it: equations for the
-- transactions of the component.
use mathlib.Core.Option as Opt
use oper_mind.Base.{
  ℕ, ◌-◌, ◌≡◌, refl, sym, ap, ◌∙◌, Bool, false, String, Option, none, some, List, [], ◌∷◌, ◌++◌,
  arith, ◌==◌, ==_iff, find, alter, update_where, count_where, Bool-cases, inl, inr,
  find-update_where, count_where-update_where, if◌then◌else◌, ok, Post, Post-else, Post-or_raise,
  Post-weaken,
}
use oper_mind.Runs.Records.{RunStatus, RunEventType, Value, Run, RunEvent}
use oper_mind.Runs.Store.{
  Db, session_has_id, has_id, get_run, RunChange, set_progress, is_at, write_status, bump_sequence,
  reserve_event_sequence, add_event,
}
use oper_mind.Runs.Lifecycle.{append_event}

abbrev pub for_run : ℕ → RunEvent → Bool
for_run j e = e.run_id == j

-- The events of a run, in the order in which they were written.
unfoldable pub events_of : ℕ → List RunEvent → List RunEvent
events_of j [] = []
events_of j (e ∷ es) = let rest = events_of j es in if for_run j e then e ∷ rest else rest

pub record View : Type 0 where
  pub run : Option Run
  pub events : List RunEvent
  pub rows : ℕ
  pub homes : ℕ → ℕ

abbrev pub view : ℕ → Db → View
view j db = record {
  run = get_run j db;
  events = events_of j db.events;
  rows = count_where (has_id j) db.runs;
  homes = λ s. count_where (session_has_id s) db.sessions;
}

abbrev pub with_run : (Option Run → Option Run) → View → View
with_run f v = record v { run = f v.run }

-- An update of the runs that leaves their identifiers alone.
pub view-update :
    (q : Run → Bool) (f : Run → Run) (j : ℕ) (db : Db)
    → ((r : Run) → (f r).id ≡ r.id)
    → view j (record db { runs = update_where q f db.runs })
      ≡ with_run (Opt.map (alter q f)) (view j db)
unfolding get_run
view-update q f j db h =
    let kept : (r : Run) → has_id j (alter q f r) ≡ has_id j r = λ r. ground (arith, h r) in
    rw
      (
        find-update_where (has_id j) q f db.runs kept,
        count_where-update_where (has_id j) q f db.runs kept,
      )
      refl

pub view-write_status :
    (i : ℕ) (expected : List RunStatus) (s : RunStatus) (c : RunChange) (j : ℕ) (db : Db)
    → view j (write_status i expected s c db)
      ≡ with_run (Opt.map (alter (is_at i expected) (set_progress s c))) (view j db)
view-write_status i expected s c j db =
    view-update (is_at i expected) (set_progress s c) j db λ r. refl

find_id : (j : ℕ) (l : List Run) (r : Run) → find (has_id j) l ≡ some r → r.id ≡ j
unfolding find
find_id j [] r h = cc
find_id j (x ∷ l) r h = ground (arith, find_id j l r)

pub get_run-id : (j : ℕ) (db : Db) (r : Run) → get_run j db ≡ some r → r.id ≡ j
unfolding get_run
get_run-id j db r h = find_id j db.runs r h

-- A run that is looked up under `j` has that identifier.
abbrev pub IsUnder : ℕ → Option Run → Type 0
IsUnder j none = Unit
IsUnder j (some r) = r.id ≡ j

IsUnder-of : (j : ℕ) (o : Option Run) → ((r : Run) → o ≡ some r → r.id ≡ j) → IsUnder j o
IsUnder-of j none h = tt
IsUnder-of j (some r) h = h r refl

pub view-IsUnder : (j : ℕ) (db : Db) → IsUnder j (get_run j db)
view-IsUnder j db = IsUnder-of j (get_run j db) (get_run-id j db)

pub alter_other :
    (q : Run → Bool) (f : Run → Run) (j : ℕ) (o : Option Run)
    → ((r : Run) → r.id ≡ j → q r ≡ false)
    → IsUnder j o
    → Opt.map (alter q f) o ≡ o
alter_other q f j none h u = refl
alter_other q f j (some r) h u = ground (arith, h r u)

alter_self :
    (f : Run → Run) (j : ℕ) (o : Option Run)
    → IsUnder j o
    → Opt.map (alter (has_id j) f) o ≡ Opt.map f o
alter_self f j none u = refl
alter_self f j (some r) u = ground arith

events_of-append :
    (j : ℕ) (es : List RunEvent) (e : RunEvent)
    → events_of j (es ++ e ∷ [])
      ≡ (if e.run_id == j then events_of j es ++ e ∷ [] else events_of j es)
unfolding events_of
events_of-append j [] e = ground arith
events_of-append j (x ∷ es) e = ground (arith, events_of-append j es e)

abbrev pub with_event : ℕ → RunEvent → View → View
with_event j e v = record v { events = if e.run_id == j then v.events ++ e ∷ [] else v.events }

pub add_event-view :
    (e : RunEvent) (j : ℕ) (db : Db)
    → Post (λ db'. view j db' ≡ with_event j e (view j db)) (add_event e db)
unfolding add_event get_run
add_event-view e j db =
    Post-else (λ db'. view j db' ≡ with_event j e (view j db)) _ _ (ok _)
      (rw (events_of-append j db.events e) refl)

abbrev pub next_of : Option Run → ℕ
next_of none = 0
next_of (some r) = r.next_event_sequence

abbrev pub event : ℕ → RunEventType → List (String × Value) → ℕ → ℕ → RunEvent
event i type details at n = record {
  run_id = i;
  sequence = n;
  type = type;
  occurred_at = at;
  details = details;
}

-- A run's counter advances and the event that took its number is written.
abbrev pub emitted : ℕ → RunEventType → List (String × Value) → ℕ → View → View
emitted j type details at v = record v {
  run = Opt.map bump_sequence v.run;
  events = v.events ++ event j type details at (next_of v.run) ∷ [];
}

abbrev pub emitted_by : ℕ → RunEventType → List (String × Value) → ℕ → ℕ → View → View
emitted_by i type details at j v = if i == j then emitted j type details at v else v

pub view-bump :
    (i j : ℕ) (db : Db)
    → view j (reserve_event_sequence i db).1
      ≡ with_run (Opt.map (alter (has_id i) bump_sequence)) (view j db)
unfolding reserve_event_sequence
view-bump i j db = view-update (has_id i) bump_sequence j db λ r. refl

reserved-next :
    (o : Option Run) (n : ℕ)
    → Opt.map (λ r. r.next_event_sequence - 1) (Opt.map bump_sequence o) ≡ some n
    → n ≡ next_of o
reserved-next none n h = cc
reserved-next (some r) n h = ground arith

-- The run that the counter of `i` advances, seen from `j`.
bump_other :
    (i j : ℕ) (o : Option Run)
    → (i == j) ≡ false
    → IsUnder j o
    → Opt.map (alter (has_id i) bump_sequence) o ≡ o
bump_other i j o miss = alter_other (has_id i) bump_sequence j o λ r h. ground (arith, h, miss)

reserved_is :
    (j n : ℕ) (db : Db) → (reserve_event_sequence j db).0 ≡ some n → n ≡ next_of (get_run j db)
unfolding reserve_event_sequence
reserved_is j n db h = reserved-next (get_run j db) n (
    sym (
      ap (Opt.map (λ r. r.next_event_sequence - 1)) (
        ap (λ (v : View). v.run) (view-bump j j db)
        ∙ alter_self bump_sequence j (get_run j db) (view-IsUnder j db)))
    ∙ h)

module _ (i : ℕ) (type : RunEventType) (details : List (String × Value)) (at : ℕ) (j : ℕ)
    (db : Db) where
  append_with :
      (n : ℕ) (v : View)
      → with_event j
          (event i type details at n)
          (with_run (Opt.map (alter (has_id i) bump_sequence)) (view j db))
        ≡ v
      → Post
          (λ db'. view j db' ≡ v)
          (add_event (event i type details at n) (reserve_event_sequence i db).1)
  append_with n v h =
      Post-weaken
        (λ db'.
          view j db'
          ≡ with_event j (event i type details at n) (view j (reserve_event_sequence i db).1))
        (λ db'. view j db' ≡ v) _
        (add_event-view (event i type details at n) j (reserve_event_sequence i db).1)
        λ db' e. e ∙ ap (with_event j (event i type details at n)) (view-bump i j db) ∙ h

  pub append_event-view :
      Post
        (λ db'. view j db' ≡ emitted_by i type details at j (view j db))
        (append_event i type details at db)
  unfolding append_event
  append_event-view =
      Post-or_raise (λ db'. view j db' ≡ emitted_by i type details at j (view j db))
        (reserve_event_sequence i db).0 _ _
        λ n h. elim (Bool-cases (i == j)) [
          | inl hit ↦ append_with n _ (
              rw
                (
                  hit,
                  sym ((==_iff i j).0 hit),
                  alter_self bump_sequence i (get_run i db) (view-IsUnder i db),
                  reserved_is i n db h,
                )
                refl)
          | inr miss ↦
              append_with n _
                (rw (miss, bump_other i j (get_run j db) miss (view-IsUnder j db)) refl)
        ]
