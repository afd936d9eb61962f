-- ===== src/Runs/Journal.antt =====
-- The life of one run as an abstract machine, a status with the log of its events, and what the rows
-- of a run agree on (backend/src/domain/diagnosis.py and the services that write runs).
use mathlib.Core.Option as Opt
use mathlib.Core.Path.{subst}
use oper_mind.Base.{
  ℕ, zero, suc, ◌≤◌, ◌≡◌, refl, ap, ◌⊎◌, Bool, true, String, Option, none, some, List, [], ◌∷◌,
  ◌++◌, map, length, length-append, arith,
}
use oper_mind.Runs.Records.{RunStatus, RunEventType, Progress, Run, RunEvent, Value}
use oper_mind.Runs.View.{View, event, emitted}

pub record Journal : Type 0 where
  pub progress : Option Progress
  pub log : List RunEventType

-- The edges of the diagram, each with the event that is written along it.
abbrev pub edge : RunStatus → RunStatus → Option RunEventType
edge RunStatus.queued RunStatus.running = some RunEventType.run_started
edge RunStatus.queued RunStatus.failed = some RunEventType.run_failed
edge RunStatus.queued RunStatus.cancelled = some RunEventType.run_cancelled
edge RunStatus.running RunStatus.succeeded = some RunEventType.run_succeeded
edge RunStatus.running RunStatus.failed = some RunEventType.run_failed
edge RunStatus.running RunStatus.cancelled = some RunEventType.run_cancelled
edge _ _ = none

-- A move of the machine: nothing, the birth of a run, an edge, or an event that leaves the status
-- alone, of a run that is running (or of any run, if `anytime`).
pub data Move (anytime : Bool) (a b : Journal) : Type 0 where
  stays : a ≡ b → Move anytime a b
  accepts :
      (p : Progress)
      → a.progress ≡ none
      → b.progress ≡ some p
      → p.status ≡ RunStatus.queued
      → b.log ≡ RunEventType.run_queued ∷ []
      → Move anytime a b
  moves :
      (p q : Progress) (e : RunEventType)
      → a.progress ≡ some p
      → b.progress ≡ some q
      → edge p.status q.status ≡ some e
      → b.log ≡ a.log ++ e ∷ []
      → Move anytime a b
  records :
      (p : Progress) (e : RunEventType)
      → a.progress ≡ some p
      → b.progress ≡ some p
      → (anytime ≡ true) ⊎ (p.status ≡ RunStatus.running)
      → b.log ≡ a.log ++ e ∷ []
      → Move anytime a b

abbrev pub types : List RunEvent → List RunEventType
types = map (λ e. e.type)

abbrev pub journal : View → Journal
journal v = record { progress = Opt.map (λ r. r.progress) v.run; log = types v.events }

-- 1, 2, ..., n
unfoldable pub numbers : ℕ → List ℕ
numbers zero = []
numbers (suc n) = numbers n ++ suc n ∷ []

abbrev pub sequences : List RunEvent → List ℕ
sequences = map (λ e. e.sequence)

-- The events of a run are numbered without a gap, and its counter is the next number.
abbrev pub Numbered : Option Run → List RunEvent → Type 0
Numbered none es = es ≡ []
Numbered (some r) es =
    (sequences es ≡ numbers (length es)) × (r.next_event_sequence ≡ suc (length es))

abbrev pub Homed : Option Run → (ℕ → ℕ) → Type 0
Homed none homes = Unit
Homed (some r) homes = homes r.origin.session_id ≡ 1

-- What the tables hold of a run in every reachable database: one row at most, its conversation, its
-- events in order.
pub record Sound (v : View) : Type 0 where
  pub rows : v.rows ≤ 1
  pub homes : (s : ℕ) → v.homes s ≤ 1
  pub homed : Homed v.run v.homes
  pub numbered : Numbered v.run v.events

pub record Keeps (anytime : Bool) (v w : View) : Type 0 where
  pub follows : Move anytime (journal v) (journal w)
  pub sound : Sound w

pub stays-Keeps : (b : Bool) (v : View) → Sound v → Keeps b v v
stays-Keeps b v s = record { follows = stays refl; sound = s }

map-snoc {ℓ κ} :
    {A : Type ℓ} {B : Type κ} (f : A → B) (xs : List A) (x : A)
    → map f (xs ++ x ∷ []) ≡ map f xs ++ f x ∷ []
map-snoc f [] x = refl
map-snoc f (y ∷ xs) x = ap (λ l. f y ∷ l) (map-snoc f xs x)

length-snoc {ℓ} : {A : Type ℓ} (xs : List A) (x : A) → length (xs ++ x ∷ []) ≡ suc (length xs)
length-snoc xs x = omega (arith, length-append xs (x ∷ []))

numbered-snoc :
    (es : List RunEvent) (e : RunEvent)
    → sequences es ≡ numbers (length es)
    → e.sequence ≡ suc (length es)
    → sequences (es ++ e ∷ []) ≡ numbers (length (es ++ e ∷ []))
unfolding numbers
numbered-snoc es e h n = rw (map-snoc (λ x. x.sequence) es e, length-snoc es e, h, n) refl

-- A run's row takes new values in the columns that a transition writes, and an event is written.
module _ (b : Bool) (v : View) (j : ℕ) (type : RunEventType) (details : List (String × Value))
    (at : ℕ) (r : Run) (found : v.run ≡ some r) (p : Progress) where
  abbrev pub after : View
  after = emitted j type details at (record v { run = some (record r { progress = p }) })

  after-Sound : Sound v → Sound after
  after-Sound s =
      let (ordered, next) = subst (λ o. Numbered o v.events) found s.numbered in
      record {
        rows = s.rows;
        homes = s.homes;
        homed = subst (λ o. Homed o v.homes) found s.homed;
        numbered = (
          numbered-snoc v.events (event j type details at r.next_event_sequence) ordered next,
          omega (arith, next, length-snoc v.events (event j type details at r.next_event_sequence)),
        );
      }

  log-after : types after.events ≡ types v.events ++ type ∷ []
  log-after = map-snoc (λ e. e.type) v.events (event j type details at r.next_event_sequence)

  was : Opt.map (λ x. x.progress) v.run ≡ some r.progress
  was = ap (Opt.map (λ x. x.progress)) found

  pub moved-Keeps : edge r.progress.status p.status ≡ some type → Sound v → Keeps b v after
  moved-Keeps e s = record {
    follows = moves r.progress p type was refl e log-after;
    sound = after-Sound s;
  }

  pub recorded-Keeps :
      p ≡ r.progress
      → (b ≡ true) ⊎ (r.progress.status ≡ RunStatus.running)
      → Sound v
      → Keeps b v after
  recorded-Keeps same allowed s = record {
    follows = records r.progress type was (ap some same) allowed log-after;
    sound = after-Sound s;
  }
