-- ===== src/Runs/Refinement.antt =====
-- The services of backend/src/application/services.py implement the abstract machine of a run, and what
-- the machine says of a run that has ended.
use mathlib.Core.Option.{some-injective}
use mathlib.Core.Path.{subst}
use oper_mind.Base.{
  ℕ, ◌≡◌, refl, sym, ap, ◌∙◌, inl, inr, Bool, true, false, ◌||◌, Option, none, some, List, [], ◌∷◌,
  arith, any, find,
}
use oper_mind.Runs.Records.{RunStatus, RunEventType, Progress, is_terminal}
use oper_mind.Runs.Store.{Db, empty_db, get_run}
use oper_mind.Runs.View.{view, events_of}
use oper_mind.Runs.Journal.{Journal, Move, stays, accepts, moves, records, edge, journal}
use oper_mind.Runs.Schedule.{
  Ports, Transaction, perform, perform_all, AllSound, is_append, perform-Keeps, empty-Sound,
}

-- No run yet.
abbrev pub unborn : Journal
unborn = record { progress = none; log = [] }

-- Any number of moves; the machine may record an event at any time if `anytime` is true.
pub data Trace (anytime : Bool) (a : Journal) : Journal → Type 0 where
  here : Trace anytime a a
  next : (b c : Journal) → Trace anytime a b → Move anytime b c → Trace anytime a c

weaken : (x y : Bool) (a b : Journal) → (x ≡ true → y ≡ true) → Move x a b → Move y a b
weaken x y a b h (stays e) = stays e
weaken x y a b h (accepts p e₁ e₂ e₃ e₄) = accepts p e₁ e₂ e₃ e₄
weaken x y a b h (moves p q e e₁ e₂ e₃ e₄) = moves p q e e₁ e₂ e₃ e₄
weaken x y a b h (records p e e₁ e₂ (inl l) e₄) = records p e e₁ e₂ (inl (h l)) e₄
weaken x y a b h (records p e e₁ e₂ (inr r) e₄) = records p e e₁ e₂ (inr r) e₄

module _ (p : Ports) where
  abbrev pub journal_after : List (Transaction p) → ℕ → Db → Journal
  journal_after ts j db = journal (view j (perform_all p ts db))

  traced :
      (anytime : Bool) (ts : List (Transaction p)) (db : Db) (j : ℕ) (a : Journal)
      → AllSound p db
      → (any (is_append p) ts ≡ true → anytime ≡ true)
      → Trace anytime a (journal (view j db))
      → Trace anytime a (journal_after ts j db)
  unfolding perform_all
  traced anytime [] db j a s h t = t
  traced anytime (x ∷ ts) db j a s h t =
      traced anytime ts (perform p x db) j a (λ k. (perform-Keeps p x db s k).sound)
        (λ e. h (ground (arith, e)))
        (next _ _ t (
          weaken (is_append p x) anytime _ _ (λ e. h (ground (arith, e)))
            (perform-Keeps p x db s j).follows))

  -- From empty tables, every schedule of the service's transactions takes each run through moves of
  -- the abstract machine only: its birth, the edges of its diagram with one event each, and the
  -- events of its execution; these come while it is running unless the schedule appends without a look at the status.
  pub schedule_is_Trace :
      (ts : List (Transaction p)) (j : ℕ)
      → Trace (any (is_append p) ts) unborn (journal_after ts j empty_db)
  unfolding get_run events_of find
  schedule_is_Trace ts j =
      traced (any (is_append p) ts) ts empty_db j unborn empty-Sound (λ e. e) here

-- No edge leaves a terminal status.
no_edge : (s t : RunStatus) (e : RunEventType) → is_terminal s ≡ true → edge s t ≡ some e → ⊥
unfolding is_terminal
no_edge s t e h k = ground arith

first_false : (a b : Bool) → (a || b) ≡ false → a ≡ false
first_false a b h = ground arith

rest_false : (a b : Bool) → (a || b) ≡ false → b ≡ false
rest_false a b h = ground arith

not_both_ended : (s : RunStatus) → is_terminal s ≡ true → s ≡ RunStatus.running → ⊥
unfolding is_terminal
not_both_ended s t r = cc (t, ap is_terminal r)

same_progress : (o : Option Progress) (p q : Progress) → o ≡ some p → o ≡ some q → p ≡ q
same_progress o p q h k = some-injective p q (sym h ∙ k)

pub ended_progress :
    (anytime : Bool) (a b : Journal) (p : Progress)
    → a.progress ≡ some p
    → is_terminal p.status ≡ true
    → Move anytime a b
    → b.progress ≡ some p
ended_progress anytime a b p h t (stays e) = sym (ap (λ (j : Journal). j.progress) e) ∙ h
ended_progress anytime a b p h t (accepts q e₁ e₂ e₃ e₄) = absurd (cc (h, e₁))
ended_progress anytime a b p h t (moves q r e e₁ e₂ e₃ e₄) = absurd (
    no_edge p.status r.status e t (
      subst (λ (x : Progress). edge x.status r.status ≡ some e) (same_progress a.progress q p e₁ h)
        e₃))
ended_progress anytime a b p h t (records q e e₁ e₂ e₃ e₄) = e₂ ∙ sym e₁ ∙ h

ended_journal :
    (a b : Journal) (p : Progress)
    → a.progress ≡ some p
    → is_terminal p.status ≡ true
    → Move false a b
    → b ≡ a
unfolding is_terminal
ended_journal a b p h t (stays e) = sym e
ended_journal a b p h t (accepts q e₁ e₂ e₃ e₄) = absurd (cc (h, e₁))
ended_journal a b p h t (moves q r e e₁ e₂ e₃ e₄) = absurd (
    no_edge p.status r.status e t (
      subst (λ (x : Progress). edge x.status r.status ≡ some e) (same_progress a.progress q p e₁ h)
        e₃))
ended_journal a b p h t (records q e e₁ e₂ (inl l) e₄) = absurd (cc l)
ended_journal a b p h t (records q e e₁ e₂ (inr running) e₄) = absurd (
    not_both_ended p.status t (
      subst (λ (x : Progress). x.status ≡ RunStatus.running) (same_progress a.progress q p e₁ h)
        running))

module _ (p : Ports) where
  -- A run that has ended keeps its status, its times and its error for ever: no schedule, from a
  -- sound database on, changes them.
  pub ended_keeps_progress :
      (ts : List (Transaction p)) (db : Db) (j : ℕ) (q : Progress)
      → AllSound p db
      → (journal (view j db)).progress ≡ some q
      → is_terminal q.status ≡ true
      → (journal_after p ts j db).progress ≡ some q
  unfolding perform_all
  ended_keeps_progress [] db j q s h t = h
  ended_keeps_progress (x ∷ ts) db j q s h t =
      ended_keeps_progress ts (perform p x db) j q (λ k. (perform-Keeps p x db s k).sound)
        (ended_progress (is_append p x) (journal (view j db)) (journal (view j (perform p x db))) q
          h t (perform-Keeps p x db s j).follows)
        t

  -- A schedule that appends no event without a look at the status adds nothing to the log of a run
  -- that has ended: its status and its log are final.
  pub ended_keeps_journal :
      (ts : List (Transaction p)) (db : Db) (j : ℕ) (q : Progress)
      → AllSound p db
      → any (is_append p) ts ≡ false
      → (journal (view j db)).progress ≡ some q
      → is_terminal q.status ≡ true
      → journal_after p ts j db ≡ journal (view j db)
  unfolding perform_all
  ended_keeps_journal [] db j q s n h t = refl
  ended_keeps_journal (x ∷ ts) db j q s n h t =
      let step = perform-Keeps p x db s j in
      let same = ended_journal (journal (view j db)) (journal (view j (perform p x db))) q h t (
        subst (λ b. Move b (journal (view j db)) (journal (view j (perform p x db))))
          (first_false (is_append p x) (any (is_append p) ts) n) step.follows) in
      ended_keeps_journal ts (perform p x db) j q (λ k. (perform-Keeps p x db s k).sound)
        (rest_false (is_append p x) (any (is_append p) ts) n)
        (ap (λ (a : Journal). a.progress) same ∙ h) t
      ∙ same
