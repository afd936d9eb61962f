-- ===== src/Runs/Steps/Accept.antt =====
-- Lemmas on the transactions of backend/src/application/services.py that accept a run, and on those of
-- the conversations.
use mathlib.Core.Option as Opt
use mathlib.Core.Path.{subst}
use oper_mind.Base.{
  ℕ, ◌+◌, ◌≡◌, refl, sym, ap, ◌∙◌, Bool, String, Option, none, some, [], ◌∷◌, arith, ◌==◌, ==_iff,
  Post, Post-bind, Post-or_raise, Post-raise_if, Post-then, Bool-cases, Option-cases, inl, inr,
  count_where-found, find,
}
use oper_mind.Runs.Records.{RunStatus, RunEventType, Run, RunEvent, Conversation, is_archived}
use oper_mind.Runs.Inputs.{InputSnapshot}
use oper_mind.Runs.Store.{
  Db, get_session, session_data, session_has_id, session_not_found, session_archived, add_run,
  add_key, add_event, get_key_by_scope,
}
use oper_mind.Runs.Lifecycle.{touch_session, state}
use oper_mind.Runs.Accept.{
  Rules, NewIds, Request, Command, new_message, new_run, new_key, add_snapshot, insert_run,
  accept_new, accept_in_transaction, accepted_input, target_service, replay_key,
}
use oper_mind.Runs.Rerun.{rerun_in_transaction, build_rerun_request}
use oper_mind.Runs.View.{View, view, event, with_event, add_event-view}
use oper_mind.Runs.Writes.{
  Same, add_message-Same, add_key-Same, add_input-Same, touch_session-Same, with_new, add_run-view,
}
use oper_mind.Runs.Journal.{accepts, numbers, Numbered, Sound, Keeps, stays-Keeps}
use oper_mind.Runs.Steps.{Leaves, Same-Leaves, then-Same}

plus_zero : (n : ℕ) → n + 0 ≡ n
plus_zero n = omega arith

module _ (b : Bool) (j : ℕ) (v : View) (sound : Sound v) (r : Run) (e : RunEvent) where
  -- The birth of a run with its first event, in a conversation that has one row.
  born-Keeps :
      r.next_event_sequence ≡ 2
      → r.progress.status ≡ RunStatus.queued
      → e.run_id ≡ r.id
      → e.sequence ≡ 1
      → e.type ≡ RunEventType.run_queued
      → v.homes r.origin.session_id ≡ 1
      → (r.id ≡ j → v.run ≡ none)
      → (r.id ≡ j → v.rows ≡ 0)
      → Keeps b v (with_event j e (with_new j r v))
  unfolding numbers
  born-Keeps next queued own first type home fresh empty = elim (Bool-cases (r.id == j)) [
    | inr miss ↦ rw (own, miss, plus_zero v.rows) (stays-Keeps b v sound)
    | inl hit ↦
        let same = (==_iff r.id j).0 hit in
        let unborn = fresh same in
        let silent = subst (λ o. Numbered o v.events) unborn sound.numbered in
        rw (own, hit, silent)
          (record {
            follows =
                accepts r.progress (ap (Opt.map (λ x. x.progress)) unborn) refl queued
                  (ap (λ t. t ∷ []) type);
            sound = record {
              rows = omega (arith, empty same);
              homes = sound.homes;
              homed = home;
              numbered = (ap (λ n. n ∷ []) first, next);
            };
          })
  ]

module _ (b : Bool) (j : ℕ) (db : Db) (sound : Sound (view j db)) where
  -- A conversation that a lookup finds has exactly one row.
  session_home : (i : ℕ) (s : Conversation) → get_session i db ≡ some s → (view j db).homes i ≡ 1
  unfolding get_session
  session_home i s found = elim (Option-cases (find (session_has_id i) db.sessions)) [
    | inl missing ↦ absurd (cc (sym (ap (Opt.map session_data) missing) ∙ found))
    | inr (row, at) ↦
        omega (arith, sound.homes i, count_where-found (session_has_id i) db.sessions row at)
  ]

  add_snapshot-Same :
      (i : ℕ) (s : Option InputSnapshot) (db₁ : Db) → Post (Same j db₁) (add_snapshot i s db₁)
  add_snapshot-Same i none db₁ = refl
  add_snapshot-Same i (some s) db₁ = add_input-Same j db₁ i s

  insert-Leaves :
      (ids : NewIds) (r : Request) (target : Option String) (content : String)
      (s : Option InputSnapshot) (now : ℕ)
      → (view j db).homes r.session_id ≡ 1
      → Post (Leaves b j db) (insert_run ids r target content s now db)
  unfolding insert_run
  insert-Leaves ids r target content s now home =
      let run = new_run ids r target now in
      let e = event ids.run RunEventType.run_queued (state RunStatus.queued) now 1 in
      let born = with_new j run (view j db) in
      then-Same b j db sound db _ _ refl
        (add_message-Same j db (new_message ids r.session_id content now))
        λ db₁ h₁.
          Post-bind _ (Leaves b j db) (add_run run db₁) _ (add_run-view j db₁ run)
            λ db₂ (h₂, fresh, empty).
              Post-bind (Same j db₂) (Leaves b j db) (add_snapshot ids.run s db₂) _
                (add_snapshot-Same ids.run s db₂)
                λ db₃ h₃.
                  Post-bind (Same j db₃) (Leaves b j db) (add_key (new_key ids r now) db₃) _
                    (add_key-Same j db₃ (new_key ids r now))
                    λ db₄ h₄.
                      Post-bind (λ d. view j d ≡ with_event j e (view j db₄)) (Leaves b j db)
                        (add_event e db₄) _ (add_event-view e j db₄)
                        λ db₅ h₅.
                          Post-bind (Same j db₅) (Leaves b j db)
                            (touch_session r.session_id now db₅) _
                            (touch_session-Same j db₅ r.session_id now)
                            λ db₆ h₆.
                              subst (Keeps b (view j db))
                                (sym (
                                  h₆
                                  ∙ h₅
                                  ∙ ap (with_event j e) (h₄ ∙ h₃ ∙ h₂ ∙ ap (with_new j run) h₁)))
                                (born-Keeps b j (view j db) sound run e refl refl refl refl refl
                                  home (λ same. sym (ap (λ (v : View). v.run) h₁) ∙ fresh same)
                                  (λ same. sym (ap (λ (v : View). v.rows) h₁) ∙ empty same))

  accept_new-Leaves :
      (rules : Rules) (ids : NewIds) (now : ℕ) (r : Request) (target : Option String)
      → (view j db).homes r.session_id ≡ 1
      → Post (Leaves b j db) (accept_new rules ids now r target db)
  unfolding accept_new
  accept_new-Leaves rules ids now r target home =
      Post-then (Leaves b j db) (accepted_input rules ids r.session_id r.command db) _
        λ (content, s) _. insert-Leaves ids r target content s now home

  pub accept-Leaves :
      (rules : Rules) (ids : NewIds) (now : ℕ) (r : Request)
      → Post (Leaves b j db) (accept_in_transaction rules ids now r db)
  unfolding accept_in_transaction
  accept-Leaves rules ids now r =
      Post-or_raise (Leaves b j db) (get_session r.session_id db) session_not_found _ λ s found.
        Post-raise_if (Leaves b j db) (is_archived s.status) session_archived _ λ _.
          Post-then (Leaves b j db) (target_service rules s r.command) _ λ target _.
            elim (Option-cases (get_key_by_scope r.session_id r.endpoint r.idempotency_key db)) [
              | inl fresh ↦
                  rw fresh
                    (accept_new-Leaves rules ids now r target (session_home r.session_id s found))
              | inr (k, known) ↦ rw known (
                  Post-then (Leaves b j db) (replay_key r k db) _
                    λ a _. Same-Leaves b j db sound a db refl)
            ]

  pub rerun-Leaves :
      (fingerprint : ℕ → Command → String) (rules : Rules) (ids : NewIds) (now i key : ℕ)
      → Post (Leaves b j db) (rerun_in_transaction fingerprint rules ids now i key db)
  unfolding rerun_in_transaction
  rerun-Leaves fingerprint rules ids now i key =
      Post-then (Leaves b j db) (build_rerun_request fingerprint i key db) _
        λ r _. accept-Leaves rules ids now r
