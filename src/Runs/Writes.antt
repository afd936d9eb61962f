-- ===== src/Runs/Writes.antt =====
-- What the writes beside a run's own row and events do to the view of a run: the other tables, the
-- sessions, a new run, and the event of an execution.
use mathlib.Core.Path.{fun_ext}
use oper_mind.Base.{
  ℕ, ◌+◌, ◌≡◌, refl, sym, ap, Bool, Option, none, some, arith, ◌==◌, any, update_where, Bool-cases,
  inl, inr, find-append_fresh, find-none_of_any, count_where-update_where, count_where-append,
  count_where-none_of_any, if◌then◌else◌, ok, err, Post, Post-else, Post-if,
}
use oper_mind.Agent.Records.{MainDelivery}
use oper_mind.Actions.Records.{Snapshot}
use oper_mind.Actions.Events.{create_proposal}
use oper_mind.Actions.Store as Actions
use oper_mind.Runs.Records.{Conversation, Message, Run, IdempotencyKey, DiagnosisResult}
use oper_mind.Runs.Inputs.{InputSnapshot}
use oper_mind.Runs.Store.{
  Db, session_has_id, touch_columns, touch_updated_at, restore, restore_columns, is_archived_row,
  save_session, save_columns, add_session, add_message, has_id, has_input, add_run, get_run,
  add_result, add_input, add_delivery, add_key, integrity, session_not_found,
}
use oper_mind.Runs.Lifecycle.{touch_session}
use oper_mind.Runs.Complete.{create_proposal_for, store_actions}
use oper_mind.Runs.View.{View, view}

abbrev with_homes : View → (ℕ → ℕ) → View
with_homes v h = record v { homes = h }

abbrev pub with_home : ℕ → View → View
with_home i v = record v { homes = λ s. v.homes s + (if i == s then 1 else 0) }

abbrev pub with_new : ℕ → Run → View → View
with_new j r v = record v {
  run = if r.id == j then some r else v.run;
  rows = v.rows + (if r.id == j then 1 else 0);
}

abbrev pub Same : ℕ → Db → Db → Type 0
Same j db db' = view j db' ≡ view j db

module _ (j : ℕ) (db : Db) where
  pub add_message-Same : (m : Message) → Post (Same j db) (add_message m db)
  unfolding add_message get_run
  add_message-Same m = Post-else (Same j db) _ _ (ok _) refl

  pub add_result-Same : (r : DiagnosisResult) → Post (Same j db) (add_result r db)
  unfolding add_result get_run
  add_result-Same r = Post-else (Same j db) _ _ (ok _) refl

  pub add_input-Same : (i : ℕ) (s : InputSnapshot) → Post (Same j db) (add_input i s db)
  unfolding add_input get_run
  add_input-Same i s = Post-else (Same j db) _ _ (ok _) refl

  pub add_delivery-Same : (i : ℕ) (d : MainDelivery) → Post (Same j db) (add_delivery i d db)
  unfolding add_delivery get_run
  add_delivery-Same i d = Post-else (Same j db) _ _ (ok _) refl

  pub add_key-Same : (k : IdempotencyKey) → Post (Same j db) (add_key k db)
  unfolding add_key get_run
  add_key-Same k = Post-else (Same j db) _ _ (ok _) refl

  store_actions-Same {ℓ} :
      {A : Type ℓ} (r : Actions.Result (A × Actions.Db)) → Post (Same j db) (store_actions db r)
  unfolding store_actions get_run
  store_actions-Same (Actions.ok (p, actions)) = refl
  store_actions-Same (Actions.err e) = tt

  pub create_proposal_for-Same :
      (now : ℕ → ℕ) (new_id : ℕ) (s : Option Snapshot)
      → Post (Same j db) (create_proposal_for now new_id s db)
  unfolding create_proposal_for
  create_proposal_for-Same now new_id s =
      store_actions-Same (create_proposal now new_id s db.actions)

  -- An update of the conversations that leaves their identifiers alone.
  sessions-Same :
      (q : Conversation → Bool) (f : Conversation → Conversation)
      → ((r : Conversation) → (f r).id ≡ r.id)
      → Same j db (record db { sessions = update_where q f db.sessions })
  unfolding get_run
  sessions-Same q f h = ap (with_homes (view j db)) (
      fun_ext
        λ s. count_where-update_where (session_has_id s) q f db.sessions λ r. ground (arith, h r))

  pub touch-Same : (i at : ℕ) → Same j db (touch_updated_at i at db).1
  unfolding touch_updated_at
  touch-Same i at = sessions-Same (session_has_id i) (touch_columns at) λ r. refl

  pub restore-Same : (i at : ℕ) → Same j db (restore i at db).1
  unfolding restore
  restore-Same i at = sessions-Same (is_archived_row i) (restore_columns at) λ r. refl

  pub save_session-Same : (s : Conversation) → Same j db (save_session s db)
  unfolding save_session
  save_session-Same s = sessions-Same (session_has_id s.id) (save_columns s) λ r. refl

  pub touch_session-Same : (i at : ℕ) → Post (Same j db) (touch_session i at db)
  unfolding touch_session touch_updated_at
  touch_session-Same i at =
      Post-if (Same j db) (touch_updated_at i at db).0 (ok _) (err session_not_found)
        (λ _. touch-Same i at) λ _. tt

  pub add_session-view :
      (s : Conversation)
      → Post
          (λ db'. (view j db' ≡ with_home s.id (view j db)) × ((view j db).homes s.id ≡ 0))
          (add_session s db)
  unfolding add_session get_run
  add_session-view s = elim (Bool-cases (any (session_has_id s.id) db.sessions)) [
    | inl taken ↦ rw taken tt
    | inr free ↦ rw free (
      ap (with_homes (view j db))
          (fun_ext λ i. count_where-append (session_has_id i) db.sessions s),
      count_where-none_of_any (session_has_id s.id) db.sessions free,
    )
  ]

  pub add_run-view :
      (r : Run)
      → Post
          (λ db'.
            (view j db' ≡ with_new j r (view j db))
            × (r.id ≡ j → (view j db).run ≡ none)
            × (r.id ≡ j → (view j db).rows ≡ 0))
          (add_run r db)
  unfolding add_run get_run
  add_run-view r = elim (Bool-cases (any (has_id r.id) db.runs)) [
    | inl taken ↦ rw taken tt
    | inr free ↦
        let unused = find-none_of_any (has_id r.id) db.runs free in
        rw free (
          Post-else _ (any (has_input r.origin.input_message_id) db.runs) integrity (ok _) (
            rw
                (
                  find-append_fresh (λ x. x.id) j db.runs r unused,
                  count_where-append (has_id j) db.runs r,
                )
                refl,
            (λ same. rw (sym same) unused),
            (λ same. rw (sym same) (count_where-none_of_any (has_id r.id) db.runs free)),
          ))
  ]
