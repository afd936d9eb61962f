-- ===== src/Runs/Reread.antt =====
-- What the writes of an accepted request (`_accept_run_in_transaction` of
-- backend/src/application/services.py) leave in the tables that a replay of it reads.
use mathlib.Core.Option as Opt
use oper_mind.Base.{
  ℕ, ◌≡◌, refl, sym, ap, ◌∙◌, Bool, true, false, not, ◌||◌, String, Option, none, some, arith,
  ==_iff, alter, any, ok, err, Post, Post-else, Post-if, Bool-cases, inl, inr, find,
  find-update_where, find-append, find-none_of_any,
}
use oper_mind.Runs.Records.{
  RunStatus, RunEventType, RunRuntimeKind, Run, IdempotencyKey, Conversation, Endpoint, same_kind,
  same_endpoint,
}
use oper_mind.Runs.Inputs.{InputSnapshot}
use oper_mind.Runs.Store.{
  Db, get_session, session_data, session_has_id, touch_columns, session_not_found, add_message,
  add_run, add_key, add_event, add_input, get_key_by_scope, in_scope, get_run, touch_updated_at,
  has_id, has_input,
}
use oper_mind.Runs.Lifecycle.{touch_session, state}
use oper_mind.Runs.View.{event}
use oper_mind.Runs.Accept.{
  Rules, NewIds, Command, new_message, add_snapshot, target_service, resolve_run_service_id,
}

-- The tables that a replay reads.
pub record IsSameFor (db : Db) (db' : Db) : Type 0 where
  pub sessions : db'.sessions ≡ db.sessions
  pub keys : db'.keys ≡ db.keys
  pub runs : db'.runs ≡ db.runs

pub true_of_not : (b : Bool) → not b ≡ false → b ≡ true
true_of_not true h = refl
true_of_not false h = sym h

same_endpoint_refl : (e : Endpoint) → same_endpoint e e ≡ true
same_endpoint_refl Endpoint.create_endpoint = refl
same_endpoint_refl Endpoint.rerun_endpoint = refl

pub same_kind_refl : (k : RunRuntimeKind) → same_kind k k ≡ true
same_kind_refl RunRuntimeKind.diagnosis = refl
same_kind_refl RunRuntimeKind.main_agent = refl

target_touched :
    (rules : Rules) (at : ℕ) (s : Conversation) (c : Command)
    → target_service rules (touch_columns at s) c ≡ target_service rules s c
unfolding target_service resolve_run_service_id
target_touched rules at s (Command.create_run c) = refl
target_touched rules at s (Command.create_main input) = refl
target_touched rules at s (Command.rerun_main source input) = refl

pub altered_target :
    (rules : Rules) (i at : ℕ) (s : Conversation) (c : Command)
    → target_service rules (alter (session_has_id i) (touch_columns at) s) c
      ≡ target_service rules s c
altered_target rules i at s c = elim (Bool-cases (session_has_id i s)) [
  | inl hit ↦ rw hit (target_touched rules at s c)
  | inr miss ↦ rw miss refl
]

pub altered_status :
    (i at : ℕ) (s : Conversation)
    → (alter (session_has_id i) (touch_columns at) s).status ≡ s.status
altered_status i at s = ground arith

-- The services of a conversation are read the same before and after a touch.
touched_data :
    (i at : ℕ) (o : Option Conversation)
    → Opt.map session_data (Opt.map (alter (session_has_id i) (touch_columns at)) o)
      ≡ Opt.map (alter (session_has_id i) (touch_columns at)) (Opt.map session_data o)
touched_data i at none = refl
touched_data i at (some r) = elim (Bool-cases (session_has_id i r)) [
  | inl hit ↦ rw hit refl
  | inr miss ↦ rw miss refl
]

-- A lookup reads its table only.
pub sessions_find :
    (i : ℕ) (d d' : Db) → d.sessions ≡ d'.sessions → get_session i d ≡ get_session i d'
unfolding get_session
sessions_find i d d' e = ap (λ rows. Opt.map session_data (find (session_has_id i) rows)) e

pub runs_find : (i : ℕ) (d d' : Db) → d.runs ≡ d'.runs → get_run i d ≡ get_run i d'
unfolding get_run
runs_find i d d' e = ap (find (has_id i)) e

pub keys_find :
    (i : ℕ) (endpoint : Endpoint) (key : ℕ) (d d' : Db)
    → d.keys ≡ d'.keys
    → get_key_by_scope i endpoint key d ≡ get_key_by_scope i endpoint key d'
unfolding get_key_by_scope
keys_find i endpoint key d d' e = ap (find (in_scope i endpoint key)) e

module _ (db : Db) where
  same_tables : IsSameFor db db
  same_tables = record { sessions = refl; keys = refl; runs = refl }

  pub message-IsSameFor :
      (ids : NewIds) (i : ℕ) (content : String) (now : ℕ)
      → Post (IsSameFor db) (add_message (new_message ids i content now) db)
  unfolding add_message
  message-IsSameFor ids i content now =
      Post-else (IsSameFor db) _ _ (ok _) (record { sessions = refl; keys = refl; runs = refl })

  pub snapshot-IsSameFor :
      (i : ℕ) (s : Option InputSnapshot) → Post (IsSameFor db) (add_snapshot i s db)
  unfolding add_input
  snapshot-IsSameFor i none = same_tables
  snapshot-IsSameFor i (some s) =
      Post-else (IsSameFor db) _ _ (ok _) (record { sessions = refl; keys = refl; runs = refl })

  pub event-IsSameFor :
      (i : ℕ) (now : ℕ)
      → Post
          (IsSameFor db)
          (add_event (event i RunEventType.run_queued (state RunStatus.queued) now 1) db)
  unfolding add_event
  event-IsSameFor i now =
      Post-else (IsSameFor db) _ _ (ok _) (record { sessions = refl; keys = refl; runs = refl })

  -- The run that is added is found.
  pub run_found :
      (r : Run)
      → Post
          (λ d. (d.sessions ≡ db.sessions) × (d.keys ≡ db.keys) × (get_run r.id d ≡ some r))
          (add_run r db)
  unfolding add_run get_run
  run_found r =
      elim (Bool-cases
        (any (has_id r.id) db.runs || any (has_input r.origin.input_message_id) db.runs)) [
          | inl taken ↦ rw taken tt
          | inr free ↦
              let own : any (has_id r.id) db.runs ≡ false = ground (arith, free) in
              rw free (
                refl,
                refl,
                find-append (has_id r.id) db.runs r
                    ∙ rw (find-none_of_any (has_id r.id) db.runs own, (==_iff r.id r.id).1 refl)
                        refl,
              )
        ]

  pub key_found :
      (k : IdempotencyKey)
      → Post
          (λ d.
            (d.sessions ≡ db.sessions)
            × (d.runs ≡ db.runs)
            × (get_key_by_scope k.session_id k.endpoint k.idempotency_key d ≡ some k))
          (add_key k db)
  unfolding add_key get_key_by_scope
  key_found k =
      elim (Bool-cases (any (in_scope k.session_id k.endpoint k.idempotency_key) db.keys)) [
        | inl taken ↦ rw taken tt
        | inr free ↦ rw free (
          refl,
          refl,
          find-append (in_scope k.session_id k.endpoint k.idempotency_key) db.keys k
              ∙ rw
                  (
                    find-none_of_any _ db.keys free,
                    (==_iff k.session_id k.session_id).1 refl,
                    same_endpoint_refl k.endpoint,
                    (==_iff k.idempotency_key k.idempotency_key).1 refl,
                  )
                  refl,
        )
      ]

  pub touched :
      (i at : ℕ)
      → Post
          (λ d.
            (d.keys ≡ db.keys)
            × (d.runs ≡ db.runs)
            × (get_session i d
                ≡ Opt.map (alter (session_has_id i) (touch_columns at)) (get_session i db)))
          (touch_session i at db)
  unfolding touch_session touch_updated_at get_session
  touched i at =
      Post-if _ (touch_updated_at i at db).0 (ok _) (err session_not_found)
        (λ _. (
          refl,
          refl,
          ap (Opt.map session_data) (
                find-update_where (session_has_id i) (session_has_id i) (touch_columns at)
                  db.sessions
                  λ r. elim (Bool-cases (session_has_id i r)) [
                    | inl hit ↦ rw hit hit
                    | inr miss ↦ rw miss miss
                  ])
              ∙ touched_data i at (find (session_has_id i) db.sessions),
        ))
        λ _. tt
