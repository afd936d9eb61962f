-- ===== src/Runs/Replay.antt =====
-- A request to accept a run that is sent again (`_accept_run_in_transaction` of
-- backend/src/application/services.py).
use mathlib.Core.Option as Opt
use mathlib.Core.Path.{subst}
use oper_mind.Base.{
  ℕ, ◌≡◌, refl, ap, ◌∙◌, true, false, not, String, str_eq, eq_iff, Option, some, alter, ok, err,
  if◌then◌else◌, ◌&&◌, ◌>>=◌, Post, Post-bind, Post-or_raise, Post-raise_if, Post-then, Bool-cases,
  Option-cases, inl, inr,
}
use oper_mind.Runs.Records.{
  RunRuntimeKind, RunStatus, RunEventType, IdempotencyKey, Conversation, is_archived, same_kind,
}
use oper_mind.Runs.Inputs.{InputSnapshot}
use oper_mind.Runs.Store.{
  Result, Db, get_session, session_has_id, touch_columns, session_not_found, session_archived,
  key_reused, run_not_found, add_message, add_run, add_key, add_event, get_key_by_scope, get_run,
}
use oper_mind.Runs.Lifecycle.{touch_session, state}
use oper_mind.Runs.View.{event}
use oper_mind.Runs.Accept.{
  Command, Rules, NewIds, Request, AcceptedRun, command_runtime_kind, new_message, new_run, new_key,
  add_snapshot, insert_run, accept_new, accept_in_transaction, accepted_input, target_service,
  replay_key,
}
use oper_mind.Runs.Reread.{
  true_of_not, same_kind_refl, altered_target, altered_status, sessions_find, runs_find, keys_find,
  message-IsSameFor, snapshot-IsSameFor, event-IsSameFor, run_found, key_found, touched,
}

same_kind_eq : (a b : RunRuntimeKind) → same_kind a b ≡ true → a ≡ b
same_kind_eq RunRuntimeKind.diagnosis RunRuntimeKind.diagnosis h = refl
same_kind_eq RunRuntimeKind.main_agent RunRuntimeKind.main_agent h = refl
same_kind_eq RunRuntimeKind.diagnosis RunRuntimeKind.main_agent h = absurd (cc (h))
same_kind_eq RunRuntimeKind.main_agent RunRuntimeKind.diagnosis h = absurd (cc (h))

-- The same continuation after a call.
then_same {ℓ κ} :
    {A : Type ℓ} {B : Type κ} (m : Result A) (f g : A → Result B)
    → ((x : A) → f x ≡ g x)
    → (m >>= f) ≡ (m >>= g)
then_same (ok x) f g h = h x
then_same (err e) f g h = refl

-- What a replay of a request finds: its conversation, with the services that it had before, its key
-- and the run of the key.
record IsReplayable (rules : Rules) (r : Request) (db : Db) (a : AcceptedRun) (d : Db)
    : Type 0 where
  before : Conversation
  was : get_session r.session_id db ≡ some before
  session : Conversation
  known : get_session r.session_id d ≡ some session
  active : is_archived session.status ≡ false
  target : Option String
  targeted : target_service rules before r.command ≡ ok target
  same_services : (c : Command) → target_service rules session c ≡ target_service rules before c
  key : IdempotencyKey
  keyed : get_key_by_scope r.session_id r.endpoint r.idempotency_key d ≡ some key
  fingerprint : key.request_fingerprint ≡ r.fingerprint
  run : get_run key.run_id d ≡ some a.run
  kind : same_kind a.run.origin.runtime_kind (command_runtime_kind r.command) ≡ true

module _ (rules : Rules) (r : Request) where
  -- A command that is sent with the key of an accepted request.
  replays :
      (db : Db) (a : AcceptedRun) (d : Db) (k : IsReplayable rules r db a d) (ids : NewIds)
      (now : ℕ) (c : Command) (f : String)
      → accept_in_transaction rules ids now (record r { command = c; fingerprint = f }) d ≡ (
          target_service rules k.before c >>= λ _.
          if str_eq r.fingerprint f
            && same_kind (command_runtime_kind r.command) (command_runtime_kind c)
          then ok (record { run = a.run; replayed = true }, d)
          else err key_reused)
  unfolding accept_in_transaction replay_key
  replays db a d k ids now c f =
      rw (k.known, k.active, k.same_services c)
        (then_same (target_service rules k.before c) _ _ λ target.
          let own =
            same_kind_eq a.run.origin.runtime_kind (command_runtime_kind r.command) k.kind in
          rw (k.keyed, k.fingerprint)
            (elim (Bool-cases (str_eq r.fingerprint f)) [
              | inr other ↦ rw other refl
              | inl same ↦
                  elim (Bool-cases
                    (same_kind (command_runtime_kind r.command) (command_runtime_kind c))) [
                      | inl alike ↦ rw (same, k.run, own, alike) refl
                      | inr unlike ↦ rw (same, k.run, own, unlike) refl
                    ]
            ]))

  inserted :
      (db : Db) (s : Conversation) (target : Option String)
      → get_session r.session_id db ≡ some s
      → is_archived s.status ≡ false
      → target_service rules s r.command ≡ ok target
      → (ids : NewIds) (content : String) (snapshot : Option InputSnapshot) (now : ℕ)
      → Post
          (λ x. IsReplayable rules r db x.0 x.1)
          (insert_run ids r target content snapshot now db)
  unfolding insert_run
  inserted db s target known active targeted ids content snapshot now =
      let P : AcceptedRun × Db → Type 0 = λ x. IsReplayable rules r db x.0 x.1 in
      let run = new_run ids r target now in
      let k = new_key ids r now in
      Post-bind _ P (add_message (new_message ids r.session_id content now) db) _
        (message-IsSameFor db ids r.session_id content now)
        λ db₁ h₁. Post-bind _ P (add_run run db₁) _ (run_found db₁ run) λ db₂ h₂.
          Post-bind _ P (add_snapshot ids.run snapshot db₂) _
            (snapshot-IsSameFor db₂ ids.run snapshot)
            λ db₃ h₃. Post-bind _ P (add_key k db₃) _ (key_found db₃ k) λ db₄ h₄.
              Post-bind _ P
                (add_event (event ids.run RunEventType.run_queued (state RunStatus.queued) now 1)
                  db₄)
                _ (event-IsSameFor db₄ ids.run now)
                λ db₅ h₅.
                  Post-bind _ P (touch_session r.session_id now db₅) _
                    (touched db₅ r.session_id now)
                    λ db₆ h₆. record {
                      before = s;
                      was = known;
                      same_services = altered_target rules r.session_id now s;
                      session = alter (session_has_id r.session_id) (touch_columns now) s;
                      known =
                          h₆.2
                          ∙ ap (Opt.map (alter (session_has_id r.session_id) (touch_columns now))) (
                              sessions_find r.session_id db₅ db
                                (h₅.sessions ∙ h₄.0 ∙ h₃.sessions ∙ h₂.0 ∙ h₁.sessions)
                              ∙ known);
                      active = ap is_archived (altered_status r.session_id now s) ∙ active;
                      target = target;
                      targeted = targeted;
                      key = k;
                      keyed =
                          keys_find r.session_id r.endpoint r.idempotency_key db₆ db₄
                            (h₆.0 ∙ h₅.keys)
                          ∙ h₄.2;
                      fingerprint = refl;
                      run = runs_find ids.run db₆ db₂ (h₆.1 ∙ h₅.runs ∙ h₄.1 ∙ h₃.runs) ∙ h₂.2;
                      kind = same_kind_refl (command_runtime_kind r.command);
                    }

  module _ (db : Db) (s : Conversation) (target : Option String)
      (known : get_session r.session_id db ≡ some s) (active : is_archived s.status ≡ false)
      (targeted : target_service rules s r.command ≡ ok target) where
    replayed :
        (k : IdempotencyKey)
        → get_key_by_scope r.session_id r.endpoint r.idempotency_key db ≡ some k
        → Post (λ a. IsReplayable rules r db a db) (replay_key r k db)
    unfolding replay_key
    replayed k keyed =
        let P : AcceptedRun → Type 0 = λ a. IsReplayable rules r db a db in
        Post-raise_if P (not (str_eq k.request_fingerprint r.fingerprint)) key_reused _ λ same.
          Post-or_raise P (get_run k.run_id db) run_not_found _ λ run found.
            Post-raise_if P
              (not (same_kind run.origin.runtime_kind (command_runtime_kind r.command))) key_reused
              _
              λ kind. record {
                before = s;
                was = known;
                same_services = λ c. refl;
                session = s;
                known = known;
                active = active;
                target = target;
                targeted = targeted;
                key = k;
                keyed = keyed;
                fingerprint = (eq_iff k.request_fingerprint r.fingerprint).0 (true_of_not _ same);
                run = found;
                kind = true_of_not _ kind;
              }

  accept-IsReplayable :
      (db : Db) (ids : NewIds) (now : ℕ)
      → Post (λ x. IsReplayable rules r db x.0 x.1) (accept_in_transaction rules ids now r db)
  unfolding accept_in_transaction accept_new
  accept-IsReplayable db ids now =
      let P : AcceptedRun × Db → Type 0 = λ x. IsReplayable rules r db x.0 x.1 in
      Post-or_raise P (get_session r.session_id db) session_not_found _ λ s known.
        Post-raise_if P (is_archived s.status) session_archived _ λ active.
          Post-then P (target_service rules s r.command) _ λ target targeted.
            elim (Option-cases (get_key_by_scope r.session_id r.endpoint r.idempotency_key db)) [
              | inl fresh ↦ rw fresh (
                  Post-then P (accepted_input rules ids r.session_id r.command db) _
                    λ (content, snapshot) _.
                      inserted db s target known active targeted ids content snapshot now)
              | inr (k, keyed) ↦ rw keyed (
                  Post-bind _ P (replay_key r k db) _
                    (replayed db s target known active targeted k keyed) λ a p. p)
            ]

-- Let the fingerprint be any function of the command. When a request has been accepted, the same
-- request sent next, with any clock and any new identifiers, answers the accepted run, marked as a
-- replay, and writes nothing. A command that is sent next with the same key, and whose service can be
-- resolved in the conversation, is refused unless its own fingerprint and its kind of run are those
-- of the accepted command.
pub accept_is_idempotent :
    (rules : Rules) (fingerprint : Command → String) (r : Request) (ids : NewIds) (now : ℕ)
    (db : Db) (a : AcceptedRun) (db' : Db)
    → r.fingerprint ≡ fingerprint r.command
    → accept_in_transaction rules ids now r db ≡ ok (a, db')
    → (other_ids : NewIds) (later : ℕ) (c : Command)
    → (accept_in_transaction rules other_ids later r db'
        ≡ ok (record { run = a.run; replayed = true }, db'))
      × (s : Conversation) × (get_session r.session_id db ≡ some s)
      × (accept_in_transaction rules other_ids later
            (record r { command = c; fingerprint = fingerprint c })
            db'
          ≡ (target_service rules s c >>= λ _.
              if str_eq (fingerprint r.command) (fingerprint c)
                && same_kind (command_runtime_kind r.command) (command_runtime_kind c)
              then ok (record { run = a.run; replayed = true }, db')
              else err key_reused))
accept_is_idempotent rules fingerprint r ids now db a db' own e other_ids later c =
    let k =
      subst (Post (λ x. IsReplayable rules r db x.0 x.1)) e
        (accept-IsReplayable rules r db ids now) in
    (
      replays rules r db a db' k other_ids later r.command r.fingerprint
          ∙ rw
              (
                k.targeted,
                (eq_iff r.fingerprint r.fingerprint).1 refl,
                same_kind_refl (command_runtime_kind r.command),
              )
              refl,
      k.before,
      k.was,
      subst
          (λ f.
            accept_in_transaction rules other_ids later
              (record r { command = c; fingerprint = fingerprint c }) db'
            ≡ (target_service rules k.before c >>= λ _.
                if str_eq f (fingerprint c)
                  && same_kind (command_runtime_kind r.command) (command_runtime_kind c)
                then ok (record { run = a.run; replayed = true }, db')
                else err key_reused))
          own (replays rules r db a db' k other_ids later c (fingerprint c)),
    )
