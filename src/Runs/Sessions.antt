-- ===== src/Runs/Sessions.antt =====
-- `SessionApplicationService` of backend/src/application/services.py: making, renaming, archiving and
-- restoring a conversation. `registered` is the registry's set of service identifiers, none without a
-- registry; `now` is the reading of the clock.
use oper_mind.Base.{
  ℕ, String, Bool, true, false, ◌&&◌, ◌||◌, not, Option, none, some, List, [], ◌∷◌, any, all,
  str_eq, is_some, get_or_else, if◌then◌else◌, ok, ◌>>=◌, ◌>>◌, raise_if, or_raise,
}
use oper_mind.Runs.Records.{SessionStatus, is_archived, Conversation}
use oper_mind.Runs.Store.{
  session_not_found, session_archived, service_not_found, Result, Db, add_session, get_session,
  save_session, restore,
}

pub record CreateSessionCommand : Type 0 where
  pub title : String
  pub environment_id : Option ℕ
  pub incident_id : Option ℕ
  pub service_id : Option String
  pub service_ids : Option (List String)

pub record UpdateSessionCommand : Type 0 where
  pub session_id : ℕ
  pub title : Option String
  pub status : Option SessionStatus

abbrev pub chosen_services : CreateSessionCommand → List String
chosen_services c = elim c.service_ids [
  | some ids ↦ ids
  | none ↦ elim c.service_id [ some id ↦ id ∷ [] | none ↦ [] ]
]

abbrev pub is_nonempty {ℓ} : {A : Type ℓ} → List A → Bool
is_nonempty [] = false
is_nonempty (x ∷ xs) = true

abbrev pub are_registered : Option (List String) → List String → Bool
are_registered none ids = false
are_registered (some registered) ids = all (λ i. any (str_eq i) registered) ids

unfoldable pub new_session : ℕ → ℕ → CreateSessionCommand → Conversation
new_session now new_id c = record {
  id = new_id;
  title = c.title;
  status = SessionStatus.active;
  environment_id = c.environment_id;
  incident_id = c.incident_id;
  service_id = if is_some c.service_ids then none else c.service_id;
  service_ids = chosen_services c;
  created_at = now;
  updated_at = now;
  archived_at = none;
}

-- `create_session`
unfoldable pub create_session :
    Option (List String) → ℕ → ℕ → CreateSessionCommand → Db → Result (Conversation × Db)
create_session registered now new_id c db = do
  raise_if (is_nonempty (chosen_services c) && not (are_registered registered (chosen_services c)))
      service_not_found
  db₁ ← add_session (new_session now new_id c) db
  ok (new_session now new_id c, db₁)

abbrev pub is_active_command : Option SessionStatus → Bool
is_active_command (some SessionStatus.active) = true
is_active_command _ = false

abbrev pub is_archive_command : Option SessionStatus → Bool
is_archive_command (some SessionStatus.archived) = true
is_archive_command _ = false

-- The row that `update_session` saves.
unfoldable pub updated_session : ℕ → UpdateSessionCommand → Conversation → Conversation
updated_session now c current =
    let should_archive = is_archive_command c.status in
    record current {
      title = get_or_else c.title current.title;
      status = if should_archive then SessionStatus.archived else current.status;
      archived_at =
          if should_archive && not (is_some current.archived_at)
          then some now
          else current.archived_at;
      updated_at = now;
    }

-- The branch that restores: status `active` and no title.
unfoldable pub restore_session : ℕ → ℕ → Db → Result (Conversation × Db)
restore_session now i db = do
  let db₁ = (restore i now db).1
  restored ← or_raise (get_session i db₁) session_not_found
  raise_if (is_archived restored.status) session_archived
  ok (restored, db₁)

unfoldable pub change_session : ℕ → UpdateSessionCommand → Db → Result (Conversation × Db)
change_session now c db = do
  current ← or_raise (get_session c.session_id db) session_not_found
  raise_if (is_active_command c.status && is_archived current.status) session_archived
  if not (is_some c.title) && (is_archived current.status || is_active_command c.status)
      then ok (current, db)
      else ok (updated_session now c current, save_session (updated_session now c current) db)

-- `update_session`
unfoldable pub update_session : ℕ → UpdateSessionCommand → Db → Result (Conversation × Db)
update_session now c db =
    if is_active_command c.status && not (is_some c.title)
    then restore_session now c.session_id db
    else change_session now c db

-- `archive_session`
abbrev pub archive_command : ℕ → UpdateSessionCommand
archive_command i = record { session_id = i; title = none; status = some SessionStatus.archived }

abbrev pub restore_command : ℕ → UpdateSessionCommand
restore_command i = record { session_id = i; title = none; status = some SessionStatus.active }

unfoldable pub archive_session : ℕ → ℕ → Db → Result (Conversation × Db)
archive_session now i db = update_session now (archive_command i) db
