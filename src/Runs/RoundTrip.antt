-- ===== src/Runs/RoundTrip.antt =====
-- Archiving a conversation and restoring it (`SessionApplicationService` of
-- backend/src/application/services.py).
use mathlib.Core.Option as Opt
use mathlib.Core.Option.{some-injective}
use mathlib.Core.Path.{subst}
use oper_mind.Base.{
  ap, sym, find, Option-cases, ℕ, ◌≡◌, refl, ◌∙◌, none, some, ==_iff, alter, find-update_where, ok,
  Bool-cases, inl, inr,
}
use oper_mind.Runs.Records.{SessionStatus, Conversation}
use oper_mind.Runs.Store.{
  Db, session_data, session_has_id, get_session, save_session, save_columns, restore,
  restore_columns, is_archived_row, later,
}
use oper_mind.Runs.Sessions.{
  archive_command, archive_session, update_session, restore_command, change_session,
  restore_session, updated_session,
}

-- Both updates keep identifiers.
save_keeps :
    (i k : ℕ) (s r : Conversation)
    → session_has_id i (alter (session_has_id k) (save_columns s) r) ≡ session_has_id i r
save_keeps i k s r = elim (Bool-cases (session_has_id k r)) [
  | inl hit ↦ rw hit refl
  | inr miss ↦ rw miss refl
]

restore_keeps :
    (i at : ℕ) (r : Conversation)
    → session_has_id i (alter (is_archived_row i) (restore_columns at) r) ≡ session_has_id i r
restore_keeps i at r = elim (Bool-cases (is_archived_row i r)) [
  | inl hit ↦ rw hit refl
  | inr miss ↦ rw miss refl
]

-- What the two calls answer, for a conversation as it was read before.
abbrev ComesBack : Db → ℕ → ℕ → Conversation → Type 0
ComesBack db at later_on s =
    (db₁ : Db) × (archive_session at s.id db
      ≡ ok (
        record s { status = SessionStatus.archived; archived_at = some at; updated_at = at },
        db₁,
      ))
    × (db₂ : Db) × (update_session later_on (restore_command s.id) db₁
        ≡ ok (record s { updated_at = later at later_on }, db₂))
    × (get_session s.id db₂ ≡ some (record s { updated_at = later at later_on }))

-- A conversation is read from its row.
module _ (db : Db) (row : Conversation)
    (found : find (session_has_id row.id) db.sessions ≡ some row)
    (active : row.status ≡ SessionStatus.active) (open_since : row.archived_at ≡ none)
    (at later_on : ℕ) where
  abbrev s : Conversation
  s = session_data row

  abbrev archived : Conversation
  archived = record s { status = SessionStatus.archived; archived_at = some at; updated_at = at }

  abbrev restored : Conversation
  restored = record s { updated_at = later at later_on }

  known : get_session s.id db ≡ some s
  unfolding get_session
  known = ap (Opt.map session_data) found

  updated : updated_session at (archive_command s.id) s ≡ archived
  unfolding updated_session
  updated = rw open_since refl

  row_archived :
      find (session_has_id s.id) (save_session archived db).sessions
      ≡ some (save_columns archived row)
  unfolding save_session
  row_archived =
      find-update_where (session_has_id s.id) (session_has_id s.id) (save_columns archived)
        db.sessions (save_keeps s.id s.id archived)
      ∙ rw (found, (==_iff row.id row.id).1 refl) refl

  archives : archive_session at s.id db ≡ ok (archived, save_session archived db)
  unfolding archive_session update_session change_session
  archives = rw (known, updated, active) refl

  restored_there :
      get_session s.id (restore s.id later_on (save_session archived db)).1 ≡ some restored
  unfolding get_session restore
  restored_there =
      ap (Opt.map session_data) (
        find-update_where (session_has_id s.id) (is_archived_row s.id) (restore_columns later_on)
          (save_session archived db).sessions (restore_keeps s.id later_on))
      ∙ rw (row_archived, (==_iff row.id row.id).1 refl, active, open_since) refl

  restores :
      update_session later_on (restore_command s.id) (save_session archived db)
      ≡ ok (restored, (restore s.id later_on (save_session archived db)).1)
  unfolding update_session restore_session
  restores = rw (restored_there, active) refl

  row-ComesBack : ComesBack db at later_on s
  row-ComesBack = (_, archives, _, restores, restored_there)

-- An active conversation that is archived and then restored is found as it was, but for the time of
-- its last update, which is the later of the two times; neither call raises.
pub archive_then_restore :
    (db : Db) (s : Conversation)
    → get_session s.id db ≡ some s
    → s.status ≡ SessionStatus.active
    → s.archived_at ≡ none
    → (at later_on : ℕ)
    → (db₁ : Db) × (archive_session at s.id db
        ≡ ok (
          record s { status = SessionStatus.archived; archived_at = some at; updated_at = at },
          db₁,
        ))
      × (db₂ : Db) × (update_session later_on (restore_command s.id) db₁
          ≡ ok (record s { updated_at = later at later_on }, db₂))
      × (get_session s.id db₂ ≡ some (record s { updated_at = later at later_on }))
unfolding get_session
archive_then_restore db s found active open_since at later_on =
    elim (Option-cases (find (session_has_id s.id) db.sessions)) [
      | inl missing ↦ absurd (cc (sym (ap (Opt.map session_data) missing) ∙ found))
      | inr (row, there) ↦
          subst
            (λ (c : Conversation).
              find (session_has_id c.id) db.sessions ≡ some row
              → c.status ≡ SessionStatus.active
              → c.archived_at ≡ none
              → ComesBack db at later_on c)
            (some-injective (session_data row) s (sym (ap (Opt.map session_data) there) ∙ found))
            (λ f a o. row-ComesBack db row f a o at later_on) there active open_since
    ]
