-- ===== src/Runs/Steps/Sessions.antt =====
-- Lemmas on `create_session` and `update_session` of backend/src/application/services.py: they leave
-- the runs alone.
use mathlib.Core.Path.{subst}
use oper_mind.Base.{
  ℕ, ◌+◌, ◌≡◌, refl, sym, ap, Bool, String, Option, none, some, List, arith, ◌==◌, ==_iff, not,
  ◌&&◌, ◌||◌, is_some, if◌then◌else◌, ok, Post, Post-bind, Post-or_raise, Post-raise_if, Post-if,
  Bool-cases, inl, inr,
}
use oper_mind.Runs.Records.{Conversation, Run, is_archived}
use oper_mind.Runs.Store.{
  Db, add_session, get_session, restore, session_not_found, session_archived, service_not_found,
}
use oper_mind.Runs.Sessions.{
  CreateSessionCommand, UpdateSessionCommand, new_session, create_session, restore_session,
  change_session, update_session, updated_session, is_active_command, is_nonempty, are_registered,
  chosen_services,
}
use oper_mind.Runs.View.{View, view}
use oper_mind.Runs.Writes.{with_home, add_session-view, restore-Same, save_session-Same}
use oper_mind.Runs.Journal.{stays, Homed, Sound, Keeps}
use oper_mind.Runs.Steps.{Leaves, Same-Leaves}

-- A new conversation, under an identifier that had no row.
Homed-with_home :
    (o : Option Run) (homes : ℕ → ℕ) (i : ℕ)
    → homes i ≡ 0
    → Homed o homes
    → Homed o (λ s. homes s + (if i == s then 1 else 0))
Homed-with_home none homes i h k = tt
Homed-with_home (some r) homes i h k = elim (Bool-cases (i == r.origin.session_id)) [
  | inl hit ↦ absurd (omega (arith, h, k, ap homes ((==_iff i r.origin.session_id).0 hit)))
  | inr miss ↦ rw miss (omega (arith, k))
]

home-Keeps : (b : Bool) (v : View) (i : ℕ) → v.homes i ≡ 0 → Sound v → Keeps b v (with_home i v)
home-Keeps b v i h s = record {
  follows = stays refl;
  sound = record {
    rows = s.rows;
    homes = λ k. elim (Bool-cases (i == k)) [
      | inl hit ↦ rw hit (omega (arith, h, ap v.homes ((==_iff i k).0 hit)))
      | inr miss ↦ rw miss (omega (arith, s.homes k))
    ];
    homed = Homed-with_home v.run v.homes i h s.homed;
    numbered = s.numbered;
  };
}

module _ (b : Bool) (j : ℕ) (db : Db) (sound : Sound (view j db)) where
  pub create_session-Leaves :
      (registered : Option (List String)) (now new_id : ℕ) (c : CreateSessionCommand)
      → Post (Leaves b j db) (create_session registered now new_id c db)
  unfolding create_session
  create_session-Leaves registered now new_id c =
      Post-raise_if (Leaves b j db)
        (is_nonempty (chosen_services c) && not (are_registered registered (chosen_services c)))
        service_not_found _
        λ _.
          Post-bind _ (Leaves b j db) (add_session (new_session now new_id c) db) _
            (add_session-view j db (new_session now new_id c))
            λ db₁ (h, unused).
              subst (Keeps b (view j db)) (sym h)
                (home-Keeps b (view j db) (new_session now new_id c).id unused sound)

  restore-Leaves : (now i : ℕ) → Post (Leaves b j db) (restore_session now i db)
  unfolding restore_session
  restore-Leaves now i =
      Post-or_raise (Leaves b j db) (get_session i (restore i now db).1) session_not_found _
        λ restored _.
          Post-raise_if (Leaves b j db) (is_archived restored.status) session_archived _
            λ _. Same-Leaves b j db sound restored _ (restore-Same j db i now)

  change-Leaves :
      (now : ℕ) (c : UpdateSessionCommand) → Post (Leaves b j db) (change_session now c db)
  unfolding change_session
  change-Leaves now c =
      Post-or_raise (Leaves b j db) (get_session c.session_id db) session_not_found _ λ current _.
        Post-raise_if (Leaves b j db) (is_active_command c.status && is_archived current.status)
          session_archived _
          λ _.
            Post-if (Leaves b j db)
              (not (is_some c.title) && (is_archived current.status || is_active_command c.status))
              (ok (current, db)) (ok _) (λ _. Same-Leaves b j db sound current db refl)
              λ _.
                Same-Leaves b j db sound {A = Conversation} (updated_session now c current) _
                  (save_session-Same j db (updated_session now c current))

  pub update_session-Leaves :
      (now : ℕ) (c : UpdateSessionCommand) → Post (Leaves b j db) (update_session now c db)
  unfolding update_session
  update_session-Leaves now c =
      Post-if (Leaves b j db) (is_active_command c.status && not (is_some c.title))
        (restore_session now c.session_id db) (change_session now c db)
        (λ _. restore-Leaves now c.session_id) λ _. change-Leaves now c
