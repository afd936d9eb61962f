-- ===== src/Actions/Replay.antt =====
-- The idempotency keys of `decide` of backend/src/application/action_services.py.
use mathlib.Core.Path.{subst}
use mathlib.Core.Option as Opt
use mathlib.Core.Option.{some-injective}
use oper_mind.Base.{
  ℕ, ◌≡◌, refl, ◌∙◌, true, false, not, ◌==◌, if◌then◌else◌, Option, sym, ap, Bool-cases,
  Option-cases, inl, inr, ◌&&◌, String, none, some, arith, str_eq, find-append, any,
}
use oper_mind.Actions.Records.{
  Approval, Decision, Execution, Progress, Proposal, ProposalStatus, IdempotencyKey,
  approval_endpoint, EventType, EventData, same_status, Detail,
}
use oper_mind.Actions.Store.{
  advance, Result, ok, err, key_reused, proposal_not_found, invalid_state, integrity, Db,
  get_proposal, get_key_by_scope, add_key, in_scope, add_event, reserve_event_sequence,
  transition_proposal, add_approval, approval_of, ProposalChange, ◌>>=◌,
}
use oper_mind.Actions.Events.{append_event, detail}
use oper_mind.Actions.Approval.{
  DecideCommand, decided_status, decision_change, decide_new, decide_replay, decide_in_transaction,
}
use oper_mind.Actions.View.{
  Post, Post-bind, Post-or_raise, Post-raise_if, Post-else, get_proposal-id, At, moved, progress_of,
  transition_proposal-At, add_approval-At, add_key-At, append_event-At,
}

-- The key of the command is stored with this fingerprint.
abbrev Stores : String → DecideCommand → Db → Type 0
Stores f c db =
    (k : IdempotencyKey) × (get_key_by_scope c.proposal_id approval_endpoint c.idempotency_key db
      ≡ some k)
    × (k.request_fingerprint ≡ f)

append_event-Stores :
    (f : String) (c : DecideCommand) (i : ℕ) (t : EventType) (d : EventData) (at : ℕ) (db : Db)
    → Stores f c db
    → Post (Stores f c) (append_event i t d at db)
unfolding append_event add_event reserve_event_sequence get_key_by_scope
append_event-Stores f c i t d at db h =
    Post-or_raise (Stores f c) (reserve_event_sequence i db).0 proposal_not_found _
      λ n _. Post-else (Stores f c) _ integrity (ok _) h

add_key-Stores :
    (f : String) (c : DecideCommand) (k : IdempotencyKey) (db : Db)
    → k.request_fingerprint ≡ f
    → in_scope c.proposal_id approval_endpoint c.idempotency_key k ≡ true
    → get_key_by_scope c.proposal_id approval_endpoint c.idempotency_key db ≡ none
    → Post (Stores f c) (add_key k db)
unfolding add_key get_key_by_scope
add_key-Stores f c k db e s free = Post-else (Stores f c) _ integrity (ok _) (
  k,
  find-append (in_scope c.proposal_id approval_endpoint c.idempotency_key) db.keys k ∙ rw (free, s),
  e,
)

abbrev Keyless : DecideCommand → Db → Type 0
Keyless c db = get_key_by_scope c.proposal_id approval_endpoint c.idempotency_key db ≡ none

own_scope : (i j k : ℕ) → i ≡ j → (i == j && true && k == k) ≡ true
own_scope i j k h = ground arith

add_approval-Keyless :
    (c : DecideCommand) (a : Approval) (db : Db)
    → Keyless c db
    → Post (Keyless c) (add_approval a db)
unfolding add_approval get_key_by_scope
add_approval-Keyless c a db free =
    Post-else (Keyless c) (any (approval_of a.proposal_id) db.approvals) integrity (ok _) free

transition-Keyless :
    (c : DecideCommand) (i : ℕ) (expected s : ProposalStatus) (e : ProposalChange) (db : Db)
    → Keyless c db
    → Keyless c (transition_proposal i expected s e db).1
unfolding transition_proposal get_key_by_scope
transition-Keyless c i expected s e db free = free

then-Stores :
    (f : String) (c : DecideCommand) (Q : Db → Type 0) (m : Result Db)
    (next : Db → Result (Detail × Db))
    → Post Q m
    → ((db : Db) → Q db → Post (λ (r : Detail × Db). Stores f c r.1) (next db))
    → Post (λ (r : Detail × Db). Stores f c r.1) (m >>= next)
then-Stores f c Q m next = Post-bind Q (λ (r : Detail × Db). Stores f c r.1) m next

decide_new-Stores :
    (f : String) (now : ℕ → ℕ) (new_id : ℕ) (c : DecideCommand) (db : Db)
    → Keyless c db
    → Post (λ (r : Detail × Db). Stores f c r.1) (decide_new f now new_id c db)
unfolding decide_new
decide_new-Stores f now new_id c db free =
    Post-or_raise (λ (r : Detail × Db). Stores f c r.1) (get_proposal c.proposal_id db)
      proposal_not_found _
      λ p found.
        Post-raise_if (λ (r : Detail × Db). Stores f c r.1)
          (not (same_status p.progress.status ProposalStatus.pending_approval)) invalid_state _
          λ _.
            Post-or_raise (λ (r : Detail × Db). Stores f c r.1)
              (transition_proposal p.id ProposalStatus.pending_approval (decided_status c.decision)
                (decision_change c.decision (now 0)) db).0
              invalid_state _
              λ updated _.
                then-Stores f c (Keyless c) _ _
                  (add_approval-Keyless c _ _ (
                    transition-Keyless c p.id ProposalStatus.pending_approval
                      (decided_status c.decision) (decision_change c.decision (now 0)) db free))
                  λ db₂ free₂.
                    then-Stores f c (Stores f c) _ _
                      (add_key-Stores f c _ db₂ refl
                        (own_scope p.id c.proposal_id c.idempotency_key
                          (get_proposal-id c.proposal_id db p found))
                        free₂)
                      λ db₃ stored.
                        then-Stores f c (Stores f c) _ _
                          (append_event-Stores f c p.id _ _ _ db₃ stored) λ db₄ kept. kept

decide-Stores :
    (f : String) (now : ℕ → ℕ) (new_id : ℕ) (c : DecideCommand) (db : Db)
    → Keyless c db
    → Post (λ (r : Detail × Db). Stores f c r.1) (decide_in_transaction f now new_id c db)
unfolding decide_in_transaction
decide-Stores f now new_id c db free =
    rw (free, decide_in_transaction) (decide_new-Stores f now new_id c db free)

-- The proposal of the command is there, with the status of the decision.
abbrev IsDecided : DecideCommand → Option Progress → Option Execution → Type 0
IsDecided c o _ = (r : Progress) × (o ≡ some r) × (r.status ≡ decided_status c.decision)

abbrev Decided : DecideCommand → Db → Type 0
Decided c = At (IsDecided c) c.proposal_id

moved_away :
    (i j : ℕ) (d : Decision) (now : ℕ) (r : Progress)
    → i ≡ j
    → not (same_status r.status ProposalStatus.pending_approval) ≡ false
    → moved j i ProposalStatus.pending_approval (decided_status d) (decision_change d now) r
      ≡ advance (decided_status d) (decision_change d now) r
moved_away i j d now r h pending = ground (arith, h, pending)

decide_new-Decided :
    (f : String) (now : ℕ → ℕ) (new_id : ℕ) (c : DecideCommand) (db : Db)
    → Post (λ (r : Detail × Db). Decided c r.1) (decide_new f now new_id c db)
unfolding decide_new progress_of advance
decide_new-Decided f now new_id c db =
    let P : Detail × Db → Type 0 = λ r. Decided c r.1 in
    let Q = IsDecided c in
    let j = c.proposal_id in
    Post-or_raise P (get_proposal j db) proposal_not_found _ λ p found.
      Post-raise_if P (not (same_status p.progress.status ProposalStatus.pending_approval))
        invalid_state _
        λ pending.
          Post-or_raise P
            (transition_proposal p.id ProposalStatus.pending_approval (decided_status c.decision)
              (decision_change c.decision (now 0)) db).0
            invalid_state _
            λ updated _.
              Post-bind (Decided c) P _ _
                (add_approval-At Q j _ _ (
                  transition_proposal-At Q j p.id ProposalStatus.pending_approval
                    (decided_status c.decision) (decision_change c.decision (now 0)) db
                    (
                      _,
                      ap
                            (Opt.map (
                              moved j p.id ProposalStatus.pending_approval
                                (decided_status c.decision) (decision_change c.decision (now 0))))
                            (ap (Opt.map (λ q. q.progress)) found)
                          ∙ ap some (
                              moved_away p.id j c.decision (now 0) p.progress
                                (get_proposal-id j db p found) pending),
                      refl,
                    )))
                λ db₂ q₂. Post-bind (Decided c) P _ _ (add_key-At Q j _ db₂ q₂) λ db₃ q₃.
                  Post-bind (Decided c) P _ _ (append_event-At Q j p.id _ _ _ db₃ q₃) λ db₄ q₄. q₄

decide-Decided :
    (f : String) (now : ℕ → ℕ) (new_id : ℕ) (c : DecideCommand) (db : Db)
    → Keyless c db
    → Post (λ (r : Detail × Db). Decided c r.1) (decide_in_transaction f now new_id c db)
unfolding decide_in_transaction
decide-Decided f now new_id c db free =
    rw (free, decide_in_transaction) (decide_new-Decided f now new_id c db)

there :
    (i : ℕ) (s : ProposalStatus) (db : Db) (r : Progress)
    → progress_of i db ≡ some r
    → r.status ≡ s
    → (p : Proposal) × (get_proposal i db ≡ some p) × (p.progress.status ≡ s)
unfolding progress_of
there i s db r at status = elim (Option-cases (get_proposal i db)) [
  | inl missing ↦ absurd (cc (sym (ap (Opt.map (λ q. q.progress)) missing) ∙ at))
  | inr (p, found) ↦ (
    p,
    found,
    ap (λ q. q.status)
          (some-injective p.progress r (sym (ap (Opt.map (λ q. q.progress)) found) ∙ at))
        ∙ status,
  )
]

-- Let the fingerprint be any function of the decision and its comment. After a decision under a new
-- idempotency key has been committed, the proposal has the status of that decision; and the next
-- command for the proposal with that key, whatever it decides, is refused if its own fingerprint
-- differs, and otherwise answers the proposal as it stands and writes nothing.
pub decide_is_idempotent :
    (fingerprint : Decision → Option String → String) (now later : ℕ → ℕ) (new_id other_id : ℕ)
    (c : DecideCommand) (other : Decision) (comment : Option String) (db db' : Db) (d : Detail)
    → get_key_by_scope c.proposal_id approval_endpoint c.idempotency_key db ≡ none
    → decide_in_transaction (fingerprint c.decision c.comment) now new_id c db ≡ ok (d, db')
    → (p : Proposal) × (get_proposal c.proposal_id db' ≡ some p)
      × (p.progress.status ≡ decided_status c.decision)
      × (decide_in_transaction
            (fingerprint other comment)
            later
            other_id
            (record c { decision = other; comment = comment })
            db'
          ≡ (if str_eq (fingerprint c.decision c.comment) (fingerprint other comment)
              then ok (detail p db', db')
              else err key_reused))
unfolding decide_in_transaction decide_replay
decide_is_idempotent fingerprint now later new_id other_id c other comment db db' d free done =
    let f = fingerprint c.decision c.comment in
    let g = fingerprint other comment in
    let (k, found, same) =
      subst (Post (λ (r : Detail × Db). Stores f c r.1)) done
        (decide-Stores f now new_id c db free) in
    let (r, at, status) =
      subst (Post (λ (r : Detail × Db). Decided c r.1)) done
        (decide-Decided f now new_id c db free) in
    let (p, present, decided) = there c.proposal_id (decided_status c.decision) db' r at status in
    (
      p,
      present,
      decided,
      elim (Bool-cases (str_eq f g)) [
        | inl equal ↦ rw (found, decide_in_transaction, same, equal, present) refl
        | inr differs ↦ rw (found, decide_in_transaction, same, differs) refl
      ],
    )
