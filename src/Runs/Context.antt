-- ===== src/Runs/Context.antt =====
-- `_select_main_context` of backend/src/application/services.py: the messages that a new run of the
-- main agent sees of its conversation.
use oper_mind.Base.{
  ℕ, ◌+◌, ◌*◌, count, Bool, true, false, ◌&&◌, ◌||◌, not, Option, none, some, List, [], ◌∷◌, ◌++◌,
  map, length, take, is_some, ◌==◌, ltb, leb, if◌then◌else◌, find,
}
use oper_mind.Agent.Records.{MainDelivery, answered, asked}
use oper_mind.Runs.Records.{RunStatus, same_status, is_user, is_assistant, is_main, Message, Run}
use oper_mind.Runs.Inputs.{ContextMessage}
use oper_mind.Runs.Store.{Db, get_message, get_delivery}

-- MAX_CONTEXT_MESSAGES and MAX_CONTEXT_CODEPOINTS
abbrev pub max_context_messages : ℕ
max_context_messages = 4

abbrev pub max_context_codepoints : ℕ
max_context_codepoints = 2000

-- ORDER BY a key and then the identifier, ascending, by insertion; of equal rows the earlier first.
module _ {ℓ} {A : Type ℓ} (key id : A → ℕ) where
  abbrev pub is_after : A → A → Bool
  is_after x y = ltb (key y) (key x) || (key x == key y && ltb (id y) (id x))

  unfoldable pub insert : A → List A → List A
  insert x [] = x ∷ []
  insert x (y ∷ ys) = let rest = insert x ys in if is_after x y then y ∷ rest else x ∷ y ∷ ys

  unfoldable pub sort : List A → List A
  sort [] = []
  sort (x ∷ xs) = insert x (sort xs)

unfoldable pub keep {ℓ} : {A : Type ℓ} → (A → Bool) → List A → List A
keep p [] = []
keep p (x ∷ xs) = let rest = keep p xs in if p x then x ∷ rest else rest

unfoldable pub reverse_onto {ℓ} : {A : Type ℓ} → List A → List A → List A
reverse_onto [] ys = ys
reverse_onto (x ∷ xs) ys = reverse_onto xs (x ∷ ys)

-- `list_latest_by_session` under its caller's `reversed`, the newest first: ORDER BY created_at DESC,
-- id DESC LIMIT n.
unfoldable pub latest_runs : ℕ → ℕ → Db → List Run
latest_runs session_id n db = take n (
    reverse_onto
      (sort (λ r. r.origin.created_at) (λ r. r.id)
        (keep (λ r. r.origin.session_id == session_id) db.runs))
      [])

-- `list_by_run`
unfoldable pub messages_of_run : ℕ → Db → List Message
messages_of_run i db =
    sort (λ m. m.created_at) (λ m. m.id)
      (keep (λ m. elim m.run_id [ none ↦ false | some r ↦ r == i ]) db.messages)

abbrev pub is_context_delivery : Option MainDelivery → Bool
is_context_delivery (some (answered d)) = true
is_context_delivery (some (asked d)) = true
is_context_delivery _ = false

abbrev pub is_context_run : Run → Db → Bool
is_context_run r db =
    is_main r.origin.runtime_kind
    && same_status r.progress.status RunStatus.succeeded
    && is_context_delivery (get_delivery r.id db)

abbrev pub is_context_question : ℕ → Message → Bool
is_context_question session_id m =
    m.session_id == session_id && is_user m.role && not (is_some m.archived_at)

abbrev pub is_context_answer : Message → Bool
is_context_answer m = is_assistant m.role && not (is_some m.archived_at)

-- The question and the answer of one run, nothing where one of them is missing.
unfoldable pub exchange : ℕ → Run → Db → List Message
exchange session_id r db =
    if is_context_run r db
    then elim (get_message r.origin.input_message_id db) [
      | none ↦ []
      | some question ↦ elim (find is_context_answer (messages_of_run r.id db)) [
        | none ↦ []
        | some answer ↦
            if is_context_question session_id question then question ∷ answer ∷ [] else []
      ]
    ]
    else []

-- The loop over the runs, which stops when it has enough candidates.
unfoldable pub gather : ℕ → List Run → Db → List Message → List Message
gather session_id [] db candidates = candidates
gather session_id (r ∷ rs) db candidates =
    let more = candidates ++ exchange session_id r db in
    let rest = gather session_id rs db more in
    if leb (max_context_messages * 2) (length more) && ltb (length candidates) (length more)
    then more
    else rest

-- The loop from the newest candidate: at most four messages and 2,000 code points, the oldest first.
unfoldable pub select : List Message → (total : ℕ) → List Message → List Message
select [] total selected = selected
select (m ∷ ms) total selected =
    let skip = select ms total selected in
    let put = select ms (total + count m.content) (m ∷ selected) in
    if leb max_context_messages (length selected)
    then selected
    else if leb (count m.content) 0 || ltb max_context_codepoints (count m.content)
    then skip
    else if ltb max_context_codepoints (total + count m.content)
    then skip
    else put

abbrev pub context_message : Message → ContextMessage
context_message m = record {
  message_id = m.id;
  is_assistant = is_assistant m.role;
  content = m.content;
}

-- `_select_main_context`
unfoldable pub select_main_context : ℕ → Db → List ContextMessage
select_main_context session_id db =
    let candidates =
      gather session_id (latest_runs session_id (max_context_messages * 4) db) db [] in
    map context_message
      (select (reverse_onto (sort (λ m. m.created_at) (λ m. m.id) candidates) []) 0 [])
