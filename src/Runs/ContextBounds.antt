-- ===== src/Runs/ContextBounds.antt =====
-- How much of its conversation a run of the main agent sees (`_select_main_context` of
-- backend/src/application/services.py).
use oper_mind.Base.{
  ℕ, suc, ap, ◌+◌, ◌≤◌, ◌≡◌, refl, count, Bool, true, false, ◌||◌, List, [], ◌∷◌, map, length, leb,
  ltb, arith, All, if◌then◌else◌,
}
use oper_mind.Runs.Records.{Message}
use oper_mind.Runs.Inputs.{ContextMessage}
use oper_mind.Runs.Store.{Db}
use oper_mind.Runs.Context.{
  max_context_messages, max_context_codepoints, select, context_message, select_main_context,
}

-- The code points of all messages.
unfoldable pub codepoints : List ContextMessage → ℕ
codepoints [] = 0
codepoints (m ∷ ms) = count m.content + codepoints ms

abbrev pub Fits : List ContextMessage → Type 0
Fits ms =
    (length ms ≤ max_context_messages)
    × (codepoints ms ≤ max_context_codepoints)
    × All (λ m. 1 ≤ count m.content) ms

-- What holds of both branches of a test holds of the test.
either_branch {ℓ} :
    (P : List Message → Type ℓ) (b : Bool) (x y : List Message)
    → (b ≡ true → P x)
    → (b ≡ false → P y)
    → P (if b then x else y)
either_branch P true x y f g = f refl
either_branch P false x y f g = g refl

-- What the tests of the loop show of the message that it takes.
is_short : (n : ℕ) → leb n 0 || ltb max_context_codepoints n ≡ false → 1 ≤ n
is_short n h = ground (arith, h)

is_not_above : (n k : ℕ) → ltb k n ≡ false → n ≤ k
is_not_above n k h = ground (arith, h)

is_below : (n k : ℕ) → leb k n ≡ false → suc n ≤ k
is_below n k h = ground (arith, h)

length_context : (ms : List Message) → length (map context_message ms) ≡ length ms
length_context [] = refl
length_context (m ∷ ms) = ap suc (length_context ms)

select-Fits :
    (ms : List Message) (total : ℕ) (selected : List Message)
    → codepoints (map context_message selected) ≡ total
    → Fits (map context_message selected)
    → Fits (map context_message (select ms total selected))
unfolding select codepoints
select-Fits [] total selected t f = f
select-Fits (m ∷ ms) total selected t f =
    let P : List Message → Type 0 = λ l. Fits (map context_message l) in
    either_branch P (leb max_context_messages (length selected)) _ _ (λ full. f)
      λ free.
        either_branch P (leb (count m.content) 0 || ltb max_context_codepoints (count m.content)) _
          _ (λ bad. select-Fits ms total selected t f)
          λ good.
            either_branch P (ltb max_context_codepoints (total + count m.content)) _ _
              (λ long. select-Fits ms total selected t f)
              λ short. select-Fits ms (total + count m.content) (m ∷ selected) (omega (arith, t)) (
                omega (
                  arith,
                  length_context selected,
                  is_below (length selected) max_context_messages free,
                ),
                omega
                    (arith, t, is_not_above (total + count m.content) max_context_codepoints short),
                (is_short (count m.content) good, f.2),
              )

-- A run of the main agent sees at most four messages of its conversation, with at most 2,000 code
-- points in all, and none of them is empty.
pub select_main_context-Fits :
    (session_id : ℕ) (db : Db)
    → (length (select_main_context session_id db) ≤ 4)
      × (codepoints (select_main_context session_id db) ≤ 2000)
      × All (λ m. 1 ≤ count m.content) (select_main_context session_id db)
unfolding select_main_context codepoints
select_main_context-Fits session_id db = select-Fits _ 0 [] refl (omega arith, omega arith, tt)
