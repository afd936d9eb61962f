-- ===== src/Agent/Wording.antt =====
-- The text of a question (`needs_input_prompt` of backend/src/core/observation.py), for each list
-- of slots that `MainNeedsInputDeliveryV1` accepts.
use mathlib.Core.Path.{subst}
use oper_mind.Base.{
  ◌≡◌, refl, sym, ap, ◌∙◌, ◌⊎◌, inl, inr, String, str_eq, eq_iff, Bool, true, ◌&&◌, List, [], ◌∷◌,
  length, all, arith, Bool-cases, leb, first_chars,
}
use oper_mind.Agent.Kernel.{needs_input_prompt, slot_label, join_and}
use oper_mind.Agent.Nodes.{is_slot, is_unique, is_valid_question}

-- The slots and the text that asks for them.
abbrev pub IsWorded : List String → String → Type 0
IsWorded missing prompt =
    ((missing ≡ "text_a" ∷ []) × (prompt ≡ "请提供文本 A（旧），我会做逐行字面比较。"))
    ⊎ (((missing ≡ "text_b" ∷ []) × (prompt ≡ "请提供文本 B（新），我会做逐行字面比较。"))
        ⊎ (((missing ≡ "text_a" ∷ "text_b" ∷ []) × (prompt ≡ "请提供文本 A（旧）和文本 B（新），我会做逐行字面比较。"))
            ⊎ ((missing ≡ "text_b" ∷ "text_a" ∷ []) × (prompt ≡ "请提供文本 B（新）和文本 A（旧），我会做逐行字面比较。"))))

one_slot : (x : String) → is_slot x ≡ true → (x ≡ "text_a") ⊎ (x ≡ "text_b")
one_slot x h = elim (Bool-cases (str_eq x "text_a")) [
  | inl a ↦ inl ((eq_iff x "text_a").0 a)
  | inr other ↦ inr ((eq_iff x "text_b").0 (rw other at h))
]

prompt_a : needs_input_prompt ("text_a" ∷ []) ≡ "请提供文本 A（旧），我会做逐行字面比较。"
unfolding needs_input_prompt slot_label join_and first_chars
prompt_a = refl

prompt_b : needs_input_prompt ("text_b" ∷ []) ≡ "请提供文本 B（新），我会做逐行字面比较。"
unfolding needs_input_prompt slot_label join_and first_chars
prompt_b = refl

prompt_ab : needs_input_prompt ("text_a" ∷ "text_b" ∷ []) ≡ "请提供文本 A（旧）和文本 B（新），我会做逐行字面比较。"
unfolding needs_input_prompt slot_label join_and first_chars
prompt_ab = refl

prompt_ba : needs_input_prompt ("text_b" ∷ "text_a" ∷ []) ≡ "请提供文本 B（新）和文本 A（旧），我会做逐行字面比较。"
unfolding needs_input_prompt slot_label join_and first_chars
prompt_ba = refl

wording_one : (x : String) → is_slot x ≡ true → IsWorded (x ∷ []) (needs_input_prompt (x ∷ []))
wording_one x h = elim (one_slot x h) [
  | inl a ↦ inl (ap (λ s. s ∷ []) a, ap (λ s. needs_input_prompt (s ∷ [])) a ∙ prompt_a)
  | inr b ↦ inr (inl (ap (λ s. s ∷ []) b, ap (λ s. needs_input_prompt (s ∷ [])) b ∙ prompt_b))
]

pair : {x y s t : String} → x ≡ s → y ≡ t → x ∷ y ∷ [] ≡ s ∷ t ∷ []
pair {y = y} {s = s} p q = ap (λ a. a ∷ y ∷ []) p ∙ ap (λ b. s ∷ b ∷ []) q

-- Two different slots.
wording_two :
    (x y : String)
    → is_slot x ≡ true
    → is_slot y ≡ true
    → is_unique (x ∷ y ∷ []) ≡ true
    → IsWorded (x ∷ y ∷ []) (needs_input_prompt (x ∷ y ∷ []))
unfolding is_unique
wording_two x y hx hy unique = elim (one_slot x hx) [
  | inl xa ↦ elim (one_slot y hy) [
    | inl ya ↦ absurd (cc (sym (ap is_unique (pair xa ya)) ∙ unique))
    | inr yb ↦ inr (inr (inl (pair xa yb, ap needs_input_prompt (pair xa yb) ∙ prompt_ab)))
  ]
  | inr xb ↦ elim (one_slot y hy) [
    | inl ya ↦ inr (inr (inr (pair xb ya, ap needs_input_prompt (pair xb ya) ∙ prompt_ba)))
    | inr yb ↦ absurd (cc (sym (ap is_unique (pair xb yb)) ∙ unique))
  ]
]

parts :
    (a b c d e f : Bool)
    → (a && b && c && d && e && f) ≡ true
    → (a ≡ true) × (b ≡ true) × (c ≡ true) × (d ≡ true)
parts a b c d e f h = (ground arith, ground arith, ground arith, ground arith)

both : (a b : Bool) → (a && b) ≡ true → (a ≡ true) × (b ≡ true)
both a b h = (ground arith, ground arith)

wording :
    (missing : List String)
    → leb 1 (length missing) ≡ true
    → leb (length missing) 2 ≡ true
    → all is_slot missing ≡ true
    → is_unique missing ≡ true
    → IsWorded missing (needs_input_prompt missing)
wording [] some_there few slots unique = absurd (cc (some_there))
wording (x ∷ []) some_there few slots unique = wording_one x (both (is_slot x) true slots).0
wording (x ∷ y ∷ []) some_there few slots unique =
    let (own, rest) = both (is_slot x) (all is_slot (y ∷ [])) slots in
    wording_two x y own (both (is_slot y) true rest).0 unique
wording (x ∷ y ∷ z ∷ more) some_there few slots unique = absurd (ground (arith, few))

-- What the delivery accepts is worded so.
pub valid_wording :
    (missing : List String) (prompt : String)
    → is_valid_question missing prompt ≡ true
    → prompt ≡ needs_input_prompt missing
    → IsWorded missing prompt
valid_wording missing prompt valid at =
    let (some_there, few, slots, unique) = parts _ _ _ _ _ _ valid in
    subst (IsWorded missing) (sym at) (wording missing some_there few slots unique)
