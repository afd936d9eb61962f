-- ===== src/Agent/Validation.antt =====
-- The validation of a text comparison, `_validate_block_side`, `_validate_block_order` and
-- `TextComparisonV1` of backend/src/domain/main_agent.py.
use oper_mind.Base.{
  ℕ, ◌+◌, ◌-◌, ◌≤◌, ◌≡◌, ◌==◌, ltb, leb, String, str_eq, append_text, has_char, Bool, true, false,
  not, ◌&&◌, ◌||◌, Option, none, some, is_some, List, [], ◌∷◌, length, all, arith,
}
use oper_mind.Agent.Comparison.{BlockKind, Side, TextDiffBlock, ComparisonStatus, TextComparison}

abbrev pub max_diff_blocks : ℕ
max_diff_blocks = 50

-- `"\n".join(lines)`
unfoldable pub join_lines : List String → String
join_lines [] = ""
join_lines (s ∷ []) = s
join_lines (s ∷ t ∷ ts) = append_text s (append_text "\n" (join_lines (t ∷ ts)))

abbrev pub is_single_line : String → Bool
is_single_line s = not (has_char 10 s || has_char 13 s)

-- A side that a block has: its four values, and the bound of the two numbers.
unfoldable pub is_full_side : Option ℕ → Option ℕ → Option (List String) → Option String → Bool
is_full_side (some start) (some finish) (some lines) (some quote) =
    leb 1 start
    && leb 1 finish
    && leb start finish
    && length lines == (finish - start) + 1
    && all is_single_line lines
    && str_eq (join_lines lines) quote
is_full_side _ _ _ _ = false

-- `_validate_block_side`
unfoldable pub is_valid_side : (present : Bool) → Side → Bool
is_valid_side false s =
    not (is_some s.start || is_some s.finish || is_some s.lines || is_some s.quote)
is_valid_side true s = is_full_side s.start s.finish s.lines s.quote

abbrev pub has_a : BlockKind → Bool
has_a BlockKind.added = false
has_a _ = true

abbrev pub has_b : BlockKind → Bool
has_b BlockKind.deleted = false
has_b _ = true

-- `TextDiffBlockV1._validate_sides`
abbrev pub is_valid_block : TextDiffBlock → Bool
is_valid_block x = is_valid_side (has_a x.kind) x.a && is_valid_side (has_b x.kind) x.b

-- `_validate_block_order`, one side of a block at a time
unfoldable pub is_after : ℕ → Option ℕ → Option ℕ → Bool
is_after previous (some start) (some finish) = ltb previous start
is_after previous _ _ = true

unfoldable pub end_after : ℕ → Option ℕ → Option ℕ → ℕ
end_after previous (some start) (some finish) = finish
end_after previous _ _ = previous

unfoldable pub is_in_order : ℕ → List Side → Bool
unfolding is_after end_after
is_in_order previous [] = true
is_in_order previous (s ∷ sides) =
    is_after previous s.start s.finish && is_in_order (end_after previous s.start s.finish) sides

abbrev pub is_empty : List TextDiffBlock → Bool
is_empty [] = true
is_empty _ = false

abbrev pub agrees_with : ComparisonStatus → List TextDiffBlock → Bool
agrees_with ComparisonStatus.no_difference blocks = is_empty blocks
agrees_with ComparisonStatus.has_difference blocks = not (is_empty blocks)

abbrev pub a_sides : List TextDiffBlock → List Side
a_sides [] = []
a_sides (x ∷ xs) = x.a ∷ a_sides xs

abbrev pub b_sides : List TextDiffBlock → List Side
b_sides [] = []
b_sides (x ∷ xs) = x.b ∷ b_sides xs

-- The literals of `TextComparisonV1`
abbrev pub has_known_rule : TextComparison → Bool
has_known_rule c =
    str_eq c.capability_id "text.literal_compare"
    && c.capability_version == 1
    && str_eq c.rule_version "literal-lines@1"

abbrev pub has_valid_blocks : TextComparison → Bool
has_valid_blocks c = leb (length c.blocks) max_diff_blocks && all is_valid_block c.blocks

abbrev pub has_valid_status : TextComparison → Bool
has_valid_status c = not (c.a_material_id == c.b_material_id) && agrees_with c.status c.blocks

abbrev pub has_ordered_blocks : TextComparison → Bool
has_ordered_blocks c = is_in_order 0 (a_sides c.blocks) && is_in_order 0 (b_sides c.blocks)

-- `TextComparisonV1` and its `_validate_comparison`
unfoldable pub is_valid_comparison : TextComparison → Bool
is_valid_comparison c =
    has_known_rule c && (has_valid_blocks c && (has_valid_status c && has_ordered_blocks c))

-- How many lines the blocks quote of a side, and the last line number that they name.
abbrev pub lines_of : Option (List String) → ℕ
lines_of none = 0
lines_of (some l) = length l

unfoldable pub quoted_lines : List Side → ℕ
quoted_lines [] = 0
quoted_lines (s ∷ sides) = lines_of s.lines + quoted_lines sides

unfoldable pub last_line : ℕ → List Side → ℕ
unfolding end_after
last_line previous [] = previous
last_line previous (s ∷ sides) = last_line (end_after previous s.start s.finish) sides

-- One side of each block is valid.
abbrev AllValid : List Side → Type 0
AllValid [] = Unit
AllValid (s ∷ sides) = ((b : Bool) × (is_valid_side b s ≡ true)) × AllValid sides

step_lines :
    (previous : ℕ) (b : Bool) (start finish : Option ℕ) (lines : Option (List String))
    (quote : Option String)
    → is_valid_side b (record { start = start; finish = finish; lines = lines; quote = quote })
      ≡ true
    → is_after previous start finish ≡ true
    → previous + lines_of lines ≤ end_after previous start finish
unfolding is_valid_side is_full_side is_after end_after
step_lines previous true (some s) (some f) (some l) (some q) valid after = ground arith
step_lines previous true (some s) (some f) (some l) none valid after = cc
step_lines previous true (some s) (some f) none quote valid after = cc
step_lines previous true (some s) none lines quote valid after = cc
step_lines previous true none finish lines quote valid after = cc
step_lines previous false none none none none valid after = omega arith
step_lines previous false none none none (some q) valid after = cc
step_lines previous false none none (some l) quote valid after = cc
step_lines previous false none (some f) lines quote valid after = cc
step_lines previous false (some s) finish lines quote valid after = cc

and_parts : (a b : Bool) → (a && b) ≡ true → (a ≡ true) × (b ≡ true)
and_parts a b h = (ground arith, ground arith)

quoted_lines-bounded :
    (previous : ℕ) (sides : List Side)
    → AllValid sides
    → is_in_order previous sides ≡ true
    → previous + quoted_lines sides ≤ last_line previous sides
unfolding quoted_lines last_line is_in_order
quoted_lines-bounded previous [] valid order = omega arith
quoted_lines-bounded previous (s ∷ sides) ((b, valid), rest) order =
    let (after, later) = and_parts (is_after previous s.start s.finish) _ order in
    omega (
      arith,
      step_lines previous b s.start s.finish s.lines s.quote valid after,
      quoted_lines-bounded (end_after previous s.start s.finish) sides rest later,
    )

a_sides-AllValid : (l : List TextDiffBlock) → all is_valid_block l ≡ true → AllValid (a_sides l)
a_sides-AllValid [] h = tt
a_sides-AllValid (x ∷ l) h =
    let (here, rest) = and_parts (is_valid_block x) (all is_valid_block l) h in
    (
      (has_a x.kind, (and_parts (is_valid_side (has_a x.kind) x.a) _ here).0),
      a_sides-AllValid l rest,
    )

b_sides-AllValid : (l : List TextDiffBlock) → all is_valid_block l ≡ true → AllValid (b_sides l)
b_sides-AllValid [] h = tt
b_sides-AllValid (x ∷ l) h =
    let (here, rest) = and_parts (is_valid_block x) (all is_valid_block l) h in
    (
      (has_b x.kind, (and_parts (is_valid_side (has_a x.kind) x.a) _ here).1),
      b_sides-AllValid l rest,
    )

-- A comparison that passes validation has at most 50 blocks, and on each side its blocks quote
-- together at most as many lines as the last line number that they name.
pub valid_comparison_is_bounded :
    (c : TextComparison)
    → is_valid_comparison c ≡ true
    → (length c.blocks ≤ 50)
      × (quoted_lines (a_sides c.blocks) ≤ last_line 0 (a_sides c.blocks))
      × (quoted_lines (b_sides c.blocks) ≤ last_line 0 (b_sides c.blocks))
unfolding is_valid_comparison
valid_comparison_is_bounded c h =
    let (_, rest) =
      and_parts (has_known_rule c)
        (has_valid_blocks c && (has_valid_status c && has_ordered_blocks c)) h in
    let (blocks, rest₂) =
      and_parts (has_valid_blocks c) (has_valid_status c && has_ordered_blocks c) rest in
    let (_, order) = and_parts (has_valid_status c) (has_ordered_blocks c) rest₂ in
    let (few, valid) =
      and_parts (leb (length c.blocks) max_diff_blocks) (all is_valid_block c.blocks) blocks in
    let (a, b) =
      and_parts (is_in_order 0 (a_sides c.blocks)) (is_in_order 0 (b_sides c.blocks)) order in
    (
      ground arith,
      omega (arith, quoted_lines-bounded 0 (a_sides c.blocks) (a_sides-AllValid c.blocks valid) a),
      omega (arith, quoted_lines-bounded 0 (b_sides c.blocks) (b_sides-AllValid c.blocks valid) b),
    )
