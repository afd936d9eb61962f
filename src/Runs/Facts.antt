-- ===== src/Runs/Facts.antt =====
-- The normal form of a material (`normalize_material_text` of backend/src/domain/main_agent.py).
use Prim.Native.String.{[], ◌∷◌}
use Prim.Native.Char.{Char, code}
use oper_mind.Base.{◌≡◌, refl, false, String, arith, ◌==◌, has_char, Bool-cases, inl, inr}
use oper_mind.Runs.Inputs.{replace_pairs, replace_returns, normalize_material_text}

replaced : (s : String) → has_char 13 (replace_returns "\n" s) ≡ false
unfolding has_char replace_returns
replaced [] = refl
replaced (c ∷ s) = elim (Bool-cases (code c == 13)) [
  | inl hit ↦ rw hit (replaced s)
  | inr miss ↦ rw (miss, miss) (replaced s)
]

no_return_here : (c : Char) (s : String) → has_char 13 (c ∷ s) ≡ false → (code c == 13) ≡ false
unfolding has_char
no_return_here c s h = ground (arith, h)

no_return_later : (c : Char) (s : String) → has_char 13 (c ∷ s) ≡ false → has_char 13 s ≡ false
unfolding has_char
no_return_later c s h = ground (arith, h)

kept_returns : (s : String) → has_char 13 s ≡ false → replace_returns "\n" s ≡ s
unfolding replace_returns
kept_returns [] h = refl
kept_returns (c ∷ s) h = rw (no_return_here c s h, kept_returns s (no_return_later c s h)) refl

kept_pairs : (s : String) → has_char 13 s ≡ false → replace_pairs s ≡ s
unfolding replace_pairs
kept_pairs [] h = refl
kept_pairs (c ∷ []) h = refl
kept_pairs (c ∷ d ∷ s) h =
    rw (no_return_here c (d ∷ s) h, kept_pairs (d ∷ s) (no_return_later c (d ∷ s) h)) refl

-- A normalised material has no carriage return, and normalising it again changes nothing.
pub normalize_is_idempotent :
    (s : String)
    → (has_char 13 (normalize_material_text s) ≡ false)
      × (normalize_material_text (normalize_material_text s) ≡ normalize_material_text s)
unfolding normalize_material_text
normalize_is_idempotent s =
    let clean = replaced (replace_pairs s) in
    (clean, rw (kept_pairs _ clean) (kept_returns _ clean))
