-- ===== src/Base/Texts.antt =====
-- Texts by their characters, as Python counts them.
use Prim.Native.Nat.{ℕ, zero, suc}
use Prim.Native.String.{String, [], ◌∷◌}
use Prim.Native.Char.{Char, code}
use mathlib.Core.Bool.{Bool, true, false, not, ◌&&◌, ◌||◌}
use oper_mind.Base.Tests.{◌==◌, leb}

-- `s[:n]`
unfoldable pub first_chars : ℕ → String → String
first_chars zero s = []
first_chars (suc n) [] = []
first_chars (suc n) (c ∷ s) = c ∷ first_chars n s

-- Whether a character with this number occurs: `"\n" in s` for 10.
unfoldable pub has_char : ℕ → String → Bool
has_char n [] = false
has_char n (c ∷ s) = let rest = has_char n s in code c == n || rest

-- `s.startswith(p)`
unfoldable pub starts_with : String → String → Bool
starts_with [] s = true
starts_with (c ∷ p) [] = false
starts_with (c ∷ p) (d ∷ s) = let rest = starts_with p s in code c == code d && rest

-- `p in s`
unfoldable pub contains : String → String → Bool
contains p [] = starts_with p []
contains p (c ∷ s) = let rest = contains p s in starts_with p (c ∷ s) || rest

-- `[a-z]` and `[a-z0-9_]`
abbrev pub is_lower : Char → Bool
is_lower c = leb 97 (code c) && leb (code c) 122

abbrev pub is_word : Char → Bool
is_word c = is_lower c || (leb 48 (code c) && leb (code c) 57) || code c == 95

-- The rest of a namespaced name: whether a dot has been read, and whether a part begins here.
unfoldable pub is_rest_of_name : Bool → Bool → String → Bool
is_rest_of_name dotted begins [] = dotted && not begins
is_rest_of_name dotted true (c ∷ s) = elim (is_lower c) [
  | false ↦ false
  | true ↦ is_rest_of_name dotted false s
]
is_rest_of_name dotted false (c ∷ s) = elim (is_word c) [
  | true ↦ is_rest_of_name dotted false s
  | false ↦ elim (code c == 46) [ false ↦ false | true ↦ is_rest_of_name true true s ]
]

-- `^[a-z][a-z0-9_]*(\.[a-z][a-z0-9_]*)+$`, where `$` is the end of the text.
unfoldable pub is_namespaced : String → Bool
unfolding is_rest_of_name
is_namespaced s = is_rest_of_name false true s
