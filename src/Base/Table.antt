-- ===== src/Base/Table.antt =====
-- A table of the database: its rows in insertion order, with SELECT, UPDATE ... WHERE and the
-- number of rows that an UPDATE matches.
use Prim.Native.Nat.{ℕ, suc, ◌+◌, ◌≤◌}
use mathlib.Core.Path.{◌≡◌, refl, subst}
use mathlib.Core.Bool.{Bool, true, false, ◌&&◌}
use mathlib.Core.List.{List, [], ◌∷◌, ◌++◌}
use mathlib.Core.Option
use mathlib.Core.Option.{Option, none, some, some-injective}
use native.Mathlib.Omega.{arith}
use oper_mind.Base.Lists.{any, All}
use oper_mind.Base.Tests.{◌==◌, if◌then◌else◌, is_some}

module _ {ℓ} {A : Type ℓ} where
  -- The first row that meets the test.
  unfoldable pub find : (A → Bool) → List A → Option A
  find p [] = none
  find p (x ∷ xs) = if p x then some x else find p xs

  -- UPDATE rows SET f WHERE q
  unfoldable pub update_where : (A → Bool) → (A → A) → List A → List A
  update_where q f [] = []
  update_where q f (x ∷ xs) = (if q x then f x else x) ∷ update_where q f xs

  -- The number of rows that meet the test.
  unfoldable pub count_where : (A → Bool) → List A → ℕ
  count_where q [] = 0
  count_where q (x ∷ xs) = let n = count_where q xs in if q x then suc n else n

  abbrev pub alter : (A → Bool) → (A → A) → A → A
  alter q f r = if q r then f r else r

  -- An update that leaves the key of a row alone acts on what a lookup of the key finds.
  pub find-update_where :
      (p q : A → Bool) (f : A → A) (xs : List A)
      → ((r : A) → p (alter q f r) ≡ p r)
      → find p (update_where q f xs) ≡ Option.map (alter q f) (find p xs)
  unfolding find update_where
  find-update_where p q f [] h = refl
  find-update_where p q f (x ∷ xs) h = ground (arith, h x, find-update_where p q f xs h)

  pub find-append :
      (p : A → Bool) (xs : List A) (y : A)
      → find p (xs ++ y ∷ [])
        ≡ (if is_some (find p xs) then find p xs else if p y then some y else none)
  unfolding find
  find-append p [] y = ground arith
  find-append p (x ∷ xs) y = ground (arith, find-append p xs y)

  -- No row meets a test that `any` refuses.
  pub find-none_of_any : (p : A → Bool) (xs : List A) → any p xs ≡ false → find p xs ≡ none
  unfolding find
  find-none_of_any p [] h = refl
  find-none_of_any p (x ∷ xs) h = ground (arith, find-none_of_any p xs)

  -- A row with a fresh key is found under its key, and hides no other row.
  pub find-append_fresh :
      (key : A → ℕ) (j : ℕ) (xs : List A) (y : A)
      → find (λ a. key a == key y) xs ≡ none
      → find (λ a. key a == j) (xs ++ y ∷ [])
        ≡ (if key y == j then some y else find (λ a. key a == j) xs)
  unfolding find
  find-append_fresh key j [] y h = refl
  find-append_fresh key j (x ∷ xs) y h = ground (arith, find-append_fresh key j xs y)

-- An update that leaves the key of a row alone keeps the number of rows with the key.
pub count_where-update_where {ℓ} :
    {A : Type ℓ} (p q : A → Bool) (f : A → A) (xs : List A)
    → ((r : A) → p (alter q f r) ≡ p r)
    → count_where p (update_where q f xs) ≡ count_where p xs
unfolding count_where update_where
count_where-update_where p q f [] h = refl
count_where-update_where p q f (x ∷ xs) h = ground (arith, h x, count_where-update_where p q f xs h)

pub count_where-append {ℓ} :
    {A : Type ℓ} (p : A → Bool) (xs : List A) (y : A)
    → count_where p (xs ++ y ∷ []) ≡ count_where p xs + (if p y then 1 else 0)
unfolding count_where
count_where-append p [] y = ground arith
count_where-append p (x ∷ xs) y = ground (arith, count_where-append p xs y)

pub count_where-none_of_any {ℓ} :
    {A : Type ℓ} (p : A → Bool) (xs : List A) → any p xs ≡ false → count_where p xs ≡ 0
unfolding count_where
count_where-none_of_any p [] h = refl
count_where-none_of_any p (x ∷ xs) h = ground (arith, count_where-none_of_any p xs)

-- A row that a lookup finds is counted.
pub count_where-found {ℓ} :
    {A : Type ℓ} (p : A → Bool) (xs : List A) (y : A) → find p xs ≡ some y → 1 ≤ count_where p xs
unfolding count_where find
count_where-found p [] y h = cc
count_where-found p (x ∷ xs) y h = ground (arith, count_where-found p xs y)

-- Rows with a key that meet a further test, where at most one row has the key.
module _ {ℓ} {A : Type ℓ} (p q : A → Bool) where
  abbrev pub both : A → Bool
  both x = p x && q x

  count_where-both : (xs : List A) → count_where both xs ≤ count_where p xs
  unfolding count_where
  count_where-both [] = omega arith
  count_where-both (x ∷ xs) = ground (arith, count_where-both xs)

  counted : (xs : List A) (y : A) → find both xs ≡ some y → 1 ≤ count_where p xs
  counted xs y h = omega (arith, count_where-both xs, count_where-found both xs y h)

  pub find-both :
      (xs : List A) (y : A) → find both xs ≡ some y → count_where p xs ≤ 1 → find p xs ≡ some y
  unfolding find count_where
  find-both [] y h one = cc
  find-both (x ∷ xs) y h one = ground (arith, counted xs y, find-both xs y)

  pub found-both : (xs : List A) (y : A) → find both xs ≡ some y → q y ≡ true
  unfolding find
  found-both [] y h = cc
  found-both (x ∷ xs) y h = ground (arith, found-both xs y)

  matched : (xs : List A) (y : A) → find p xs ≡ some y → q y ≡ true → 1 ≤ count_where both xs
  unfolding find count_where
  matched [] y h t = cc
  matched (x ∷ xs) y h t = ground (arith, matched xs y)

  pub not_both : (xs : List A) (y : A) → find both xs ≡ none → find p xs ≡ some y → q y ≡ false
  unfolding find
  not_both [] y none_found h = cc
  not_both (x ∷ xs) y none_found h = ground (arith, not_both xs y)

  -- The update by key and test matches exactly the row that a lookup of the key finds.
  pub count_where-matched :
      (xs : List A) (y : A)
      → find p xs ≡ some y
      → q y ≡ true
      → count_where p xs ≤ 1
      → (count_where both xs == 1) ≡ true
  count_where-matched xs y h t one = ground (arith, count_where-both xs, matched xs y h t)

pub map-if {ℓ κ} :
    {A : Type ℓ} {B : Type κ} (f : A → B) (b : Bool) (y : A) (o : Option A)
    → Option.map f (if b then some y else o) ≡ (if b then some (f y) else Option.map f o)
map-if f true y o = refl
map-if f false y o = refl

-- What holds of all rows holds of the one that is found.
module _ {ℓ κ} {A : Type ℓ} (P : A → Type κ) (y : A) where
  found_here :
      (b : Bool) (x : A) (o : Option A)
      → P x
      → (o ≡ some y → P y)
      → (if b then some x else o) ≡ some y
      → P y
  found_here true x o first later e = subst P (some-injective x y e) first
  found_here false x o first later e = later e

  pub found-All : (p : A → Bool) (xs : List A) → All P xs → find p xs ≡ some y → P y
  unfolding find
  found-All p [] a e = absurd (cc (e))
  found-All p (x ∷ xs) (first, rest) e =
      found_here (p x) x (find p xs) first (found-All p xs rest) e
