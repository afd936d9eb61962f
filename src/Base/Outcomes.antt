-- ===== src/Base/Outcomes.antt =====
-- What a fallible operation returns, a value or what it raises, and rules for what holds of the value.
use mathlib.Core.Path.{◌≡◌, refl}
use mathlib.Core.Bool.{Bool, true, false}
use mathlib.Core.Option.{Option, none, some}
use oper_mind.Base.Tests.{if◌then◌else◌}

pub data Outcome {ℓ} (E : Type 0) (A : Type ℓ) : Type ℓ where
  ok : A → Outcome E A
  err : E → Outcome E A

infixl 5 ◌>>=◌ ◌>>◌
abbrev pub ◌>>=◌ {ℓ κ} :
    {E : Type 0} {A : Type ℓ} {B : Type κ} → Outcome E A → (A → Outcome E B) → Outcome E B
ok value >>= next = next value
err raised >>= next = err raised

abbrev pub ◌>>◌ {ℓ} : {E : Type 0} {B : Type ℓ} → Outcome E (Unit {0}) → Outcome E B → Outcome E B
check >> rest = check >>= λ _. rest

module _ {E : Type 0} where
  abbrev pub raise_if : Bool → E → Outcome E (Unit {0})
  raise_if true e = err e
  raise_if false e = ok tt

  abbrev pub or_raise {ℓ} : {A : Type ℓ} → Option A → E → Outcome E A
  or_raise none e = err e
  or_raise (some a) e = ok a

  -- What holds of a value if nothing was raised.
  abbrev pub Post {ℓ κ} : {A : Type ℓ} → (A → Type κ) → Outcome E A → Type κ
  Post P (ok a) = P a
  Post P (err e) = Unit

  pub Post-bind {ℓ κ μ ν} :
      {A : Type ℓ} {B : Type κ} (Q : A → Type μ) (P : B → Type ν) (m : Outcome E A)
      (f : A → Outcome E B)
      → Post Q m
      → ((a : A) → Q a → Post P (f a))
      → Post P (m >>= f)
  Post-bind Q P (ok a) f q k = k a q
  Post-bind Q P (err e) f q k = tt

  pub Post-then {ℓ κ ν} :
      {A : Type ℓ} {B : Type κ} (P : B → Type ν) (m : Outcome E A) (f : A → Outcome E B)
      → ((a : A) → m ≡ ok a → Post P (f a))
      → Post P (m >>= f)
  Post-then P (ok a) f k = k a refl
  Post-then P (err e) f k = tt

  pub Post-and {ℓ κ μ} :
      {A : Type ℓ} (P : A → Type κ) (Q : A → Type μ) (m : Outcome E A)
      → Post P m
      → Post Q m
      → Post (λ a. P a × Q a) m
  Post-and P Q (ok a) p q = (p, q)
  Post-and P Q (err e) p q = tt

  pub Post-all {ℓ κ} : {A : Type ℓ} (P : A → Type κ) (m : Outcome E A) → ((a : A) → P a) → Post P m
  Post-all P (ok a) k = k a
  Post-all P (err e) k = tt

  pub Post-weaken {ℓ κ μ} :
      {A : Type ℓ} (Q : A → Type κ) (P : A → Type μ) (m : Outcome E A)
      → Post Q m
      → ((a : A) → Q a → P a)
      → Post P m
  Post-weaken Q P (ok a) q k = k a q
  Post-weaken Q P (err e) q k = tt

  pub Post-or_raise {ℓ κ ν} :
      {A : Type ℓ} {B : Type κ} (P : B → Type ν) (o : Option A) (e : E) (f : A → Outcome E B)
      → ((a : A) → o ≡ some a → Post P (f a))
      → Post P (or_raise o e >>= f)
  Post-or_raise P none e f k = tt
  Post-or_raise P (some a) e f k = k a refl

  pub Post-raise_if {κ ν} :
      {B : Type κ} (P : B → Type ν) (b : Bool) (e : E) (f : Unit {0} → Outcome E B)
      → (b ≡ false → Post P (f tt))
      → Post P (raise_if b e >>= f)
  Post-raise_if P true e f k = tt
  Post-raise_if P false e f k = k refl

  pub Post-else {ℓ κ} :
      {A : Type ℓ} (P : A → Type κ) (b : Bool) (e : E) (r : Outcome E A)
      → Post P r
      → Post P (if b then err e else r)
  Post-else P true e r p = tt
  Post-else P false e r p = p

  pub Post-if {ℓ κ} :
      {A : Type ℓ} (P : A → Type κ) (b : Bool) (r s : Outcome E A)
      → (b ≡ true → Post P r)
      → (b ≡ false → Post P s)
      → Post P (if b then r else s)
  Post-if P true r s p q = p refl
  Post-if P false r s p q = q refl

  -- What holds of whatever is raised.
  abbrev pub Fails {ℓ κ} : {A : Type ℓ} → (E → Type κ) → Outcome E A → Type κ
  Fails Q (ok a) = Unit
  Fails Q (err e) = Q e

  pub Fails-bind {ℓ κ μ ν} :
      {A : Type ℓ} {B : Type κ} (P : A → Type μ) (Q : E → Type ν) (m : Outcome E A)
      (f : A → Outcome E B)
      → Fails Q m
      → Post P m
      → ((a : A) → P a → Fails Q (f a))
      → Fails Q (m >>= f)
  Fails-bind P Q (ok a) f q p k = k a p
  Fails-bind P Q (err e) f q p k = q

  pub Fails-then {ℓ κ ν} :
      {A : Type ℓ} {B : Type κ} (Q : E → Type ν) (m : Outcome E A) (f : A → Outcome E B)
      → Fails Q m
      → ((a : A) → Fails Q (f a))
      → Fails Q (m >>= f)
  Fails-then Q (ok a) f q k = k a
  Fails-then Q (err e) f q k = q

  pub Fails-or_raise {ℓ κ ν} :
      {A : Type ℓ} {B : Type κ} (Q : E → Type ν) (o : Option A) (e : E) (f : A → Outcome E B)
      → Q e
      → ((a : A) → Fails Q (f a))
      → Fails Q (or_raise o e >>= f)
  Fails-or_raise Q none e f q k = q
  Fails-or_raise Q (some a) e f q k = k a

  pub Fails-raise_if {κ ν} :
      {B : Type κ} (Q : E → Type ν) (b : Bool) (e : E) (f : Unit {0} → Outcome E B)
      → Q e
      → Fails Q (f tt)
      → Fails Q (raise_if b e >>= f)
  Fails-raise_if Q true e f q k = q
  Fails-raise_if Q false e f q k = k

  pub Fails-if {ℓ ν} :
      {A : Type ℓ} (Q : E → Type ν) (b : Bool) (r s : Outcome E A)
      → (b ≡ true → Fails Q r)
      → (b ≡ false → Fails Q s)
      → Fails Q (if b then r else s)
  Fails-if Q true r s p q = p refl
  Fails-if Q false r s p q = q refl

  -- `_in_transaction`: an exception drops what the operation wrote.
  unfoldable pub settle {ℓ} : {A : Type ℓ} {D : Type 0} → D → Outcome E (A × D) → Outcome E A × D
  settle db (ok (a, db')) = (ok a, db')
  settle db (err e) = (err e, db)

  unfoldable pub in_transaction {ℓ} :
      {A : Type ℓ} {D : Type 0} → (D → Outcome E (A × D)) → D → Outcome E A × D
  unfolding settle
  in_transaction op db = settle db (op db)
