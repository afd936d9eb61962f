-- ===== src/Stream/Guard.antt =====
-- `_guard_finite_stream`, for any items, errors and signals. A stream is the list of what `next`
-- answers until it stops; an iterator that never stops is not in the model, as the source leaves
-- it to the caller's deadline.
use mathlib.Core.Path.{subst}
use mathlib.Core.Option.{some-injective}
use oper_mind.Base.{All, ◌≡◌, refl, Bool, true, false, Option, none, some, is_some, List, [], ◌∷◌}

pub data Pull (I : Type 0) (E : Type 0) : Type 0 where
  item : I → Pull I E
  raised : E → Pull I E

-- What the factory gives: an exception, or an iterator.
pub data Source (I : Type 0) (E : Type 0) : Type 0 where
  unopened : E → Source I E
  opened : List (Pull I E) → Source I E

-- What `classify` answers: a signal that is or is not terminal, `_ProtocolViolation`, or another
-- exception.
pub data Classified (E : Type 0) (S : Type 0) : Type 0 where
  signal : S → (is_terminal : Bool) → Classified E S
  violation : Classified E S
  broken : E → Classified E S

pub record Protocol (I : Type 0) (E : Type 0) (S : Type 0) : Type 0 where
  pub classify : I → Classified E S
  pub protocol_failure : S
  pub exception_failure : E → Bool → S

module _ {I : Type 0} {E : Type 0} {S : Type 0} (p : Protocol I E S) where
  -- The loop, with the terminal signal that it holds back.
  unfoldable pub consume : Option S → List (Pull I E) → List S
  consume none [] = p.protocol_failure ∷ []
  consume (some terminal) [] = terminal ∷ []
  consume terminal (Pull.raised e ∷ rest) = p.exception_failure e (is_some terminal) ∷ []
  consume (some terminal) (Pull.item i ∷ rest) = p.protocol_failure ∷ []
  consume none (Pull.item i ∷ rest) = elim (p.classify i) [
    | Classified.violation ↦ p.protocol_failure ∷ []
    | Classified.broken e ↦ p.exception_failure e false ∷ []
    | Classified.signal s true ↦ consume (some s) rest
    | Classified.signal s false ↦ s ∷ consume none rest
  ]

  -- `_guard_finite_stream`
  unfoldable pub guard_finite_stream : Source I E → List S
  guard_finite_stream (Source.unopened e) = p.exception_failure e false ∷ []
  guard_finite_stream (Source.opened pulls) = consume none pulls

  -- Signals that end with their only terminal one.
  abbrev pub IsClosed : (S → Bool) → List S → Type 0
  IsClosed ends [] = ⊥
  IsClosed ends (s ∷ []) = ends s ≡ true
  IsClosed ends (s ∷ t ∷ rest) = (ends s ≡ false) × IsClosed ends (t ∷ rest)

  -- A test that tells terminal signals apart the way the protocol makes them.
  pub record Tells (ends : S → Bool) : Type 0 where
    pub of_item : (i : I) (s : S) (b : Bool) → p.classify i ≡ Classified.signal s b → ends s ≡ b
    pub of_failure : ends p.protocol_failure ≡ true
    pub of_exception : (e : E) (b : Bool) → ends (p.exception_failure e b) ≡ true

  cons-IsClosed :
      (ends : S → Bool) (s : S) (l : List S)
      → ends s ≡ false
      → IsClosed ends l
      → IsClosed ends (s ∷ l)
  cons-IsClosed ends s [] h c = absurd c
  cons-IsClosed ends s (t ∷ l) h c = (h, c)

  consume_terminal-IsClosed :
      (ends : S → Bool) (t : Tells ends) (s : S) (l : List (Pull I E))
      → ends s ≡ true
      → IsClosed ends (consume (some s) l)
  unfolding consume
  consume_terminal-IsClosed ends t s [] h = h
  consume_terminal-IsClosed ends t s (Pull.raised e ∷ l) h = t.of_exception e true
  consume_terminal-IsClosed ends t s (Pull.item i ∷ l) h = t.of_failure

  consume-IsClosed :
      (ends : S → Bool) (t : Tells ends) (l : List (Pull I E)) → IsClosed ends (consume none l)
  unfolding consume
  consume-IsClosed ends t [] = t.of_failure
  consume-IsClosed ends t (Pull.raised e ∷ l) = t.of_exception e false
  consume-IsClosed ends t (Pull.item i ∷ l) =
      go (p.classify i) (t.of_item i) (consume-IsClosed ends t l)
    where
      go :
          (c : Classified E S)
          → ((s : S) (b : Bool) → c ≡ Classified.signal s b → ends s ≡ b)
          → IsClosed ends (consume none l)
          → IsClosed ends (elim c [
            | Classified.violation ↦ p.protocol_failure ∷ []
            | Classified.broken e ↦ p.exception_failure e false ∷ []
            | Classified.signal s true ↦ consume (some s) l
            | Classified.signal s false ↦ s ∷ consume none l
          ])
      go Classified.violation h c = t.of_failure
      go (Classified.broken e) h c = t.of_exception e false
      go (Classified.signal s true) h c = consume_terminal-IsClosed ends t s l (h s true refl)
      go (Classified.signal s false) h c = cons-IsClosed ends s _ (h s false refl) c

  pub guard-IsClosed :
      (ends : S → Bool) (t : Tells ends) (o : Source I E) → IsClosed ends (guard_finite_stream o)
  unfolding guard_finite_stream
  guard-IsClosed ends t (Source.unopened e) = t.of_exception e false
  guard-IsClosed ends t (Source.opened l) = consume-IsClosed ends t l

  -- Every signal that a protocol makes has the property P.
  pub record Makes (P : S → Type 0) : Type 0 where
    pub of_item : (i : I) (s : S) (b : Bool) → p.classify i ≡ Classified.signal s b → P s
    pub of_failure : P p.protocol_failure
    pub of_exception : (e : E) (b : Bool) → P (p.exception_failure e b)

  consume-All :
      (P : S → Type 0) (m : Makes P) (held : Option S) (l : List (Pull I E))
      → ((s : S) → held ≡ some s → P s)
      → All P (consume held l)
  unfolding consume
  consume-All P m none [] h = (m.of_failure, tt)
  consume-All P m (some s) [] h = (h s refl, tt)
  consume-All P m none (Pull.raised e ∷ l) h = (m.of_exception e false, tt)
  consume-All P m (some s) (Pull.raised e ∷ l) h = (m.of_exception e true, tt)
  consume-All P m (some s) (Pull.item i ∷ l) h = (m.of_failure, tt)
  consume-All P m none (Pull.item i ∷ l) h =
      go (p.classify i) (m.of_item i) (λ held. consume-All P m held l)
    where
      only : (r s : S) → P r → some r ≡ some s → P s
      only r s q e = subst P (some-injective r s e) q

      go :
          (c : Classified E S)
          → ((s : S) (b : Bool) → c ≡ Classified.signal s b → P s)
          → ((held : Option S) → ((s : S) → held ≡ some s → P s) → All P (consume held l))
          → All P (elim c [
            | Classified.violation ↦ p.protocol_failure ∷ []
            | Classified.broken e ↦ p.exception_failure e false ∷ []
            | Classified.signal s true ↦ consume (some s) l
            | Classified.signal s false ↦ s ∷ consume none l
          ])
      go Classified.violation made rest = (m.of_failure, tt)
      go (Classified.broken e) made rest = (m.of_exception e false, tt)
      go (Classified.signal r true) made rest = rest (some r) (λ s. only r s (made r true refl))
      go (Classified.signal r false) made rest = (made r false refl, rest none (λ s e. cc))

  pub guard-All : (P : S → Type 0) (m : Makes P) (o : Source I E) → All P (guard_finite_stream o)
  unfolding guard_finite_stream
  guard-All P m (Source.unopened e) = (m.of_exception e false, tt)
  guard-All P m (Source.opened l) = consume-All P m none l (λ s e. cc)
