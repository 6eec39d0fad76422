-- ===== src/Ensures.antt =====
-- Partial-correctness rules of the monad: what holds behind a call that does not fault.
use scsiswap.Base.{Bool, true, false, Option, none, some, if◌then◌else◌, ◌≡◌, refl}
use scsiswap.State.{World, M, deref, ◌>>=◌}

abbrev pub Ensures : {E A : Type 0} → (A → World E → Type 0) → Option (A × World E) → Type 0
Ensures P none = Unit
Ensures P (some (a, w)) = P a w

module _ {E A B : Type 0} where
  pub after_rule :
      (o : Option (A × World E)) (f : A → M E B) (P : A → World E → Type 0)
      (Q : B → World E → Type 0)
      → Ensures P o
      → ((a : A) (v : World E) → P a v → Ensures Q (f a v))
      → Ensures Q (let r : Option (B × World E) = elim o [ none ↦ none | some (a, v) ↦ f a v ] in r)
  after_rule none f P Q h step = tt
  after_rule (some (a, v)) f P Q h step = step a v h

  pub bind_rule :
      (m : M E A) (f : A → M E B) (P : A → World E → Type 0) (Q : B → World E → Type 0)
      (w : World E)
      → Ensures P (m w)
      → ((a : A) (v : World E) → P a v → Ensures Q (f a v))
      → Ensures Q ((m >>= f) w)
  bind_rule m f P Q w h step = after_rule (m w) f P Q h step

  pub deref_rule :
      (o : Option A) (f : A → M E B) (Q : B → World E → Type 0) (w : World E)
      → ((a : A) → o ≡ some a → Ensures Q (f a w))
      → Ensures Q ((deref o >>= f) w)
  deref_rule none f Q w step = tt
  deref_rule (some a) f Q w step = step a refl

module _ {E A B : Type 0} where
  -- A pointer that is not null is followed.
  pub deref-some :
      (o : Option A) (a : A) (f : A → M E B) (w : World E) → o ≡ some a → (deref o >>= f) w ≡ f a w
  deref-some o a f w h = rw h refl

module _ {E A : Type 0} where
  pub weaken :
      (o : Option (A × World E)) (P Q : A → World E → Type 0)
      → Ensures P o
      → ((a : A) (v : World E) → P a v → Q a v)
      → Ensures Q o
  weaken none P Q h step = tt
  weaken (some (a, v)) P Q h step = step a v h

  pub if_rule :
      (b : Bool) (m n : M E A) (Q : A → World E → Type 0) (w : World E)
      → Ensures Q (m w)
      → Ensures Q (n w)
      → Ensures Q ((if b then m else n) w)
  if_rule true m n Q w p q = p
  if_rule false m n Q w p q = q

module _ {A E B : Type 0} where
  -- The two cases of an optional value, with what is known of it.
  pub option_rule :
      (o : Option A) (m : M E B) (f : A → M E B) (P : Option A → Type 0) (Q : B → World E → Type 0)
      (w : World E)
      → P o
      → (P none → Ensures Q (m w))
      → ((a : A) → P (some a) → Ensures Q (f a w))
      → Ensures Q ((let r : M E B = elim o [ none ↦ m | some a ↦ f a ] in r) w)
  option_rule none m f P Q w p on_none on_some = on_none p
  option_rule (some a) m f P Q w p on_none on_some = on_some a p

module _ {E B : Type 0} where
  -- The two cases of a test, with what is known of it.
  pub test_rule :
      (b : Bool) (m n : M E B) (P : Bool → Type 0) (Q : B → World E → Type 0) (w : World E)
      → P b
      → (P true → Ensures Q (m w))
      → (P false → Ensures Q (n w))
      → Ensures Q ((if b then m else n) w)
  test_rule true m n P Q w p yes_case no_case = yes_case p
  test_rule false m n P Q w p yes_case no_case = no_case p
