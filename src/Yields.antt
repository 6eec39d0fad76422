-- ===== src/Yields.antt =====
-- Total-correctness rules of the monad: a call does not fault, and what holds behind it.
use scsiswap.Base.{Bool, true, false, Option, none, some, if◌then◌else◌, ◌≡◌, refl}
use mathlib.Core.Path.{subst}
use scsiswap.State.{World, M, deref, ◌>>=◌}
use scsiswap.Ensures.{Ensures}

abbrev pub Yields : {E A : Type 0} → (A → World E → Type 0) → Option (A × World E) → Type 0
Yields P none = ⊥
Yields P (some (a, w)) = P a w

module _ {E A : Type 0} where
  pub ensure : (o : Option (A × World E)) (P : A → World E → Type 0) → Yields P o → Ensures P o
  ensure none P h = tt
  ensure (some (a, v)) P h = h

  -- A call that does not fault, and what holds if it does not.
  pub both :
      (o : Option (A × World E)) (P Q : A → World E → Type 0)
      → Yields P o
      → Ensures Q o
      → Yields (λ a v. P a v × Q a v) o
  both none P Q h k = h
  both (some (a, v)) P Q h k = (h, k)

  pub yield_weaken :
      (o : Option (A × World E)) (P Q : A → World E → Type 0)
      → Yields P o
      → ((a : A) (v : World E) → P a v → Q a v)
      → Yields Q o
  yield_weaken none P Q h step = h
  yield_weaken (some (a, v)) P Q h step = step a v h

  pub yield_if :
      (b : Bool) (m n : M E A) (Q : A → World E → Type 0) (w : World E)
      → Yields Q (m w)
      → Yields Q (n w)
      → Yields Q ((if b then m else n) w)
  yield_if true m n Q w p q = p
  yield_if false m n Q w p q = q

  -- The two cases of a test, with what is known of it.
  pub yield_test :
      (b : Bool) (m n : M E A) (P : Bool → Type 0) (Q : A → World E → Type 0) (w : World E)
      → P b
      → (P true → Yields Q (m w))
      → (P false → Yields Q (n w))
      → Yields Q ((if b then m else n) w)
  yield_test true m n P Q w p yes_case no_case = yes_case p
  yield_test false m n P Q w p yes_case no_case = no_case p

module _ {E A B : Type 0} where
  pub yield_after :
      (o : Option (A × World E)) (f : A → M E B) (P : A → World E → Type 0)
      (Q : B → World E → Type 0)
      → Yields P o
      → ((a : A) (v : World E) → P a v → Yields Q (f a v))
      → Yields Q (let r : Option (B × World E) = elim o [ none ↦ none | some (a, v) ↦ f a v ] in r)
  yield_after none f P Q h step = h
  yield_after (some (a, v)) f P Q h step = step a v h

  pub yield_bind :
      (m : M E A) (f : A → M E B) (P : A → World E → Type 0) (Q : B → World E → Type 0)
      (w : World E)
      → Yields P (m w)
      → ((a : A) (v : World E) → P a v → Yields Q (f a v))
      → Yields Q ((m >>= f) w)
  yield_bind m f P Q w h step = yield_after (m w) f P Q h step

  -- A pointer that is not null.
  pub yield_deref :
      (o : Option A) (a : A) (f : A → M E B) (Q : B → World E → Type 0) (w : World E)
      → o ≡ some a
      → Yields Q (f a w)
      → Yields Q ((deref o >>= f) w)
  yield_deref none a f Q w e h = cc
  yield_deref (some b) a f Q w e h = let same : a ≡ b = cc in subst (λ x. Yields Q (f x w)) same h

  pub yield_option :
      (o : Option A) (m : M E B) (f : A → M E B) (P : Option A → Type 0) (Q : B → World E → Type 0)
      (w : World E)
      → P o
      → (P none → Yields Q (m w))
      → ((a : A) → P (some a) → Yields Q (f a w))
      → Yields Q ((let r : M E B = elim o [ none ↦ m | some a ↦ f a ] in r) w)
  yield_option none m f P Q w p on_none on_some = on_none p
  yield_option (some a) m f P Q w p on_none on_some = on_some a p

module _ {E A : Type 0} where
  pub yield_pointer :
      (o : Option A) (a : A) (Q : A → World E → Type 0) (w : World E)
      → o ≡ some a
      → Q a w
      → Yields Q (deref o w)
  yield_pointer none a Q w e h = cc
  yield_pointer (some b) a Q w e h = let same : a ≡ b = cc in subst (λ x. Q x w) same h

module _ {E A B : Type 0} where
  -- The call, with the run that it makes.
  pub yield_seen :
      (m : M E A) (f : A → M E B) (P : A → World E → Type 0) (Q : B → World E → Type 0)
      (w : World E)
      → Yields P (m w)
      → ((a : A) (v : World E) → m w ≡ some (a, v) → P a v → Yields Q (f a v))
      → Yields Q ((m >>= f) w)
  yield_seen m f P Q w h step = by_run (m w) h step
    where
      by_run :
          (o : Option (A × World E))
          → Yields P o
          → ((a : A) (v : World E) → o ≡ some (a, v) → P a v → Yields Q (f a v))
          → Yields Q
              (let r : Option (B × World E) = elim o [ none ↦ none | some (a, v) ↦ f a v ] in r)
      by_run none h step = h
      by_run (some (a, v)) h step = step a v refl h

module _ {E A : Type 0} where
  -- The run of a call that does not fault.
  pub yielded :
      (o : Option (A × World E)) (P : A → World E → Type 0)
      → Yields P o
      → (r : A × World E) × (o ≡ some r)
  yielded none P h = absurd h
  yielded (some r) P h = (r, refl)
