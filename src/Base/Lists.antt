-- ===== src/Base/Lists.antt =====
-- Lists measured and indexed by native numbers, under the library's names, and copies between
-- buffers.
use Prim.Native.Nat.{ℕ, zero, suc, ◌+◌, ◌-◌, ◌≤◌, ◌<◌, min}
use mathlib.Core.Path.{◌≡◌, refl, ap}
use mathlib.Core.Logic.{◌≢◌}
use mathlib.Core.List.{List, [], ◌∷◌, ◌++◌}
use mathlib.Core.Option.{Option, none, some}
use native.Mathlib.Omega.{arith}

abbrev pub Bytes : Type 0
Bytes = List ℕ

module _ {ℓ} {A : Type ℓ} where
  abbrev pub length : List A → ℕ
  length [] = 0
  length (x ∷ xs) = suc (length xs)

  abbrev pub get_elem? : List A → ℕ → Option A
  get_elem? [] i = none
  get_elem? (x ∷ xs) zero = some x
  get_elem? (x ∷ xs) (suc i) = get_elem? xs i

  abbrev pub get_or : List A → ℕ → A → A
  get_or [] i d = d
  get_or (x ∷ xs) zero d = x
  get_or (x ∷ xs) (suc i) d = get_or xs i d

  -- A write out of bounds changes nothing.
  abbrev pub set : List A → ℕ → A → List A
  set [] i v = []
  set (x ∷ xs) zero v = v ∷ xs
  set (x ∷ xs) (suc i) v = x ∷ set xs i v

  unfoldable pub take : ℕ → List A → List A
  take zero xs = []
  take (suc n) [] = []
  take (suc n) (x ∷ xs) = x ∷ take n xs

  unfoldable pub drop : ℕ → List A → List A
  drop zero xs = xs
  drop (suc n) [] = []
  drop (suc n) (x ∷ xs) = drop n xs

  unfoldable pub replicate : ℕ → A → List A
  replicate zero a = []
  replicate (suc n) a = a ∷ replicate n a

  -- `memcpy(dst + at, src, length src)`, as far as `dst` goes.
  unfoldable pub overwrite : List A → ℕ → List A → List A
  overwrite [] at src = []
  overwrite (x ∷ dst) zero [] = x ∷ dst
  overwrite (x ∷ dst) zero (s ∷ src) = s ∷ overwrite dst zero src
  overwrite (x ∷ dst) (suc at) src = x ∷ overwrite dst at src

module _ {ℓ} {A : Type ℓ} where
  -- The `n` items of a buffer from offset `at` on.
  unfoldable pub slice : List A → ℕ → ℕ → List A
  unfolding take drop
  slice xs at n = take n (drop at xs)

  pub length-append : (xs ys : List A) → length (xs ++ ys) ≡ length xs + length ys
  length-append [] ys = omega arith
  length-append (x ∷ xs) ys = omega (arith, length-append xs ys)

  pub length-set : (xs : List A) (i : ℕ) (v : A) → length (set xs i v) ≡ length xs
  length-set [] i v = refl
  length-set (x ∷ xs) zero v = refl
  length-set (x ∷ xs) (suc i) v = ap suc (length-set xs i v)

  pub get_or-set_self :
      (xs : List A) (i : ℕ) (v d : A) → i < length xs → get_or (set xs i v) i d ≡ v
  get_or-set_self [] i v d h = absurd (omega arith)
  get_or-set_self (x ∷ xs) zero v d h = refl
  get_or-set_self (x ∷ xs) (suc i) v d h = get_or-set_self xs i v d (omega arith)

  pub get_or-set_ne :
      (xs : List A) (i j : ℕ) (v d : A) → i ≢ j → get_or (set xs i v) j d ≡ get_or xs j d
  get_or-set_ne [] i j v d h = refl
  get_or-set_ne (x ∷ xs) zero zero v d h = absurd (h refl)
  get_or-set_ne (x ∷ xs) zero (suc j) v d h = refl
  get_or-set_ne (x ∷ xs) (suc i) zero v d h = refl
  get_or-set_ne (x ∷ xs) (suc i) (suc j) v d h = get_or-set_ne xs i j v d (λ e. h (ap suc e))

  pub length-take : (n : ℕ) (xs : List A) → length (take n xs) ≡ min n (length xs)
  unfolding take
  length-take zero xs = omega arith
  length-take (suc n) [] = omega arith
  length-take (suc n) (x ∷ xs) = omega (arith, length-take n xs)

  pub length-drop : (n : ℕ) (xs : List A) → length (drop n xs) ≡ length xs - n
  unfolding drop
  length-drop zero xs = omega arith
  length-drop (suc n) [] = omega arith
  length-drop (suc n) (x ∷ xs) = omega (arith, length-drop n xs)

  pub length-slice : (xs : List A) (i n : ℕ) → length (slice xs i n) ≡ min n (length xs - i)
  unfolding slice
  length-slice xs i n = omega (arith, length-take n (drop i xs), length-drop i xs)

  pub length-replicate : (n : ℕ) (a : A) → length (replicate n a) ≡ n
  unfolding replicate
  length-replicate zero a = refl
  length-replicate (suc n) a = ap suc (length-replicate n a)

  pub length-overwrite :
      (dst : List A) (i : ℕ) (src : List A) → length (overwrite dst i src) ≡ length dst
  unfolding overwrite
  length-overwrite [] i src = refl
  length-overwrite (x ∷ dst) zero [] = refl
  length-overwrite (x ∷ dst) zero (s ∷ src) = ap suc (length-overwrite dst zero src)
  length-overwrite (x ∷ dst) (suc i) src = ap suc (length-overwrite dst i src)

  pub take-overwrite :
      (dst src : List A)
      → length src ≤ length dst
      → take (length src) (overwrite dst zero src) ≡ src
  unfolding take overwrite
  take-overwrite [] [] h = refl
  take-overwrite [] (s ∷ src) h = absurd (omega arith)
  take-overwrite (x ∷ dst) [] h = refl
  take-overwrite (x ∷ dst) (s ∷ src) h = ap (λ k. s ∷ k) (take-overwrite dst src (omega arith))

  pub take-append : (xs ys : List A) → take (length xs) (xs ++ ys) ≡ xs
  unfolding take
  take-append [] ys = refl
  take-append (x ∷ xs) ys = ap (λ k. x ∷ k) (take-append xs ys)

  pub drop-append : (xs ys : List A) → drop (length xs) (xs ++ ys) ≡ ys
  unfolding drop
  drop-append [] ys = refl
  drop-append (x ∷ xs) ys = drop-append xs ys

module _ {ℓ} {A : Type ℓ} where
  -- What was copied in is read back at the same place.
  pub slice-overwrite :
      (dst : List A) (i : ℕ) (src : List A)
      → i + length src ≤ length dst
      → slice (overwrite dst i src) i (length src) ≡ src
  unfolding slice drop overwrite
  slice-overwrite [] zero src h = take-overwrite [] src (omega arith)
  slice-overwrite [] (suc i) src h = absurd (omega arith)
  slice-overwrite (x ∷ dst) zero src h = take-overwrite (x ∷ dst) src (omega arith)
  slice-overwrite (x ∷ dst) (suc i) src h = slice-overwrite dst i src (omega arith)

  -- Bytes outside the copied range stay.
  pub get_or-overwrite_before :
      (dst : List A) (i j : ℕ) (src : List A) (d : A)
      → j < i
      → get_or (overwrite dst i src) j d ≡ get_or dst j d
  unfolding overwrite
  get_or-overwrite_before [] i j src d h = refl
  get_or-overwrite_before (x ∷ dst) zero j src d h = absurd (omega arith)
  get_or-overwrite_before (x ∷ dst) (suc i) zero src d h = refl
  get_or-overwrite_before (x ∷ dst) (suc i) (suc j) src d h =
      get_or-overwrite_before dst i j src d (omega arith)

  pub get_or-overwrite_after :
      (dst : List A) (i j : ℕ) (src : List A) (d : A)
      → i + length src ≤ j
      → get_or (overwrite dst i src) j d ≡ get_or dst j d
  unfolding overwrite
  get_or-overwrite_after [] i j src d h = refl
  get_or-overwrite_after (x ∷ dst) zero j [] d h = refl
  get_or-overwrite_after (x ∷ dst) zero zero (s ∷ src) d h = absurd (omega arith)
  get_or-overwrite_after (x ∷ dst) zero (suc j) (s ∷ src) d h =
      get_or-overwrite_after dst zero j src d (omega arith)
  get_or-overwrite_after (x ∷ dst) (suc i) zero src d h = refl
  get_or-overwrite_after (x ∷ dst) (suc i) (suc j) src d h =
      get_or-overwrite_after dst i j src d (omega arith)

module _ {ℓ} {A : Type ℓ} where
  take-overwrite_before :
      (dst : List A) (i n : ℕ) (src : List A) → n ≤ i → take n (overwrite dst i src) ≡ take n dst
  unfolding take overwrite
  take-overwrite_before [] i n src h = refl
  take-overwrite_before (x ∷ dst) zero zero src h = refl
  take-overwrite_before (x ∷ dst) zero (suc n) src h = absurd (omega arith)
  take-overwrite_before (x ∷ dst) (suc i) zero src h = refl
  take-overwrite_before (x ∷ dst) (suc i) (suc n) src h =
      ap (λ k. x ∷ k) (take-overwrite_before dst i n src (omega arith))

  drop-overwrite_after :
      (dst : List A) (i j : ℕ) (src : List A)
      → i + length src ≤ j
      → drop j (overwrite dst i src) ≡ drop j dst
  unfolding drop overwrite
  drop-overwrite_after [] i j src h = refl
  drop-overwrite_after (x ∷ dst) zero j [] h = refl
  drop-overwrite_after (x ∷ dst) zero zero (s ∷ src) h = absurd (omega arith)
  drop-overwrite_after (x ∷ dst) zero (suc j) (s ∷ src) h =
      drop-overwrite_after dst zero j src (omega arith)
  drop-overwrite_after (x ∷ dst) (suc i) zero src h = absurd (omega arith)
  drop-overwrite_after (x ∷ dst) (suc i) (suc j) src h =
      drop-overwrite_after dst i j src (omega arith)

  -- A slice before or behind the copied range stays.
  pub slice-overwrite_before :
      (dst : List A) (i j n : ℕ) (src : List A)
      → j + n ≤ i
      → slice (overwrite dst i src) j n ≡ slice dst j n
  unfolding slice drop overwrite
  slice-overwrite_before [] i j n src h = refl
  slice-overwrite_before (x ∷ dst) zero zero n src h =
      take-overwrite_before (x ∷ dst) zero n src (omega arith)
  slice-overwrite_before (x ∷ dst) zero (suc j) n src h = absurd (omega arith)
  slice-overwrite_before (x ∷ dst) (suc i) zero n src h =
      take-overwrite_before (x ∷ dst) (suc i) n src (omega arith)
  slice-overwrite_before (x ∷ dst) (suc i) (suc j) n src h =
      slice-overwrite_before dst i j n src (omega arith)

  pub slice-overwrite_after :
      (dst : List A) (i j n : ℕ) (src : List A)
      → i + length src ≤ j
      → slice (overwrite dst i src) j n ≡ slice dst j n
  unfolding slice
  slice-overwrite_after dst i j n src h = ap (take n) (drop-overwrite_after dst i j src h)
