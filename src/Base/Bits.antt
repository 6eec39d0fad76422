-- ===== src/Base/Bits.antt =====
-- Laws of exclusive or at variables, and the step of the bitwise and.
use Prim.Native.Nat.{ℕ, zero, suc, ◌+◌, ◌*◌, ◌/◌, ◌%◌, ◌^◌, ◌≤◌, ◌<◌, min, bit_and, bit_xor}
use Prim.Native.Nat.{digits, differ, bit_and-bitwise, bit_xor-bitwise}
use mathlib.Core.Path.{◌≡◌, refl, sym, ap, ◌∙◌}
use mathlib.Core.Logic.{◌≢◌}
use native.Mathlib.Decide.{ℕ_discrete}
use native.Mathlib.Nat.{pow-suc}
use native.Mathlib.Omega.{arith}

-- `digits z f n a b` combines the binary digits of `a` and `b`, with `n` as fuel. From `a` on more
-- of it changes nothing.
module _ (z : ℕ → ℕ) (f : ℕ → ℕ → ℕ) where
  spare_digit : (n a b : ℕ) → a ≤ n → digits z f (suc n) a b ≡ digits z f n a b
  spare_digit zero zero b h = refl
  spare_digit (suc n) zero b h = refl
  spare_digit zero (suc a) b h = absurd (omega arith)
  spare_digit (suc n) (suc a) b h =
      ap (λ rest. rest * 2 + f (suc a % 2) (b % 2))
        (spare_digit n (suc a / 2) (b / 2) (omega arith))

  spare_digits : (big n a b : ℕ) → a ≤ n → n ≤ big → digits z f big a b ≡ digits z f n a b
  spare_digits big n a b h le = elim (ℕ_discrete n big) [
    | yes same ↦ ap (λ k. digits z f k a b) (sym same)
    | no smaller ↦ below big le smaller
  ]
    where
      below : (big : ℕ) → n ≤ big → n ≢ big → digits z f big a b ≡ digits z f n a b
      below zero le other = absurd (omega (arith, other))
      below (suc big) le other = elim (ℕ_discrete n big) [
        | yes same ↦ rw (← same) (spare_digit n a b h)
        | no smaller ↦
            spare_digit big a b (omega (arith, other)) ∙ below big (omega (arith, other)) smaller
      ]

  lowest_digit :
      (a b : ℕ)
      → digits z f (suc a) (suc a) b
        ≡ digits z f (suc a / 2) (suc a / 2) (b / 2) * 2 + f (suc a % 2) (b % 2)
  lowest_digit a b =
      ap (λ rest. rest * 2 + f (suc a % 2) (b % 2))
        (spare_digits a (suc a / 2) (suc a / 2) (b / 2) (omega arith) (omega arith))

zero-bit_xor : (b : ℕ) → bit_xor 0 b ≡ b
zero-bit_xor b = bit_xor-bitwise 0 b

differ_lem : (a b : ℕ) → a < 2 → b < 2 → differ a b ≡ (a + b) % 2
differ_lem zero zero p q = refl
differ_lem zero (suc zero) p q = refl
differ_lem (suc zero) zero p q = refl
differ_lem (suc zero) (suc zero) p q = refl
differ_lem zero (suc (suc b)) p q = absurd (omega arith)
differ_lem (suc zero) (suc (suc b)) p q = absurd (omega arith)
differ_lem (suc (suc a)) b p q = absurd (omega arith)

-- The lowest digit of an exclusive or.
pub bit_xor_step : (a b : ℕ) → bit_xor a b ≡ bit_xor (a / 2) (b / 2) * 2 + (a % 2 + b % 2) % 2
bit_xor_step zero b = omega (arith, zero-bit_xor b, zero-bit_xor (b / 2))
bit_xor_step (suc a) b = omega (
  arith,
  bit_xor-bitwise (suc a) b,
  bit_xor-bitwise (suc a / 2) (b / 2),
  lowest_digit (λ y. y) differ a b,
  differ_lem (suc a % 2) (b % 2) (omega arith) (omega arith),
)

-- The same of an and.
and_halves : (a b : ℕ) → bit_and a b ≡ min (a % 2) (b % 2) + 2 * bit_and (a / 2) (b / 2)
and_halves (suc a) b =
    bit_and-bitwise (suc a) b
    ∙ (lowest_digit (λ _. 0) min a b ∙ omega (arith, bit_and-bitwise (suc a / 2) (b / 2)))
and_halves zero b = omega (arith, bit_and-bitwise 0 (b / 2), bit_and-bitwise 0 b)

-- Each law goes from the halves to the numbers, by a count of digits `n`.
xor_comm_fuel : (n a b : ℕ) → a ≤ n → b ≤ n → bit_xor a b ≡ bit_xor b a
xor_comm_fuel zero zero zero p q = refl
xor_comm_fuel zero (suc a) b p q = absurd (omega arith)
xor_comm_fuel zero zero (suc b) p q = absurd (omega arith)
xor_comm_fuel (suc n) a b p q = omega (
  arith,
  bit_xor_step a b,
  bit_xor_step b a,
  xor_comm_fuel n (a / 2) (b / 2) (omega arith) (omega arith),
)

pub xor_comm : (a b : ℕ) → bit_xor a b ≡ bit_xor b a
xor_comm a b = xor_comm_fuel (a + b) a b (omega arith) (omega arith)

pub xor_zero : (a : ℕ) → bit_xor a 0 ≡ a
xor_zero a = xor_comm a 0 ∙ zero-bit_xor a

pub zero_xor : (a : ℕ) → bit_xor 0 a ≡ a
zero_xor a = zero-bit_xor a

xor_self_fuel : (n a : ℕ) → a ≤ n → bit_xor a a ≡ 0
xor_self_fuel zero zero p = refl
xor_self_fuel zero (suc a) p = absurd (omega arith)
xor_self_fuel (suc n) a p = omega (arith, bit_xor_step a a, xor_self_fuel n (a / 2) (omega arith))

pub xor_self : (a : ℕ) → bit_xor a a ≡ 0
xor_self a = xor_self_fuel a a (omega arith)

half_xor : (a b : ℕ) → bit_xor a b / 2 ≡ bit_xor (a / 2) (b / 2)
half_xor a b = omega (arith, bit_xor_step a b)

xor_assoc_fuel : (n a b c : ℕ) → a + b + c ≤ n → bit_xor (bit_xor a b) c ≡ bit_xor a (bit_xor b c)
xor_assoc_fuel zero zero zero zero p = refl
xor_assoc_fuel zero zero zero (suc c) p = absurd (omega arith)
xor_assoc_fuel zero zero (suc b) c p = absurd (omega arith)
xor_assoc_fuel zero (suc a) b c p = absurd (omega arith)
xor_assoc_fuel (suc n) zero b c p = rw (zero_xor b, zero_xor (bit_xor b c)) refl
xor_assoc_fuel (suc n) (suc a) b c p = omega (
  arith,
  bit_xor_step (bit_xor (suc a) b) c,
  bit_xor_step (suc a) (bit_xor b c),
  bit_xor_step (suc a) b,
  bit_xor_step b c,
  ap (λ (t : ℕ). bit_xor t (c / 2)) (half_xor (suc a) b),
  ap (λ (t : ℕ). bit_xor (suc a / 2) t) (half_xor b c),
  xor_assoc_fuel n (suc a / 2) (b / 2) (c / 2) (omega arith),
)

pub xor_assoc : (a b c : ℕ) → bit_xor (bit_xor a b) c ≡ bit_xor a (bit_xor b c)
xor_assoc a b c = xor_assoc_fuel (a + b + c) a b c (omega arith)

-- Doing it twice undoes it.
pub xor_cancel : (a b : ℕ) → bit_xor a (bit_xor a b) ≡ b
xor_cancel a b = rw (← xor_assoc, xor_self, zero_xor) refl

next_field : (k q : ℕ) → q * 2 ^ suc k ≡ q * 2 ^ k + q * 2 ^ k
next_field k q = ap (λ (size : ℕ). q * size) (pow-suc 2 k) ∙ omega arith

-- Fields of `k` low bits are added apart from the rest.
pub xor_fields :
    (k q r s t : ℕ)
    → r < 2 ^ k
    → t < 2 ^ k
    → bit_xor (q * 2 ^ k + r) (s * 2 ^ k + t) ≡ bit_xor q s * 2 ^ k + bit_xor r t
xor_fields zero q zero s zero p h = ground arith
xor_fields zero q (suc r) s t p h = absurd (omega arith)
xor_fields zero q zero s (suc t) p h = absurd (omega arith)
xor_fields (suc k) q r s t p h = ground (
  arith,
  bit_xor_step (q * 2 ^ suc k + r) (s * 2 ^ suc k + t),
  bit_xor_step r t,
  next_field k (bit_xor q s),
  next_field k s,
  next_field k q,
  xor_fields k q (r / 2) s (t / 2) (omega (arith, pow-suc 2 k)) (omega (arith, pow-suc 2 k)),
)

pub xor_lt : (k a b : ℕ) → a < 2 ^ k → b < 2 ^ k → bit_xor a b < 2 ^ k
xor_lt zero zero zero p q = omega arith
xor_lt zero (suc a) b p q = absurd (omega arith)
xor_lt zero zero (suc b) p q = absurd (omega arith)
xor_lt (suc k) a b p q = omega (
  arith,
  pow-suc 2 k,
  bit_xor_step a b,
  xor_lt k (a / 2) (b / 2) (omega (arith, pow-suc 2 k)) (omega (arith, pow-suc 2 k)),
)

no_digits : (n a : ℕ) → a ≤ n → digits (λ _. 0) min n a 0 ≡ 0
no_digits zero zero h = refl
no_digits (suc n) zero h = refl
no_digits zero (suc a) h = absurd (omega arith)
no_digits (suc n) (suc a) h = omega (arith, no_digits n (suc a / 2) (omega arith))

-- What two masks of half the width say of one of the whole.
and_pair : (a : ℕ) → bit_and a 3 ≡ a % 4
and_pair a = omega (
  arith,
  and_halves a 3,
  and_halves (a / 2) 1,
  bit_and-bitwise (a / 2 / 2) 0,
  no_digits (a / 2 / 2) (a / 2 / 2) (omega arith),
)

and_nibble : (a : ℕ) → bit_and a 15 ≡ a % 16
and_nibble a = omega (arith, and_halves a 15, and_halves (a / 2) 7, and_pair (a / 2 / 2))

and_six : (a : ℕ) → bit_and a 63 ≡ a % 64
and_six a = omega (arith, and_halves a 63, and_halves (a / 2) 31, and_nibble (a / 2 / 2))

-- The mask of the low byte is a remainder.
pub and_byte : (a : ℕ) → bit_and a 255 ≡ a % 256
and_byte a = omega (arith, and_halves a 255, and_halves (a / 2) 127, and_six (a / 2 / 2))
