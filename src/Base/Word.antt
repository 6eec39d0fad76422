-- ===== src/Base/Word.antt =====
-- Words of a fixed number of bytes as the machine keeps them (little endian), and the two
-- readings of a 32-bit pattern.
use Prim.Native.Nat.{ℕ, zero, suc, ◌+◌, ◌*◌, ◌/◌, ◌%◌, ◌<◌}
use mathlib.Core.Path.{◌≡◌, refl, ap}
use mathlib.Core.List.{[], ◌∷◌, ◌++◌}
use native.Mathlib.Omega.{arith}
use scsiswap.Base.Tests.{ltb, if◌then◌else◌}
use scsiswap.Base.Lists.{Bytes, length}

abbrev pub u8 : ℕ → ℕ
u8 x = x % 256

abbrev pub u16 : ℕ → ℕ
u16 x = x % 65536

abbrev pub u32 : ℕ → ℕ
u32 x = x % 4294967296

-- `sector_t` is 64 bits wide.
abbrev pub u64 : ℕ → ℕ
u64 x = x % 18446744073709551616

-- -1 converted to `sector_t`, and to a 32-bit pattern.
abbrev pub minus_one_64 : ℕ
minus_one_64 = 18446744073709551615

abbrev pub minus_one_32 : ℕ
minus_one_32 = 4294967295

-- An `int` pattern converted to `sector_t`.
abbrev pub extend : ℕ → ℕ
extend num = if ltb num 2147483648 then num else num + 18446744069414584320

-- Every item is a byte.
abbrev pub IsBytes : Bytes → Type 0
IsBytes [] = Unit
IsBytes (b ∷ bs) = (b < 256) × IsBytes bs

-- The `n` bytes of a word in memory.
unfoldable pub le_bytes : ℕ → ℕ → Bytes
le_bytes zero x = []
le_bytes (suc n) x = (x % 256) ∷ le_bytes n (x / 256)

unfoldable pub of_le : Bytes → ℕ
of_le [] = 0
of_le (b ∷ bs) = b + 256 * of_le bs

pub le_bytes-IsBytes : (n x : ℕ) → IsBytes (le_bytes n x)
unfolding le_bytes
le_bytes-IsBytes zero x = tt
le_bytes-IsBytes (suc n) x = (omega arith, le_bytes-IsBytes n (x / 256))

pub append-IsBytes : (xs ys : Bytes) → IsBytes xs → IsBytes ys → IsBytes (xs ++ ys)
append-IsBytes [] ys h k = k
append-IsBytes (x ∷ xs) ys h k = (h.0, append-IsBytes xs ys h.1 k)

pub length-le_bytes : (n x : ℕ) → length (le_bytes n x) ≡ n
unfolding le_bytes
length-le_bytes zero x = refl
length-le_bytes (suc n) x = ap suc (length-le_bytes n (x / 256))

pub of_le-le_bytes_two : (x : ℕ) → x < 65536 → of_le (le_bytes 2 x) ≡ x
unfolding of_le le_bytes
of_le-le_bytes_two x h = omega arith

pub of_le-le_bytes_four : (x : ℕ) → x < 4294967296 → of_le (le_bytes 4 x) ≡ x
unfolding of_le le_bytes
of_le-le_bytes_four x h = omega arith

pub of_le-le_bytes_eight : (x : ℕ) → x < 18446744073709551616 → of_le (le_bytes 8 x) ≡ x
unfolding of_le le_bytes
of_le-le_bytes_eight x h = omega arith
