-- ===== src/Crc32/Bounds.antt =====
-- crc32.c: the checksum is a 32-bit word.
use scsiswap.Crc32.Equivalence.{do_blocks-eq-rest}
use scsiswap.Crc32.{crc32_table, do_blocks, do_one, do_rest, swap_crc32}
use scsiswap.Base.{
  Bool, Bytes, List, [], arith, bit_and, bit_xor, false, get_or, ltb, refl, suc, true, zero, ℕ,
  ◌&&◌, ◌/◌, ◌<◌, ◌∷◌, ◌≡◌,
}
use scsiswap.Base.Bits.{xor_lt}

abbrev all_words : List ℕ → Bool
all_words [] = true
all_words (x ∷ xs) = ltb x 4294967296 && all_words xs

get_or-word : (xs : List ℕ) (i : ℕ) → all_words xs ≡ true → get_or xs i 0 < 4294967296
get_or-word [] i h = omega arith
get_or-word (x ∷ xs) zero h = ground (arith, h)
get_or-word (x ∷ xs) (suc i) h = get_or-word xs i (both_true (ltb x 4294967296) (all_words xs) h)
  where
    both_true : (a b : Bool) → (a && b) ≡ true → b ≡ true
    both_true true b e = e
    both_true false b e = cc

table_words : all_words crc32_table ≡ true
unfolding crc32_table
table_words = refl

do_one-lt : (crc b : ℕ) → crc < 4294967296 → do_one crc b < 4294967296
unfolding do_one
do_one-lt crc b h =
    xor_lt 32 (get_or crc32_table (bit_and (bit_xor crc b) 0xff) 0) (crc / 256)
      (get_or-word crc32_table (bit_and (bit_xor crc b) 0xff) table_words) (omega (arith, h))

do_rest-lt : (bs : Bytes) (crc : ℕ) → crc < 4294967296 → do_rest crc bs < 4294967296
unfolding do_rest
do_rest-lt [] crc h = h
do_rest-lt (b ∷ bs) crc h = do_rest-lt bs (do_one crc b) (do_one-lt crc b h)

-- The checksum of any bytes is below 2^32, where the start value is.
pub swap_crc32-lt : (crc : ℕ) (bs : Bytes) → crc < 4294967296 → swap_crc32 crc bs < 4294967296
unfolding swap_crc32
swap_crc32-lt crc bs h =
    xor_lt 32 (do_blocks (bit_xor crc 0xffffffff) bs) 0xffffffff
      (rw (do_blocks-eq-rest bs (bit_xor crc 0xffffffff))
        (do_rest-lt bs (bit_xor crc 0xffffffff) (xor_lt 32 crc 0xffffffff h (omega arith))))
      (omega arith)
