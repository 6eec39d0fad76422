-- ===== src/Crc32/Reference.antt =====
-- The CRC-32 of the reflected polynomial 0xedb88320, bit by bit, as a reference for crc32.c.
use scsiswap.Base.{◌≡◌, refl, ℕ, zero, suc, ◌/◌, ◌%◌, bit_xor, ◌∷◌, [], Bytes, ◌==◌, if◌then◌else◌}

-- One bit: shift right, and add the polynomial if a one fell out.
unfoldable pub shift_bit : ℕ → ℕ
shift_bit r = if r % 2 == 0 then r / 2 else bit_xor (r / 2) 0xedb88320

unfoldable pub shift_bits : ℕ → ℕ → ℕ
shift_bits zero r = r
shift_bits (suc n) r = shift_bits n (shift_bit r)

-- One byte, added to the low end of the register.
unfoldable pub reference_byte : ℕ → ℕ → ℕ
reference_byte crc b = shift_bits 8 (bit_xor crc b)

pub reference_byte_lem : (crc b : ℕ) → reference_byte crc b ≡ shift_bits 8 (bit_xor crc b)
unfolding reference_byte
reference_byte_lem crc b = refl

unfoldable pub reference_bytes : ℕ → Bytes → ℕ
reference_bytes crc [] = crc
reference_bytes crc (b ∷ bs) = reference_bytes (reference_byte crc b) bs

unfoldable pub crc32_reference : ℕ → Bytes → ℕ
crc32_reference crc bs = bit_xor (reference_bytes (bit_xor crc 0xffffffff) bs) 0xffffffff
