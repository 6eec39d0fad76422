-- ===== src/Crc32/Equivalence.antt =====
-- The table of crc32.c and its unrolled loop compute the bitwise CRC-32.
use scsiswap.Base.{
  false, List, length, sym, ℕ, zero, suc, ◌+◌, ◌*◌, ◌/◌, ◌%◌, ◌^◌, ◌<◌, bit_xor, ◌≡◌, refl, ap, ◌∙◌,
  sym, Bool, true, [], ◌∷◌, Bytes, IsBytes, get_or, ◌==◌, ==_iff, arith, ◌&&◌,
}
use native.Mathlib.Decide.{ℕ_discrete}
use native.Mathlib.Nat.{mod-lt, one-le-pow, pow-suc}
use mathlib.Core.Path.{◌≡⟨◌⟩◌, ◌∎, ap₂}
use scsiswap.Base.Bits.{xor_fields, xor_assoc, xor_comm, xor_lt, xor_zero, zero_xor, and_byte}
use mathlib.Core.Bool.{true≢false}
use scsiswap.Crc32.{crc32_table, do_one, do_rest, do_blocks, swap_crc32}
use scsiswap.Crc32.Reference.{
  shift_bit, shift_bits, reference_byte, reference_byte_lem, reference_bytes, crc32_reference,
}

split_at : (n p : ℕ) → p ≡ p / 2 ^ n * 2 ^ n + p % 2 ^ n
split_at n p = grind arith

-- Adding a polynomial `p` under the induction hypothesis of the next lemma.
shift_bits_xor :
    (n q r p : ℕ)
    → r < 2 ^ n
    → ((q' r' : ℕ) → r' < 2 ^ n → shift_bits n (q' * 2 ^ n + r') ≡ bit_xor q' (shift_bits n r'))
    → shift_bits n (bit_xor (q * 2 ^ n + r) p) ≡ bit_xor q (shift_bits n (bit_xor r p))
shift_bits_xor n q r p h ih =
    shift_bits n (bit_xor (q * 2 ^ n + r) p)
    ≡⟨ ap (λ t. shift_bits n (bit_xor (q * 2 ^ n + r) t)) (split_at n p) ⟩
      shift_bits n (bit_xor (q * 2 ^ n + r) (p1 * 2 ^ n + p0))
    ≡⟨ ap (shift_bits n) (xor_fields n q r p1 p0 h low) ⟩
      shift_bits n (bit_xor q p1 * 2 ^ n + bit_xor r p0)
    ≡⟨ ih (bit_xor q p1) (bit_xor r p0) fits ⟩ bit_xor (bit_xor q p1) (shift_bits n (bit_xor r p0))
    ≡⟨ xor_assoc q p1 _ ⟩ bit_xor q (bit_xor p1 (shift_bits n (bit_xor r p0)))
    ≡⟨ ap (bit_xor q) (sym (ih p1 (bit_xor r p0) fits)) ⟩
      bit_xor q (shift_bits n (p1 * 2 ^ n + bit_xor r p0))
    ≡⟨ ap (λ t. bit_xor q (shift_bits n (t * 2 ^ n + bit_xor r p0))) (sym (zero_xor p1)) ⟩
      bit_xor q (shift_bits n (bit_xor 0 p1 * 2 ^ n + bit_xor r p0))
    ≡⟨ ap (λ t. bit_xor q (shift_bits n t)) (sym (xor_fields n 0 r p1 p0 h low)) ⟩
      bit_xor q (shift_bits n (bit_xor (0 * 2 ^ n + r) (p1 * 2 ^ n + p0)))
    ≡⟨ ap₂ (λ s t. bit_xor q (shift_bits n (bit_xor s t))) plain (sym (split_at n p)) ⟩
      bit_xor q (shift_bits n (bit_xor r p)) ∎
  where
    p1 : ℕ
    p1 = p / 2 ^ n

    p0 : ℕ
    p0 = p % 2 ^ n

    low : p0 < 2 ^ n
    low = mod-lt p (one-le-pow n 2 (omega arith))

    fits : bit_xor r p0 < 2 ^ n
    fits = xor_lt n r p0 h low

    plain : 0 * 2 ^ n + r ≡ r
    plain = omega arith

shift_bit_even : (r : ℕ) → r % 2 ≡ 0 → shift_bit r ≡ r / 2
unfolding shift_bit
shift_bit_even r h = ground arith

shift_bit_odd : (r : ℕ) → r % 2 ≡ 1 → shift_bit r ≡ bit_xor (r / 2) 0xedb88320
unfolding shift_bit
shift_bit_odd r h = ground arith

module _ (n q r : ℕ) where
  double : q * 2 ^ suc n ≡ 2 * (q * 2 ^ n)
  double = omega (arith, ap (λ (t : ℕ). q * t) (pow-suc 2 n))

  halved : (q * 2 ^ suc n + r) / 2 ≡ q * 2 ^ n + r / 2
  halved = omega (arith, double)

  parity : (q * 2 ^ suc n + r) % 2 ≡ r % 2
  parity = omega (arith, double)

-- The high part of a register passes through `n` single-bit steps unchanged.
shift_bits_fields :
    (n q r : ℕ) → r < 2 ^ n → shift_bits n (q * 2 ^ n + r) ≡ bit_xor q (shift_bits n r)
unfolding shift_bits
shift_bits_fields zero q zero h = rw (xor_zero q) (omega arith)
shift_bits_fields zero q (suc r) h = absurd (omega arith)
shift_bits_fields (suc n) q r h = elim (ℕ_discrete (r % 2) 0) [
  | yes even ↦
      rw
        (
          shift_bit_even (q * 2 ^ suc n + r) (parity n q r ∙ even),
          shift_bit_even r even,
          halved n q r,
        )
        (shift_bits_fields n q (r / 2) half_lt)
  | no odd ↦
      rw
        (
          shift_bit_odd (q * 2 ^ suc n + r) (parity n q r ∙ omega arith),
          shift_bit_odd r (omega arith),
          halved n q r,
        )
        (shift_bits_xor n q (r / 2) 0xedb88320 half_lt (shift_bits_fields n))
]
  where
    half_lt : r / 2 < 2 ^ n
    half_lt = omega (arith, pow-suc 2 n)

-- The entries of a list from number `i` on are the shifts of their numbers.
entries_agree : List ℕ → ℕ → Bool
entries_agree [] i = true
entries_agree (entry ∷ entries) i = (entry == shift_bits 8 i) && entries_agree entries (i + 1)

both_true : (b c : Bool) → (b && c) ≡ true → (b ≡ true) × (c ≡ true)
both_true true c h = (refl, h)
both_true false c h = absurd (true≢false (sym h))

entries_agree_at :
    (entries : List ℕ) (i j : ℕ)
    → entries_agree entries i ≡ true
    → j < length entries
    → get_or entries j 0 ≡ shift_bits 8 (i + j)
unfolding entries_agree
entries_agree_at [] i j h lt = absurd (omega arith)
entries_agree_at (entry ∷ entries) i zero h lt =
    let here = both_true (entry == shift_bits 8 i) (entries_agree entries (i + 1)) h in
    (==_iff entry (shift_bits 8 i)).0 here.0 ∙ ap (shift_bits 8) (omega arith)
entries_agree_at (entry ∷ entries) i (suc j) h lt =
    let rest = both_true (entry == shift_bits 8 i) (entries_agree entries (i + 1)) h in
    entries_agree_at entries (i + 1) j rest.1 (omega (arith, lt)) ∙ ap (shift_bits 8) (omega arith)

table_agrees : entries_agree crc32_table 0 ≡ true
unfolding entries_agree crc32_table shift_bits shift_bit
table_agrees = refl

table_size : length crc32_table ≡ 256
unfolding crc32_table
table_size = refl

table_lem : (x : ℕ) → x < 256 → get_or crc32_table x 0 ≡ shift_bits 8 x
table_lem x h =
    entries_agree_at crc32_table 0 x table_agrees (rw table_size h)
    ∙ ap (shift_bits 8) (omega arith)

-- Adding a byte leaves the upper bits of the register.
xor_byte_high : (crc b : ℕ) → b < 256 → bit_xor crc b / 256 ≡ crc / 256
xor_byte_high crc b h = omega (
  arith,
  xor_fields 8 (crc / 256) (crc % 256) 0 b (omega arith) h,
  xor_lt 8 (crc % 256) b (omega arith) h,
  xor_zero (crc / 256),
  parts,
)
  where
    whole : crc ≡ crc / 256 * 2 ^ 8 + crc % 256
    whole = omega arith

    byte : b ≡ 0 * 2 ^ 8 + b
    byte = omega arith

    parts : bit_xor crc b ≡ bit_xor (crc / 256 * 2 ^ 8 + crc % 256) (0 * 2 ^ 8 + b)
    parts = ap₂ bit_xor whole byte

shift_bits_byte : (x : ℕ) → shift_bits 8 x ≡ bit_xor (shift_bits 8 (x % 256)) (x / 256)
shift_bits_byte x =
    shift_bits 8 x
    ≡⟨ ap (shift_bits 8) split ⟩ shift_bits 8 (x / 256 * 2 ^ 8 + x % 256)
    ≡⟨ shift_bits_fields 8 (x / 256) (x % 256) (omega arith) ⟩
      bit_xor (x / 256) (shift_bits 8 (x % 256))
    ≡⟨ xor_comm _ _ ⟩ bit_xor (shift_bits 8 (x % 256)) (x / 256) ∎
  where
    split : x ≡ x / 256 * 2 ^ 8 + x % 256
    split = omega arith

-- One `DO1` is eight single-bit steps.
do_one-eq-reference : (crc b : ℕ) → b < 256 → do_one crc b ≡ reference_byte crc b
do_one-eq-reference crc b h =
    unfold do_one in
    (rw (and_byte (bit_xor crc b), table_lem (bit_xor crc b % 256) (omega arith))
      (ap (bit_xor (shift_bits 8 (bit_xor crc b % 256))) (sym (xor_byte_high crc b h))
        ∙ sym (shift_bits_byte (bit_xor crc b))
        ∙ sym (reference_byte_lem crc b)))

do_rest-eq-reference : (crc : ℕ) (bs : Bytes) → IsBytes bs → do_rest crc bs ≡ reference_bytes crc bs
unfolding do_rest reference_bytes
do_rest-eq-reference crc [] h = refl
do_rest-eq-reference crc (b ∷ bs) h =
    ap (λ t. do_rest t bs) (do_one-eq-reference crc b h.0)
    ∙ do_rest-eq-reference (reference_byte crc b) bs h.1

-- The unrolled loop handles the bytes in the same order as the plain one.
pub do_blocks-eq-rest : (bs : Bytes) (crc : ℕ) → do_blocks crc bs ≡ do_rest crc bs
unfolding do_blocks do_rest
do_blocks-eq-rest (a ∷ b ∷ c ∷ d ∷ e ∷ f ∷ g ∷ h ∷ bs) crc =
    do_blocks-eq-rest bs
      (do_one (do_one (do_one (do_one (do_one (do_one (do_one (do_one crc a) b) c) d) e) f) g) h)
do_blocks-eq-rest bs crc = refl

-- For any start value and any bytes `swap_crc32`, by table and eight bytes at a time, returns the
-- CRC-32 computed bit by bit.
pub swap_crc32-eq-reference :
    (crc : ℕ) (bs : Bytes) → IsBytes bs → swap_crc32 crc bs ≡ crc32_reference crc bs
swap_crc32-eq-reference crc bs h =
    unfold swap_crc32 crc32_reference in
    ap (λ t. bit_xor t 0xffffffff)
      (do_blocks-eq-rest bs (bit_xor crc 0xffffffff)
        ∙ do_rest-eq-reference (bit_xor crc 0xffffffff) bs h)
