-- ===== src/Core/Flush/Slots.antt =====
-- core.c: the eight slots of a sector of tables.
use scsiswap.Crc32.{swap_crc32}
use scsiswap.Format.{Table, table_bytes, table_of, table_prefix}
use scsiswap.Format.RoundTrip.{take_whole, FitsTable, table_of-table_bytes}
use scsiswap.Core.Flush.{table_checksum}
use scsiswap.Base.{
  Bool-cases, false, ltb, ltb→lt, of_le, refl, suc, zero, ◌∷◌, ◌≤◌, Bytes, ap, arith, drop, inl,
  inr, le_bytes, length, length-append, min, overwrite, replicate, slice, slice-overwrite,
  slice-overwrite_after, slice-overwrite_before, sym, take, ℕ, ◌*◌, ◌++◌, ◌+◌, ◌-◌, ◌<◌, ◌∙◌, ◌≡◌,
  ◌≢◌,
}

-- The table in a slot, and the sector with another one there.
abbrev pub table_in : Bytes → ℕ → Table
table_in buffer j = table_of (slice buffer (j * 64) 64)

abbrev pub with_slot : Bytes → ℕ → Table → Bytes
with_slot buffer i t = overwrite buffer (i * 64) (table_bytes t)

prefix-length : (t : Table) → FitsTable t → length (table_prefix t) ≡ 52
unfolding table_prefix le_bytes
prefix-length t f = omega (arith, f.reserverd)

length-table_bytes : (t : Table) → FitsTable t → length (table_bytes t) ≡ 64
unfolding table_bytes le_bytes
length-table_bytes t f =
    length-append (table_prefix t) (le_bytes 4 t.checksum ++ le_bytes 8 t.save_sec)
    ∙ ap (λ n. n + 12) (prefix-length t f)

module _ (buffer : Bytes) (sized : length buffer ≡ 512) (i : ℕ) (small : i < 8) (t : Table)
    (f : FitsTable t) where
  pub table_in-with_slot : table_in (with_slot buffer i t) i ≡ t
  table_in-with_slot =
      ap table_of (
        ap (slice (with_slot buffer i t) (i * 64)) (sym (length-table_bytes t f))
        ∙ slice-overwrite buffer (i * 64) (table_bytes t) (omega (arith, length-table_bytes t f)))
      ∙ table_of-table_bytes t f

  not_below : (j : ℕ) → j ≢ i → ltb i j ≡ false → j * 64 + 64 ≤ i * 64
  not_below j ne above = ground arith

  pub table_in-with_slot_other :
      (j : ℕ) → j ≢ i → table_in (with_slot buffer i t) j ≡ table_in buffer j
  table_in-with_slot_other j ne = elim (Bool-cases (ltb i j)) [
    | inl below ↦ ap table_of (
        slice-overwrite_after buffer (i * 64) (j * 64) 64 (table_bytes t)
          (let lt = ltb→lt i j below in omega (arith, length-table_bytes t f)))
    | inr above ↦
        ap table_of (
          slice-overwrite_before buffer (i * 64) (j * 64) 64 (table_bytes t) (not_below j ne above))
  ]

-- A sector of zeros holds no table.
abbrev pub zeros : ℕ → Bytes
zeros n = replicate n 0

take-zeros : (n m : ℕ) → take n (zeros m) ≡ zeros (min n m)
unfolding take replicate
take-zeros zero m = ap zeros {x = 0} {y = min 0 m} (omega arith)
take-zeros (suc n) zero = ap zeros {x = 0} {y = min (suc n) 0} (omega arith)
take-zeros (suc n) (suc m) =
    ap (λ l. 0 ∷ l) (take-zeros n m)
    ∙ ap zeros {x = suc (min n m)} {y = min (suc n) (suc m)} (omega arith)

drop-zeros : (n m : ℕ) → drop n (zeros m) ≡ zeros (m - n)
unfolding drop replicate
drop-zeros zero m = ap zeros {x = m} {y = m - 0} (omega arith)
drop-zeros (suc n) zero = ap zeros {x = 0} {y = 0 - suc n} (omega arith)
drop-zeros (suc n) (suc m) = drop-zeros n m ∙ ap zeros {x = m - n} {y = suc m - suc n} (omega arith)

slice-zeros : (m i n : ℕ) → slice (zeros m) i n ≡ zeros (min n (m - i))
unfolding slice
slice-zeros m i n = ap (take n) (drop-zeros i m) ∙ take-zeros n (m - i)

of_le-zeros : (n : ℕ) → of_le (zeros n) ≡ 0
unfolding of_le replicate
of_le-zeros zero = refl
of_le-zeros (suc n) = omega (arith, of_le-zeros n)

pub table_in-zeros : (n j : ℕ) → (table_in (zeros n) j).sec_size ≡ 0
unfolding table_of
table_in-zeros n j =
    ap (λ l. of_le (slice l 16 4)) (slice-zeros n (j * 64) 64)
    ∙ ap of_le (slice-zeros (min 64 (n - j * 64)) 16 4)
    ∙ of_le-zeros (min 4 (min 64 (n - j * 64) - 16))

-- The checksum of a table covers neither itself nor the save sector.
take_prefix : (t : Table) → FitsTable t → take 52 (table_bytes t) ≡ table_prefix t
unfolding table_bytes
take_prefix t f = take_whole 52 (table_prefix t) _ (prefix-length t f)

pub table_checksum_same :
    (t u : Table)
    → FitsTable t
    → FitsTable u
    → table_prefix t ≡ table_prefix u
    → table_checksum t ≡ table_checksum u
unfolding table_checksum
table_checksum_same t u f g same =
    ap (swap_crc32 0xffffffff) (take_prefix t f ∙ same ∙ sym (take_prefix u g))

pub table_checksum_save :
    (t : Table) (s : ℕ)
    → FitsTable t
    → FitsTable (record t { save_sec = s })
    → table_checksum (record t { save_sec = s }) ≡ table_checksum t
unfolding table_prefix
table_checksum_save t s f g = table_checksum_same (record t { save_sec = s }) t g f refl
