-- ===== src/Format/RoundTrip.antt =====
-- The structures of core.h and log.c, written to bytes and read back.
use scsiswap.Base.{
  ℕ, zero, suc, ◌+◌, ◌<◌, ◌≡◌, refl, ap, ◌∙◌, arith, Bytes, [], ◌∷◌, ◌++◌, length, take, drop,
  slice, le_bytes, of_le, of_le-le_bytes_four, of_le-le_bytes_eight, take-append, drop-append,
}
use mathlib.Core.Path.{subst}
use scsiswap.Format.{Table, table_prefix, table_bytes, table_of}

-- The fields of a table are in the range of their C types.
pub record FitsTable (t : Table) : Type 0 where
  pub src_sec : t.src_sec < 18446744073709551616
  pub swap_sec : t.swap_sec < 18446744073709551616
  pub sec_size : t.sec_size < 4294967296
  pub retrys : t.retrys < 4294967296
  pub index : t.index < 4294967296
  pub reserverd : length t.reserverd ≡ 24
  pub checksum : t.checksum < 4294967296
  pub save_sec : t.save_sec < 18446744073709551616

pub take_whole : (n : ℕ) (xs ys : Bytes) → length xs ≡ n → take n (xs ++ ys) ≡ xs
take_whole n xs ys h = subst (λ k. take k (xs ++ ys) ≡ xs) h (take-append xs ys)

drop_whole : (n : ℕ) (xs ys : Bytes) → length xs ≡ n → drop n (xs ++ ys) ≡ ys
drop_whole n xs ys h = subst (λ k. drop k (xs ++ ys) ≡ ys) h (drop-append xs ys)

pub drop_beyond : (n m : ℕ) (xs ys : Bytes) → n ≡ length xs + m → drop n (xs ++ ys) ≡ drop m ys
unfolding drop
drop_beyond n m [] ys h = ap (λ k. drop k ys) (omega arith)
drop_beyond zero m (x ∷ xs) ys h = absurd (omega arith)
drop_beyond (suc n) m (x ∷ xs) ys h = drop_beyond n m xs ys (omega arith)

-- The bytes behind the reserved words.
abbrev table_tail : Table → Bytes
table_tail t = le_bytes 4 t.checksum ++ le_bytes 8 t.save_sec

reserved_back : (t : Table) → FitsTable t → slice (table_bytes t) 28 24 ≡ t.reserverd
unfolding slice take drop table_bytes table_prefix le_bytes of_le
reserved_back t h = take_whole 24 t.reserverd _ h.reserverd

checksum_back : (t : Table) → FitsTable t → of_le (slice (table_bytes t) 52 4) ≡ t.checksum
unfolding slice take drop table_bytes table_prefix le_bytes of_le
checksum_back t h =
    ap (λ rest. of_le (take 4 rest)) (drop_whole 24 t.reserverd (table_tail t) h.reserverd)
    ∙ of_le-le_bytes_four t.checksum h.checksum

save_back : (t : Table) → FitsTable t → of_le (slice (table_bytes t) 56 8) ≡ t.save_sec
unfolding slice take drop table_bytes table_prefix le_bytes of_le
save_back t h =
    ap (λ rest. of_le (take 8 rest))
      (drop_beyond 28 4 t.reserverd (table_tail t) (omega (arith, h.reserverd)))
    ∙ of_le-le_bytes_eight t.save_sec h.save_sec

words_back :
    (t : Table)
    → FitsTable t
    → (of_le (slice (table_bytes t) 0 8) ≡ t.src_sec)
      × (of_le (slice (table_bytes t) 8 8) ≡ t.swap_sec)
      × (of_le (slice (table_bytes t) 16 4) ≡ t.sec_size)
      × (of_le (slice (table_bytes t) 20 4) ≡ t.retrys)
      × (of_le (slice (table_bytes t) 24 4) ≡ t.index)
unfolding slice take drop table_bytes table_prefix le_bytes of_le
words_back t h = (
  of_le-le_bytes_eight t.src_sec h.src_sec,
  of_le-le_bytes_eight t.swap_sec h.swap_sec,
  of_le-le_bytes_four t.sec_size h.sec_size,
  of_le-le_bytes_four t.retrys h.retrys,
  of_le-le_bytes_four t.index h.index,
)

-- A table entry that is written to a sector as 64 bytes is read back as it was; its words are in
-- the range of their types, and the reserved words have their 24 bytes.
pub table_of-table_bytes : (t : Table) → FitsTable t → table_of (table_bytes t) ≡ t
unfolding table_of
table_of-table_bytes t h =
    let words = words_back t h in
    rw
      (
        words.0,
        words.1,
        words.2,
        words.3,
        words.4,
        reserved_back t h,
        checksum_back t h,
        save_back t h,
      )
      refl
