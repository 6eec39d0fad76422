-- ===== src/Core/Transfer.antt =====
-- core.c: reads and writes through the swaps. The copies are bounds-checked: one that leaves a
-- buffer is a fault.
pub mod Read
pub mod Write
pub mod Copies
pub mod Frames
pub mod Sound
pub mod Renewals
pub mod Rounds
pub mod SoundWrite
pub mod Pieces
pub mod TotalNew
pub mod Total
pub mod TotalWrite
pub mod WholePiece
pub mod FoundSwap
pub mod FoundWrite
pub mod FoundRead
pub mod ReadBack
pub mod Cover
pub mod View
pub mod ViewPiece
pub mod ViewRead
use scsiswap.Base.{
  ℕ, zero, suc, ◌+◌, ◌-◌, ◌*◌, ◌/◌, ◌%◌, min, Bool, true, false, Option, none, some, Bytes, leb,
  ltb, ◌==◌, ◌!=◌, if◌then◌else◌, replicate, overwrite, slice, length, u32, minus_one_64,
  minus_one_32,
}
use scsiswap.Kernel.{Kernel}
use scsiswap.Layout.{
  sector_size, sector_num_per_swap_block, swap_sector_align, swap_block_index, swap_block_size,
}
use scsiswap.State.{
  World, Info, Status, ok, fail, eio, may_dirty, is_ok, M, pure, oops, lift, gets, modify, deref,
  on_core, mark_dead, atomic_inc, atomic_dec, ◌>>=◌, ◌>>◌,
}
use scsiswap.Io.{hd_read_sector_retry, hd_write_sector_retry, hd_test_unit_ready}
use scsiswap.Core.Bitmap.{set_bit}
use scsiswap.Core.Flush.{swap_find_swap_info, flush_swap_info_data, flush_swap_info_table}
use scsiswap.Core.Create.{Loc, store, swap_create, swap_recreate}
use mathlib.Core.List.{◌++◌, ◌∷◌, []}

-- `n` bytes of a buffer from `at` on; bytes copied over a buffer from `at` on.
unfoldable pub copy_out : Bytes → ℕ → ℕ → Option Bytes
copy_out src at n = if leb (at + n) (length src) then some (slice src at n) else none

unfoldable pub copy_in : Bytes → ℕ → Bytes → Option Bytes
copy_in dst at src =
    if leb (at + length src) (length dst) then some (overwrite dst at src) else none

-- `get_swap_block_count(start, count)`, as the number of rounds that `for (i = 0; i < b_count; …)`
-- makes. `nlen` is an int: a pattern from 2^31 on is negative, and then `nlen / 128` is at most 0.
unfoldable pub get_swap_block_count : ℕ → ℕ → ℕ
get_swap_block_count start count =
    let nlen = u32 (start + count + (18446744073709551616 - swap_sector_align start)) in
    let size = sector_num_per_swap_block in
    if ltb nlen 2147483648
    then nlen / size + (if nlen % size == 0 then 0 else 1)
    else (let size_of_neg = 4294967296 - nlen in if ltb size_of_neg size then 1 else 0)

module _ {E : Type 0} (k : Kernel E) where
  -- `_swap_read`; `info` is not null where it is called. The buffer with the bytes copied in.
  unfoldable pub swap_read_info : Info → ℕ → ℕ → Bytes → ℕ → ℕ → M E Bytes
  unfolding copy_out copy_in
  swap_read_info info sector_start sector_count buf pos buf_size = do
    let sector_src = swap_sector_align sector_start
    let data_offset = (sector_start - sector_src) * sector_size
    let size = min (sector_count * sector_size) buf_size
    buffer ← deref info.buf
    bytes ← deref (copy_out buffer data_offset size)
    deref (copy_in buf pos bytes)

  -- `_swap_write`, on the bytes at `buf`. `sector_src` is a `u32`.
  unfoldable pub swap_write_info : Loc → Info → ℕ → ℕ → Bytes → ℕ → M E (Status × Info)
  unfolding copy_out copy_in
  swap_write_info loc info sector_start sector_count buf buf_size = do
    let sector_src = u32 (swap_sector_align sector_start)
    let data_offset = u32 ((sector_start - sector_src) * sector_size)
    let size = min (sector_count * sector_size) buf_size
    buffer ← deref info.buf
    bytes ← deref (copy_out buf 0 size)
    buffer' ← deref (copy_in buffer data_offset bytes)
    let info' = record info { buf = some buffer' }
    modify (store loc info')
    s ← lift (flush_swap_info_data k info')
    pure (if is_ok s then ok else fail, info')

  -- `swap_write`
  unfoldable pub swap_write : Loc → Info → ℕ → ℕ → Bytes → ℕ → M E (Status × Info)
  unfolding swap_write_info
  swap_write loc info sector_start sector_count buf buf_size = do
    (s, info1) ← swap_write_info loc info sector_start sector_count buf buf_size
    let again = do
      (s', info2) ← swap_recreate k loc info1
      let retry = do
        (s'', info3) ← swap_write_info loc info2 sector_start sector_count buf buf_size
        pure (if is_ok s'' then may_dirty else fail, info3)
      if is_ok s' then retry else pure (fail, info2)
    if is_ok s then pure (ok, info1) else again

  -- `swap_repair_successive_sectors`: it never repairs, and sees whether the device has died.
  unfoldable pub swap_repair_successive_sectors : World E → Status × World E
  swap_repair_successive_sectors w =
      let (result, w') = hd_test_unit_ready k w in
      if result == 0 then (fail, w') else (eio, mark_dead w')

-- How one round of the loop of scsi_swap_core_read or scsi_swap_core_write ends: at `continue` or
-- the end of the body, the same with `data_dirty = 1`, or at `goto err`.
pub data Outcome : Type 0 where
  proceed dirtied broken : Outcome

-- What a round works on: `b_start`, `s_start`, `s_count`, and whether the block is not the bad one.
pub record Piece : Type 0 where
  pub b_start : ℕ
  pub s_start : ℕ
  pub s_count : ℕ
  pub is_good : Bool

abbrev pub s_len : Piece → ℕ
s_len p = u32 (p.s_count * sector_size)

-- Round `i`: the `int` products are patterns, `b_start` and the length are cut to 32 bits.
unfoldable pub piece : ℕ → ℕ → ℕ → ℕ → Piece
piece start bad i count =
    let i_start = u32 (swap_block_index start) in
    let i_bad = if bad == minus_one_64 then minus_one_32 else u32 (swap_block_index bad) in
    let b_start = u32 (u32 (i_start + i) * sector_num_per_swap_block) in
    let s_start = if i == 0 then start else b_start in
    let next = u32 (u32 (i_start + i + 1) * sector_num_per_swap_block) in
    record {
      b_start = b_start;
      s_start = s_start;
      s_count = min count (u32 (next + (4294967296 - u32 s_start)));
      is_good = i_bad != u32 (i_start + i);
    }

module _ {E : Type 0} where
  abbrev pub is_dead : World E → Bool
  is_dead w = w.core.device_dead != 0

  abbrev pub add_user : World E → World E
  add_user w = on_core (λ c. record c { user = atomic_inc c.user }) w

  abbrev pub drop_user : World E → World E
  drop_user w = on_core (λ c. record c { user = atomic_dec c.user }) w

module _ {E : Type 0} (k : Kernel E) where
  -- The end that both loops share: the swap goes to the end of the list, the table to disk.
  -- `_swap_dealloc_info` of an entry that stands in the list is a use of freed memory: a fault.
  unfoldable pub add_to_list : Info → M E Outcome
  add_to_list info = do
    modify (on_core (λ c. record c { info_list = c.info_list ++ info ∷ [] }))
    s ← lift (flush_swap_info_table k)
    let count_it = do
      modify (on_core (λ c. record c { info_num = atomic_inc c.info_num }))
      pure dirtied
    if is_ok s then count_it else oops
