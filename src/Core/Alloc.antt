-- ===== src/Core/Alloc.antt =====
-- core.c: memory for a swap, a free block for it, and its first contents.
pub mod Fresh
use scsiswap.Base.{
  ℕ, zero, suc, ◌+◌, ◌-◌, ◌*◌, Bool, true, false, Option, none, some, Bytes, ltb, if◌then◌else◌,
  replicate, overwrite, slice,
}
use scsiswap.Kernel.{Kernel}
use scsiswap.Layout.{sector_size, sector_num_per_swap_block, swap_block_size}
use scsiswap.Format.{Table, zero_table}
use scsiswap.State.{
  World, Info, Status, ok, fail, is_ok, mark_dead, S, M, pure, lift, gets, deref, ◌>>=◌,
}
use scsiswap.Io.{hd_write_sector_retry, hd_read_sector_no_retry}
use scsiswap.Core.Bitmap.{swap_head_bitmap_get_first_zero_bit, set_bit}
use scsiswap.Core.Flush.{table_checksum}

module _ {E : Type 0} (k : Kernel E) where
  abbrev pub kmalloc : ℕ → S E Bool
  kmalloc size w = let (got, e) = k.kmalloc size w.env in (got, record w { env = e })

  -- `_swap_alloc_info`: the structure, then its buffer, both cleared. `sizeof(swap_info_t)` is 112.
  unfoldable pub swap_alloc_info : World E → Option Info × World E
  swap_alloc_info w =
      let (got, w') = kmalloc 112 w in
      let (got', w'') = kmalloc swap_block_size w' in
      if got
      then (
        (if got'
            then some (record { table = zero_table; buf = some (replicate swap_block_size 0) })
            else none),
        w'',
      )
      else (none, w')

  -- Writes zeros over the block, in one command.
  unfoldable pub swap_check_block : ℕ → World E → Status × World E
  swap_check_block sec_start w =
      let (got, w') = kmalloc swap_block_size w in
      let (s, w'') =
        hd_write_sector_retry k sec_start sector_num_per_swap_block
          (some (replicate swap_block_size 0)) swap_block_size w' in
      if got then (if is_ok s then ok else fail, w'') else (fail, w')

  -- The `while` loop of `_swap_alloc_new_block`; the count falls from 16 as `err_cnt` rises.
  unfoldable pub alloc_loop : ℕ → ℕ → World E → Option ℕ × World E
  alloc_loop zero index w =
      let (s, w') = swap_check_block (w.core.sector_data + sector_num_per_swap_block * index) w in
      if is_ok s then (some index, set_bit index true w') else (none, mark_dead w')
  alloc_loop (suc n) index w =
      let (s, w') = swap_check_block (w.core.sector_data + sector_num_per_swap_block * index) w in
      elim (is_ok s) [
        | true ↦ (some index, set_bit index true w')
        | false ↦
            (let w'' = set_bit index true w' in
              elim (swap_head_bitmap_get_first_zero_bit k w''.core.head) [
                | none ↦ (none, w'')
                | some index' ↦ alloc_loop n index' w''
              ])
      ]

  -- `_swap_alloc_new_block`: none is -1.
  unfoldable pub swap_alloc_new_block : World E → Option ℕ × World E
  unfolding swap_head_bitmap_get_first_zero_bit
  swap_alloc_new_block w = elim (swap_head_bitmap_get_first_zero_bit k w.core.head) [
    | none ↦ (none, w)
    | some index ↦ alloc_loop 16 index w
  ]

  -- `hd_read_sector_no_retry` of `n` sectors into the buffer at sector offset `at`, the status
  -- dropped.
  unfoldable pub read_into : ℕ → ℕ → ℕ → Bytes → World E → Bytes × World E
  read_into sector n at buffer w =
      let ((s, got), w') =
        hd_read_sector_no_retry k sector n
          (some (slice buffer (at * sector_size) (n * sector_size))) (n * sector_size) w in
      (overwrite buffer (at * sector_size) got, w')

  -- The table of a swap of block `src` to block `index`.
  abbrev pub new_table : Table → ℕ → ℕ → World E → Table
  new_table t src index w =
      let t' = record t {
        src_sec = src;
        sec_size = sector_num_per_swap_block;
        index = index;
        swap_sec = w.core.sector_data + sector_num_per_swap_block * index;
      } in
      record t' { checksum = table_checksum t' }

  -- `_swap_create`: what stands before and behind the sectors asked for is read from the source
  -- block; a read that fails is passed over.
  unfoldable pub swap_create_block : Info → ℕ → ℕ → ℕ → M E (Status × Info)
  unfolding swap_alloc_new_block read_into
  swap_create_block info src need_zero_offset need_zero_len = do
    found ← lift swap_alloc_new_block
    elim found [
      | none ↦ pure (fail, info)
      | some index ↦ do
        let len =
            if ltb sector_num_per_swap_block (need_zero_offset + need_zero_len)
            then sector_num_per_swap_block - need_zero_offset
            else need_zero_len
        let end = need_zero_offset + len
        let back_len = sector_num_per_swap_block - end
        buffer ← deref info.buf
        buffer1 ← lift (λ w.
            if ltb 0 need_zero_offset
            then read_into src need_zero_offset 0 buffer w
            else (buffer, w))
        buffer2 ← lift (λ w.
            if ltb 0 back_len then read_into (src + end) back_len end buffer1 w else (buffer1, w))
        t ← gets (new_table info.table src index)
        pure (ok, record { table = t; buf = some buffer2 })
    ]
