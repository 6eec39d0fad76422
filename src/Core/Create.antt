-- ===== src/Core/Create.antt =====
-- core.c: a new swap with its log entry, and a new block for a swap whose block has gone bad.
pub mod Fresh
pub mod Moves
pub mod Renewed
pub mod Total
pub mod TotalRenewal
pub mod Recreated
pub mod Dangling
use scsiswap.Base.{
  ℕ, zero, suc, ◌+◌, ◌-◌, ◌*◌, false, Option, none, some, [], Bytes, leb, if◌then◌else◌, replicate,
  overwrite, slice, set, get_elem?, minus_one_64,
}
use scsiswap.Kernel.{Kernel}
use scsiswap.Layout.{
  sector_size, sector_num_per_swap_block, max_swap_block_for_use, swap_sector_align,
}
use scsiswap.State.{
  World, Info, Status, ok, fail, is_ok, M, pure, lift, gets, modify, deref, on_core, ◌>>=◌, ◌>>◌,
}
use scsiswap.Io.{hd_read_sector_no_retry}
use scsiswap.Log.{
  FailReason, maxcount, malloc, write_dst, flush_head, log_result, log_type_create,
  scsi_swap_log_push,
}
use scsiswap.Core.Bitmap.{set_bit}
use scsiswap.Core.Flush.{
  table_checksum, flush_swap_info_data, flush_swap_info_table, flush_swap_head,
}
use scsiswap.Core.Alloc.{swap_alloc_info, swap_alloc_new_block, swap_create_block}

module _ {E : Type 0} (k : Kernel E) where
  -- The part of `swap_create` before `out:`: the swap or the reason why there is none.
  unfoldable pub try_create : ℕ → ℕ → M E (Option Info × Option FailReason)
  try_create sector_start sector_count = do
    full ← gets (λ w. leb max_swap_block_for_use w.core.info_num)
    let sector_bswap = swap_sector_align sector_start
    let attempt = do
      found ← lift (swap_alloc_info k)
      elim found [
        | none ↦ pure (none, some malloc)
        | some info ↦ do
          (s, info') ←
              swap_create_block k info sector_bswap (sector_start - sector_bswap) sector_count
          let flushed = do
            s' ← lift (flush_swap_head k)
            let undo = do modify (set_bit info'.table.index false); pure (none, some flush_head)
            if is_ok s' then pure (some info', none) else undo
          if is_ok s then flushed else pure (none, some write_dst)
      ]
    if full then pure (none, some maxcount) else attempt

  unfoldable pub swap_create : ℕ → ℕ → M E (Option Info)
  unfolding try_create
  swap_create sector_start sector_count = do
    (info, reason) ← try_create sector_start sector_count
    elim info [
      | none ↦ do
        logged ←
            scsi_swap_log_push k log_type_create (log_result reason) sector_start minus_one_64
              sector_count
        pure none
      | some i ↦ do
        logged ←
            scsi_swap_log_push k log_type_create (log_result reason) i.table.src_sec
              i.table.swap_sec i.table.sec_size
        pure (some i)
    ]

-- The pointer to a swap: its place in the list, none before it is put there.
abbrev pub Loc : Type 0
Loc = Option ℕ

module _ {E : Type 0} where
  -- A write through the pointer, and a read.
  unfoldable pub store : Loc → Info → World E → World E
  store none info w = w
  store (some i) info w = on_core (λ c. record c { info_list = set c.info_list i info }) w

  unfoldable pub reload : Loc → Info → World E → Info
  reload none info w = info
  reload (some i) info w = elim (get_elem? w.core.info_list i) [ none ↦ info | some info' ↦ info' ]

module _ {E : Type 0} (k : Kernel E) where
  -- The loop that saves a block sector by sector, `n` of them from `i` on; what cannot be read
  -- becomes zero.
  unfoldable pub save_loop : ℕ → ℕ → ℕ → Bytes → World E → Bytes × World E
  save_loop zero i swap_sec buffer w = (buffer, w)
  save_loop (suc n) i swap_sec buffer w =
      let ((s, got), w') =
        hd_read_sector_no_retry k (swap_sec + i) 1
          (some (slice buffer (i * sector_size) sector_size)) sector_size w in
      save_loop n (i + 1) swap_sec
        (overwrite (overwrite buffer (i * sector_size) got) (i * sector_size)
          (if is_ok s then [] else replicate sector_size 0))
        w'

  -- `swap_recreate`. It faults where the swap has no buffer.
  unfoldable pub swap_recreate : Loc → Info → M E (Status × Info)
  swap_recreate loc info = do
    full ← gets (λ w. leb max_swap_block_for_use w.core.info_num)
    let attempt = do
      found ← lift (swap_alloc_new_block k)
      elim found [
        | none ↦ pure (fail, info)
        | some index ↦ do
          buffer ← deref info.buf
          saved ← lift (save_loop sector_num_per_swap_block 0 info.table.swap_sec buffer)
          data_start ← gets (λ w. w.core.sector_data)
          let old = info.table
          let t = record old {
            index = index;
            swap_sec = data_start + sector_num_per_swap_block * index;
          }
          let info1 = record info {
            table = record t { checksum = table_checksum t };
            buf = some saved;
          }
          modify (store loc info1)
          s1 ← lift (flush_swap_info_data k info1)
          let heads = do
            s2 ← lift (flush_swap_info_table k)
            info2 ← gets (reload loc info1)
            let undo = do modify (set_bit index false); pure (fail, info2)
            let last = do s3 ← lift (flush_swap_head k); if is_ok s3 then pure (ok, info2) else undo
            if is_ok s2 then last else undo
          let undo = do modify (set_bit index false); pure (fail, info1)
          if is_ok s1 then heads else undo
      ]
    if full then pure (fail, info) else attempt
