-- ===== src/Core/Create/TotalRenewal.antt =====
-- core.c: the recreation of a swap returns, and the swap keeps a buffer.
use scsiswap.Core.Create.Renewed.{save_loop-IsCalm}
use scsiswap.Io.{hd_read_sector_no_retry}
use scsiswap.Core.Alloc.{swap_alloc_new_block}
use scsiswap.Core.Ready.{
  HasBuffer, IsReady, IsReady-after, IsReady-on_core, IsReady-then, flush_swap_info_table-IsReady,
  reload-HasBuffer, store-IsReady,
}
use scsiswap.Core.Flush.Tables.{flush_swap_info_data-IsCalm}
use scsiswap.Core.Flush.{
  flush_swap_head, flush_swap_info_data, flush_swap_info_table, table_checksum,
}
use scsiswap.Core.Create.Fresh.{flush_swap_head-IsQuiet}
use scsiswap.State.{Info, Status, World, is_ok}
use scsiswap.Core.Create.{Loc, save_loop, store, swap_recreate}
use scsiswap.Yields.{Yields, yield_deref, yield_if, yield_option}
use scsiswap.Layout.{max_swap_block_for_use, sector_num_per_swap_block, sector_size}
use scsiswap.Core.Alloc.Fresh.{swap_alloc_new_block-Allocated}
use scsiswap.Base.{
  Bytes, [], if◌then◌else◌, leb, length, length-overwrite, overwrite, refl, replicate, slice, some,
  suc, zero, ℕ, ◌*◌, ◌+◌, ◌∙◌, ◌≡◌,
}
use scsiswap.Kernel.{Kernel}

-- What a step on a swap leaves: a world that is ready, and the swap with a buffer.
abbrev pub Kept : {E : Type 0} → Status × Info → World E → Type 0
Kept r v = IsReady v × HasBuffer r.1

module _ {E : Type 0} (k : Kernel E) where
  save_loop-length :
      (n i swap_sec : ℕ) (buffer : Bytes) (w : World E)
      → length (save_loop k n i swap_sec buffer w).0 ≡ length buffer
  unfolding save_loop
  save_loop-length zero i swap_sec buffer w = refl
  save_loop-length (suc n) i swap_sec buffer w =
      let ((s, got), w') =
        hd_read_sector_no_retry k (swap_sec + i) 1
          (some (slice buffer (i * sector_size) sector_size)) sector_size w in
      let once = overwrite buffer (i * sector_size) got in
      save_loop-length n (i + 1) swap_sec _ w'
      ∙ (length-overwrite once (i * sector_size) (if is_ok s then [] else replicate sector_size 0)
          ∙ length-overwrite buffer (i * sector_size) got)

  pub swap_recreate-Yields :
      (loc : Loc) (info : Info) (w : World E)
      → HasBuffer info
      → IsReady w
      → Yields Kept (swap_recreate k loc info w)
  unfolding swap_recreate
  swap_recreate-Yields loc info w b r =
      let (found, u) = swap_alloc_new_block k w in
      let r0 = IsReady-then (swap_alloc_new_block-Allocated k w).steady r in
      yield_if (leb max_swap_block_for_use w.core.info_num) _ _ Kept w (r, b)
        (yield_option found _ _ (λ _. Unit) Kept u tt (λ _. (r0, b))
          (λ index _.
            let (saved, u1) =
              save_loop k sector_num_per_swap_block 0 info.table.swap_sec b.buffer u in
            let t = record info.table {
              index = index;
              swap_sec = u1.core.sector_data + sector_num_per_swap_block * index;
            } in
            let info1 : Info = record {
              table = record t { checksum = table_checksum t };
              buf = some saved;
            } in
            let b1 : HasBuffer info1 = record {
              buffer = saved;
              held = refl;
              full =
                  save_loop-length sector_num_per_swap_block 0 info.table.swap_sec b.buffer u
                  ∙ b.full;
            } in
            let (s1, u2) = flush_swap_info_data k info1 (store loc info1 u1) in
            let (s2, u3) = flush_swap_info_table k u2 in
            let (s3, u4) = flush_swap_head k u3 in
            let r1 =
              IsReady-after
                (save_loop-IsCalm k sector_num_per_swap_block 0 info.table.swap_sec b.buffer u)
                r0 in
            let r2 =
              IsReady-after (flush_swap_info_data-IsCalm k info1 (store loc info1 u1))
                (store-IsReady loc info1 b1 r1) in
            let r3 = flush_swap_info_table-IsReady k u2 r2 in
            let r4 = IsReady-then (flush_swap_head-IsQuiet k u3).steady r3 in
            let b3 = reload-HasBuffer loc info1 u3 b1 r3 in
            yield_deref info.buf b.buffer _ Kept u b.held (
              yield_if (is_ok s1) _ _ Kept u2
                (yield_if (is_ok s2) _ _ Kept u3
                  (yield_if (is_ok s3) _ _ Kept u4 (r4, b3) (IsReady-on_core refl refl r4, b3))
                  (IsReady-on_core refl refl r3, b3))
                (IsReady-on_core refl refl r2, b1))))
