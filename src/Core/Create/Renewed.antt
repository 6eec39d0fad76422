-- ===== src/Core/Create/Renewed.antt =====
-- core.c: the block that `swap_recreate` gives a swap.
use scsiswap.Base.{ℕ, zero, suc, ◌+◌, ◌*◌, ◌≡◌, refl, sym, false, none, some, Bytes, get_or, leb}
use mathlib.Core.Path.{subst}
use scsiswap.Kernel.{Kernel}
use scsiswap.Layout.{sector_num_per_swap_block, max_swap_block_for_use}
use scsiswap.State.{World, Info, is_ok}
use scsiswap.Ensures.{Ensures, deref_rule, if_rule, option_rule}
use scsiswap.Io.{hd_read_sector_no_retry}
use scsiswap.Io.Effects.{IsCalm, IsCalm-refl, IsCalm-trans, hd_read_sector-IsCalm}
use scsiswap.Core.Bitmap.{set_bit}
use scsiswap.Core.Flush.{
  table_checksum, flush_swap_info_data, flush_swap_info_table, flush_swap_head,
}
use scsiswap.Core.Flush.Tables.{flush_swap_info_data-IsCalm, flush_swap_info_table-Grown}
use scsiswap.Core.Quiet.{IsQuiet-of_calm}
use scsiswap.Core.Alloc.{swap_alloc_new_block}
use scsiswap.Core.Alloc.Fresh.{clear_before, Allocated, bits_of, swap_alloc_new_block-Allocated}
use scsiswap.Core.Create.{Loc, store, reload, save_loop, swap_recreate}
use scsiswap.Core.Create.Fresh.{flush_swap_head-IsQuiet}
use scsiswap.Core.Create.Moves.{
  Moved, Failed, Renewed, IndexIs, moved-IndexIs, reload_index, Moved-then, Moved-store, Moved-undo,
  Failed-of_Grown,
}
use scsiswap.Core.Invariant.{
  Placed, indexes, Grown, Grown-trans, Grown-of_calm, Grown-of_quiet, Grown-of_Allocated,
}

module _ {E : Type 0} (k : Kernel E) where
  pub save_loop-IsCalm :
      (n i swap_sec : ℕ) (buffer : Bytes) (w : World E)
      → IsCalm w (save_loop k n i swap_sec buffer w).1
  unfolding save_loop hd_read_sector_no_retry
  save_loop-IsCalm zero i swap_sec buffer w = IsCalm-refl w
  save_loop-IsCalm (suc n) i swap_sec buffer w =
      IsCalm-trans (hd_read_sector-IsCalm k _ _ _ _ _ _ w) (save_loop-IsCalm n (i + 1) swap_sec _ _)

  -- The block allocated is still there behind the save.
  pub save-Placed :
      {w v u : World E} (index swap_sec : ℕ) (buffer : Bytes)
      → Grown w v
      → Allocated v (some index, u)
      → Placed w index (save_loop k sector_num_per_swap_block 0 swap_sec buffer u).1
  save-Placed {u = u} index swap_sec buffer g a =
      let calm = save_loop-IsCalm sector_num_per_swap_block 0 swap_sec buffer u in
      record {
        grown = Grown-trans g (Grown-trans (Grown-of_Allocated a) (Grown-of_calm calm));
        clear = clear_before k g.grows index (a.fresh index refl).1;
        marked = rw (IsQuiet-of_calm calm).bits (a.fresh index refl).2;
      }

  -- The end of `swap_recreate`: the table, then the head, or the new block is given back.
  heads_step :
      (loc : Loc) (info : Info) {w v : World E}
      → Moved w loc info.table.index v
      → (let i = info.table.index in
          let (s2, v2) = flush_swap_info_table k v in
          let info2 = reload loc info v2 in
          let (s3, v3) = flush_swap_head k v2 in
          Failed w loc info2.table.index (set_bit i false v2)
          × Moved w loc info2.table.index v3
          × Failed w loc info2.table.index (set_bit i false v3))
  heads_step loc info {w} {v} m =
      let i = info.table.index in
      let (s2, v2) = flush_swap_info_table k v in
      let (s3, v3) = flush_swap_head k v2 in
      let m2 = Moved-then m (flush_swap_info_table-Grown k v) in
      let m3 = Moved-then m2 (Grown-of_quiet (flush_swap_head-IsQuiet k v2)) in
      let same : (reload loc info v2).table.index ≡ i =
        reload_index loc info v2 (
          subst (IndexIs loc i) (sym m2.blocks) (moved-IndexIs loc i (indexes w.core.info_list))) in
      (
        Moved-undo i (reload loc info v2).table.index same m2,
        subst (λ j. Moved w loc j v3) (sym same) m3,
        Moved-undo i (reload loc info v2).table.index same m3,
      )

  -- From a world that has grown from `w`.
  pub swap_recreate-Renewed :
      (loc : Loc) (info : Info) {w : World E} (v : World E)
      → Grown w v
      → (loc ≡ none → get_or (bits_of w) info.table.index false ≡ false)
      → Ensures (Renewed w loc) (swap_recreate k loc info v)
  unfolding swap_recreate
  swap_recreate-Renewed loc info {w} v g free =
      if_rule (leb max_swap_block_for_use v.core.info_num) _ _ (Renewed w loc) v
        (Failed-of_Grown g free)
        (let (found, u) = swap_alloc_new_block k v in
          option_rule found _ _ (λ o. Allocated v (o, u)) (Renewed w loc) u
            (swap_alloc_new_block-Allocated k v)
            (λ nothing. Failed-of_Grown (Grown-trans g (Grown-of_Allocated nothing)) free)
            (λ index a. deref_rule info.buf _ (Renewed w loc) u (λ buffer _.
              let (saved, u1) =
                save_loop k sector_num_per_swap_block 0 info.table.swap_sec buffer u in
              let t = record info.table {
                index = index;
                swap_sec = u1.core.sector_data + sector_num_per_swap_block * index;
              } in
              let info1 : Info = record {
                table = record t { checksum = table_checksum t };
                buf = some saved;
              } in
              let (s1, u2) = flush_swap_info_data k info1 (store loc info1 u1) in
              let placed = save-Placed index info.table.swap_sec buffer g a in
              let m =
                Moved-then (Moved-store loc info1 placed)
                  (Grown-of_calm (flush_swap_info_data-IsCalm k info1 (store loc info1 u1))) in
              let (table_failed, done, head_failed) = heads_step loc info1 m in
              let (s2, u3) = flush_swap_info_table k u2 in
              let (s3, u4) = flush_swap_head k u3 in
              if_rule (is_ok s1) _ _ (Renewed w loc) u2
                (if_rule (is_ok s2) _ _ (Renewed w loc) u3
                  (if_rule (is_ok s3) _ _ (Renewed w loc) u4 done head_failed) table_failed)
                (Moved-undo index index refl m))))
