-- ===== src/Core/Start/Cycle.antt =====
-- core.c: what a start finds of the swaps and the head that were flushed before.
use scsiswap.State.{World}
use scsiswap.Core.Start.{scsi_swap_core_init}
use mathlib.Core.Path.{subst}
use scsiswap.Format.Heads.Sizes.{length-head_bytes}
use scsiswap.Format.Heads.{FitsHead}
use scsiswap.Core.Start.Sealing.{head_flush, sealed, stored_elsewhere, table_flush-head}
use scsiswap.Core.Flush.Stores.{backup-IsCopy, master-IsCopy}
use scsiswap.Core.Start.Boot.{Boots, IsBootable, scsi_swap_core_init-Boots}
use scsiswap.Layout.{
  max_reserved_sector, swap_data_offset, swap_head_offset, swap_table_backup_offset,
  swap_table_offset,
}
use scsiswap.Format.{Table, head_bytes}
use scsiswap.Core.Start.Stored.{IsStored}
use scsiswap.Disk.{Disk, put, put_other, put_same}
use scsiswap.Core.Flush.{flush_swap_head, flush_swap_info_table}
use scsiswap.Core.Header.{classify, head_ok, swap_head_exist, swap_head_valid}
use scsiswap.Base.{Bytes, List, ap, arith, length, map, sym, true, ℕ, ◌+◌, ◌<◌, ◌∙◌, ◌≡◌, ◌≢◌, ◌≤◌}
use scsiswap.Core.Start.Reboot.{IsDurable, backup_of, flush_same, flushed_copy, unsaved}
use scsiswap.Core.Header.Reopen.{flushed_lem, flushed-FitsHead, flushed-classify}
use scsiswap.Kernel.{Kernel}

module _ {E : Type 0} {k : Kernel E} (d : Disk k) where
  -- The core's places are those of a reserved area from `reserve` on, its head is a valid one, and
  -- its swaps can be flushed.
  pub record IsSaved (reserve : ℕ) (w : World E) : Type 0 where
    pub durable : IsDurable d w
    pub small : reserve + max_reserved_sector < 4294967296
    pub sector_reserve_start : w.core.sector_reserve_start ≡ reserve
    pub sector_head : w.core.sector_head ≡ reserve + swap_head_offset
    pub sector_table : w.core.sector_table ≡ reserve + swap_table_offset
    pub sector_data : w.core.sector_data ≡ reserve + swap_data_offset
    pub fits : FitsHead w.core.head
    pub exists : swap_head_exist w.core.head ≡ true
    pub valid : swap_head_valid w.core.head ≡ true

  -- The two flushes, in the order of `swap_recreate`.
  abbrev pub flush_both : World E → World E
  flush_both w = (flush_swap_head k (flush_swap_info_table k w).1).1

  module _ (reserve : ℕ) (w u : World E) (h : IsSaved reserve w)
      (same : d.content u.env ≡ d.content (flush_both w).env) where
    abbrev listed : World E
    listed = (flush_swap_info_table k w).1

    at_head : listed.core.sector_head ≡ reserve + swap_head_offset
    at_head = (table_flush-head d w).1 ∙ h.sector_head

    listed-FitsHead : FitsHead listed.core.head
    listed-FitsHead = subst FitsHead (sym (table_flush-head d w).0) h.fits

    sealed-FitsHead : FitsHead (sealed listed.core.head)
    sealed-FitsHead =
        subst FitsHead (flushed_lem k listed) (flushed-FitsHead k listed listed-FitsHead)

    sealed-good : classify (sealed listed.core.head) ≡ head_ok
    sealed-good =
        subst (λ x. classify x ≡ head_ok) (flushed_lem k listed)
          (flushed-classify k listed listed-FitsHead (rw (table_flush-head d w).0 h.exists)
            (rw (table_flush-head d w).0 h.valid))

    -- What the later disk holds in a sector.
    abbrev bytes : Bytes
    bytes = head_bytes (sealed listed.core.head)

    later_disk :
        d.content u.env
        ≡ put
            (put (d.content listed.env) (reserve + swap_head_offset) bytes)
            (reserve + swap_head_offset + 64)
            bytes
    later_disk =
        let (e, run, kept) =
          head_flush d listed (omega (arith, at_head, h.small))
            (length-head_bytes (sealed listed.core.head) sealed-FitsHead) in
        same
        ∙ ap (λ r. d.content r.1.env) run
        ∙ kept
        ∙ ap (λ x. put (put (d.content listed.env) x bytes) (x + 64) bytes) at_head

    -- Away from the two heads the later disk is the one with the tables.
    away :
        (sector : ℕ)
        → sector ≢ reserve + swap_head_offset
        → sector ≢ reserve + swap_head_offset + 64
        → d.content u.env sector ≡ d.content listed.env sector
    away sector ne ne' =
        ap (λ f. f sector) later_disk
        ∙ put_other _ (reserve + swap_head_offset + 64) sector bytes ne'
        ∙ put_other (d.content listed.env) (reserve + swap_head_offset) sector bytes ne

    abbrev tables : List Table
    tables = map (λ x. x.table) listed.core.info_list

    copy_later :
        (at : ℕ)
        → reserve + 32768 ≤ at
        → IsStored (d.content listed.env) at w.core.sector_data w.core.sector_reserve_start 0 tables
        → IsStored (d.content u.env) at (reserve + swap_data_offset) reserve 0 tables
    copy_later at behind stands = rw (← h.sector_data) (
        subst (λ r. IsStored (d.content u.env) at w.core.sector_data r 0 tables)
          h.sector_reserve_start
          (stored_elsewhere (d.content listed.env) (d.content u.env) at w.core.sector_data
            w.core.sector_reserve_start 0 tables (omega arith)
            (λ x lt. away (at + x) (λ e. omega arith) (λ e. omega arith)) stands))

    bootable :
        length (head_bytes u.core.head) ≡ 512
        → IsBootable d reserve (sealed listed.core.head) tables u
    bootable memory =
        let start = reserve + swap_head_offset in
        record {
          memory = memory;
          small = h.small;
          fits = sealed-FitsHead;
          good = sealed-good;
          head =
              ap (λ f. f start) later_disk
              ∙ put_other _ (start + 64) start bytes (λ e. omega arith)
              ∙ put_same (d.content listed.env) start bytes;
          head_backup = ap (λ f. f (start + 64)) later_disk ∙ put_same _ (start + 64) bytes;
          tables =
              subst
                (λ x. IsStored (d.content u.env) x (reserve + swap_data_offset) reserve 0 tables)
                h.sector_table
                (copy_later w.core.sector_table (omega (arith, h.sector_table)) (
                  flushed_copy d w h.durable w.core.sector_table
                    (master-IsCopy d _ _ _ _ h.durable.apart h.durable.small) h.durable.master));
          tables_backup =
              subst
                (λ x.
                  IsStored (d.content u.env) (x + swap_table_backup_offset)
                    (reserve + swap_data_offset) reserve 0 tables)
                h.sector_reserve_start
                (copy_later (backup_of d w) (omega (arith, h.sector_reserve_start)) (
                  flushed_copy d w h.durable (backup_of d w)
                    (backup-IsCopy d _ _ _ _ h.durable.apart h.durable.small) h.durable.backup));
        }

  -- What was saved is found again. On a working disk let a world with a valid head, whose core has
  -- the places of a reserved area and whose swaps can be flushed, write its table and then its head,
  -- as `swap_recreate` does; this leaves the bitmap and, but for the save sectors, the list. Then in
  -- any world with that disk and a head's memory of 512 bytes, `scsi_swap_core_init` of the same
  -- reserved area returns 0: the core has the head that was written, with the same bitmap, and just
  -- the swaps of the list, in order, each with the data that its block holds on the disk.
  pub flush_both-Boots :
      (reserve : ℕ) (w u : World E)
      → IsSaved reserve w
      → let v = flush_both w in
        d.content u.env ≡ d.content v.env
        → length (head_bytes u.core.head) ≡ 512
        → (v.core.head.bitmap ≡ w.core.head.bitmap)
          × (map unsaved v.core.info_list ≡ map unsaved w.core.info_list)
          × Boots d reserve v.core.head
              (map (λ x. x.table) v.core.info_list)
              u
              (scsi_swap_core_init k reserve u)
  flush_both-Boots reserve w u h same memory =
      let l = listed reserve w u h same in
      let (e, run, kept) =
        head_flush d l (omega (arith, at_head reserve w u h same, h.small))
          (length-head_bytes (sealed l.core.head) (sealed-FitsHead reserve w u h same)) in
      let left = ap (λ r. r.1.core) run in
      (
        ap (λ c. c.head.bitmap) left ∙ ap (λ x. x.bitmap) (table_flush-head d w).0,
        ap (λ c. map unsaved c.info_list) left ∙ flush_same d w,
        subst
            (λ c.
              Boots d reserve c.head (map (λ x. x.table) c.info_list) u
                (scsi_swap_core_init k reserve u))
            (sym left)
            (scsi_swap_core_init-Boots d reserve (sealed l.core.head) (tables reserve w u h same) u
              (bootable reserve w u h same memory)),
      )
