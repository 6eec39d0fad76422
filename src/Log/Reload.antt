-- ===== src/Log/Reload.antt =====
-- log.c: the head that an update writes is accepted by the next load.
use scsiswap.Ring.{Ring}
use scsiswap.Ensures.{deref-some}
use scsiswap.Io.{hd_write_sector_no_retry}
use scsiswap.State.{World}
use scsiswap.Format.{LogHead, log_head_bytes, log_head_of}
use scsiswap.Log.{scsi_swap_log_crc_head, scsi_swap_log_update_head}
use scsiswap.Crc32.Bounds.{swap_crc32-lt}
use scsiswap.Layout.{sector_size}
use scsiswap.Base.{
  Bytes, arith, drop, le_bytes, of_le, of_le-le_bytes_four, of_le-le_bytes_two, overwrite, refl,
  replicate, slice, some, sym, take, u16, ℕ, ◌<◌, ◌≡◌,
}
use scsiswap.Kernel.{Kernel}

-- The words of a log head are in the range of their C types.
record FitsLogHead (h : LogHead) : Type 0 where
  crc : h.crc < 4294967296
  item_num : h.item_num < 65536
  item_next : h.item_next < 65536

-- The sector that `scsi_swap_log_update_head` writes for a head.
abbrev pub head_sector : LogHead → Bytes
head_sector h = overwrite (replicate sector_size 0) 0 (log_head_bytes h)

log_head-back : (h : LogHead) → FitsLogHead h → log_head_of (head_sector h) ≡ h
unfolding log_head_of log_head_bytes overwrite replicate slice take drop le_bytes of_le
log_head-back h f =
    rw
      (
        of_le-le_bytes_four h.crc f.crc,
        of_le-le_bytes_two h.item_num f.item_num,
        of_le-le_bytes_two h.item_next f.item_next,
      )
      refl

-- The checksum does not cover itself.
crc_same :
    (h : LogHead) (c : ℕ) → scsi_swap_log_crc_head (record h { crc = c }) ≡ scsi_swap_log_crc_head h
unfolding scsi_swap_log_crc_head log_head_bytes drop le_bytes
crc_same h c = refl

crc_head-lt : (h : LogHead) → scsi_swap_log_crc_head h < 4294967296
unfolding scsi_swap_log_crc_head
crc_head-lt h = swap_crc32-lt 0xffffffff (drop 4 (log_head_bytes h)) (omega arith)

-- A head that `scsi_swap_log_load` accepts when it reads the sector back.
pub record IsAccepted (r : Ring) (h : LogHead) : Type 0 where
  pub back : log_head_of (head_sector h) ≡ h
  pub checked : h.crc ≡ scsi_swap_log_crc_head h
  pub item_num : h.item_num ≡ r.item_num
  pub item_next : h.item_next ≡ r.item_next

module _ {E : Type 0} (k : Kernel E) where
  -- `scsi_swap_log_update_head` writes one sector, that of a head with the counters of the ring,
  -- which is read back as it was, and whose checksum is the one that `scsi_swap_log_load` computes.
  -- The counters are below 2^16.
  pub update_head-IsAccepted :
      (r : Ring) (w : World E)
      → w.log.ring ≡ some r
      → r.item_num < 65536
      → r.item_next < 65536
      → (h : LogHead) × IsAccepted r h
        × (scsi_swap_log_update_head k w
            ≡ some (
                hd_write_sector_no_retry k w.log.sector_head 1
                  (some (head_sector h))
                  sector_size
                  (record w { log = record w.log { head = h } })))
  unfolding scsi_swap_log_update_head
  update_head-IsAccepted r w held small_num small_next = (
    h'',
    record {
      back = log_head-back h'' (record {
        crc = crc_head-lt h';
        item_num = omega (arith, small_num);
        item_next = omega (arith, small_next);
      });
      checked = sym (crc_same h' (scsi_swap_log_crc_head h'));
      item_num = omega (arith, small_num);
      item_next = omega (arith, small_next);
    },
    deref-some w.log.ring r _ w held,
  )
    where
      h' : LogHead
      h' = record w.log.head { item_num = u16 r.item_num; item_next = u16 r.item_next }

      h'' : LogHead
      h'' = record h' { crc = scsi_swap_log_crc_head h' }
