-- ===== src/Core/Transfer/ReadBack.antt =====
-- core.c: what scsi_swap_core_write has put into a swapped block is what scsi_swap_core_read returns.
use scsiswap.Core.Transfer.FoundWrite.{write-Found}
use scsiswap.Core.Transfer.FoundSwap.{Found}
use scsiswap.Core.Transfer.Write.{scsi_swap_core_write}
use scsiswap.Core.Ready.{AllFull-get, HasBuffer, IsReady}
use mathlib.Core.Path.{subst}
use scsiswap.Layout.{sector_size, swap_sector_align}
use scsiswap.Core.Transfer.FoundRead.{read-Found}
use scsiswap.Core.Transfer.Copies.{IsPiece, offset_of, written}
use scsiswap.Yields.{Yields, both, yield_weaken}
use scsiswap.Core.Flush.{swap_find_swap_info}
use scsiswap.Core.Transfer.Read.{scsi_swap_core_read}
use scsiswap.Core.Flush.Lookup.{find_info_entry}
use scsiswap.Core.Transfer.TotalWrite.{write-Ready}
use scsiswap.State.{Info, Status, World, eio, enodev, fail, may_dirty, ok}
use scsiswap.Base.{
  Bytes, arith, length, length-overwrite, overwrite, refl, slice, slice-overwrite, some, ℕ, ◌*◌,
  ◌<◌, ◌∙◌, ◌≡◌, ◌≤◌,
}
use scsiswap.Kernel.{Kernel}

-- Behind a write with status 0, a read of the same sectors returns the bytes written, with status 0.
abbrev pub GivesBack :
    {E : Type 0} → Kernel E → ℕ → ℕ → ℕ → Bytes → Bytes → Status → World E → Type 0
GivesBack k start count bad bytes out ok v =
    Yields (λ r _. r ≡ (ok, overwrite out 0 bytes)) (scsi_swap_core_read k start count bad out v)
GivesBack k start count bad bytes out _ v = Unit

module _ {E : Type 0} (k : Kernel E) where
  -- A write to sectors of a block that has a swap returns, and where its status is 0, a read of the
  -- same sectors returns with status 0 and the bytes written at the front of its buffer, whatever
  -- sector is said to be bad. The sectors are some, but not all, of one block below sector 2^32;
  -- the device has not died; the swaps have their buffers and the log its ring; the buffer written
  -- has the length of the sectors, and the other one has room for them.
  pub scsi_swap_core_read-write :
      (start count bad other n : ℕ) (info : Info) (bytes out : Bytes) (w : World E)
      → IsPiece start count
      → 0 < count
      → count < 128
      → IsReady w
      → w.core.device_dead ≡ 0
      → swap_find_swap_info (swap_sector_align start) w ≡ some (n, info)
      → length bytes ≡ count * sector_size
      → count * sector_size ≤ length out
      → Yields
          (GivesBack k start count other bytes out)
          (scsi_swap_core_write k start count bad bytes w)
  unfolding swap_find_swap_info
  scsi_swap_core_read-write start count bad other n info bytes out w at some_count part ready alive
        found sized room =
      yield_weaken (scsi_swap_core_write k start count bad bytes w) _ _
        (both (scsi_swap_core_write k start count bad bytes w) _ _
          (write-Ready k start count bad bytes w (omega (arith, sized)) ready)
          (write-Found k start count bad n info b.buffer bytes w at some_count part found alive
            b.held b.full sized))
        (λ s v h. by_status s v h.1)
    where
      b : HasBuffer info
      b =
          AllFull-get w.core.info_list n info ready.buffers
            (find_info_entry w.core.info_list (swap_sector_align start) n info found)

      after : Bytes
      after = overwrite b.buffer (offset_of start) bytes

      same : slice after (offset_of start) (count * sector_size) ≡ bytes
      same =
          rw (← sized)
            (slice-overwrite b.buffer (offset_of start) bytes (omega (arith, b.full, sized, at.1)))

      by_status :
          (s : Status) (v : World E)
          → Found (swap_sector_align start) n (written k info b.buffer start bytes) s v
          → GivesBack k start count other bytes out s v
      by_status ok v (again, living) =
          subst
            (λ x.
              Yields (λ r _. r ≡ (ok, overwrite out 0 x))
                (scsi_swap_core_read k start count other out v))
            same
            (read-Found k start count other n (written k info b.buffer start bytes) after out v at
              some_count again living refl
              (length-overwrite b.buffer (offset_of start) bytes ∙ b.full) room)
      by_status may_dirty v f = tt
      by_status fail v f = tt
      by_status eio v f = tt
      by_status enodev v f = tt
