-- ===== src/Tests/Blocks.antt =====
-- The theorems on blocks, swaps and the log, at concrete worlds.
use scsiswap.Kernel.{Kernel}
use scsiswap.Core.Create.Recreated.{Recreated, swap_recreate-Recreated}
use scsiswap.Ensures.{Ensures}
use scsiswap.Core.Create.{swap_recreate, swap_create}
use scsiswap.Core.Alloc.Fresh.{Allocated, swap_alloc_new_block-Allocated}
use scsiswap.Core.Query.{scsi_swap_core_swapped}
use scsiswap.Log.Queue.{Logs, push-Pushed}
use scsiswap.Core.Create.Fresh.{index_of, swap_create-Allocated}
use scsiswap.Core.Create.Total.{Equipped, swap_create-Yields}
use scsiswap.Yields.{Yields}
use scsiswap.Log.{scsi_swap_log_push}
use scsiswap.Core.Flush.{write_until}
use scsiswap.Core.Flush.Rounds.{write_until_lem}
use scsiswap.Core.Query.Mapped.{IsMapped, scsi_swap_core_swapped_iff}
use scsiswap.Tests.Worlds.{
  buffer-length, one_swap, one_swap_world-IsSound, sixty_four_kb, good_device, log_ring,
  log_ring-IsValid, logging_world, logging_world-IsReady, one_swap_world, two_sectors,
}
use scsiswap.Core.Alloc.{swap_alloc_new_block}
use scsiswap.Layout.{swap_sector_align}
use scsiswap.Base.{◌≤◌, if◌then◌else◌, ◌==◌, some, arith, false, refl, true, ℕ, ◌+◌, ◌<◌, ◌↔◌, ◌≡◌}

swap_create-Allocated_example :
    Ensures
      (λ r v. Allocated one_swap_world (index_of r, v))
      (swap_create good_device 400 8 one_swap_world)
swap_create-Allocated_example = swap_create-Allocated good_device 400 8 one_swap_world

swap_alloc_new_block-Allocated_example :
    Allocated one_swap_world (swap_alloc_new_block good_device one_swap_world)
swap_alloc_new_block-Allocated_example = swap_alloc_new_block-Allocated good_device one_swap_world

-- Sectors 200 to 299, of two blocks.
scsi_swap_core_swapped_iff_example : (scsi_swap_core_swapped 200 100 one_swap_world ≡ true) ↔ (
    (sector : ℕ) × (200 ≤ sector)
    × (sector < 200 + 100)
    × IsMapped one_swap_world (swap_sector_align sector))
scsi_swap_core_swapped_iff_example =
    scsi_swap_core_swapped_iff 200 100 one_swap_world (omega arith) (omega arith) (omega arith)

write_until_lem_example :
    write_until good_device 3 5 3 two_sectors one_swap_world
    ≡ write_until good_device 7 5 3 two_sectors one_swap_world
write_until_lem_example =
    write_until_lem good_device 3 7 5 3 two_sectors one_swap_world (omega arith) (omega arith)

push-Pushed_example :
    Yields
      (λ _ v. Logs 1385000000 0 0 256 149152 128 log_ring v)
      (scsi_swap_log_push good_device 0 0 256 149152 128 logging_world)
push-Pushed_example =
    push-Pushed good_device 0 0 256 149152 128 log_ring logging_world refl log_ring-IsValid refl

swap_create-Yields_example :
    Yields
      (λ r v. Equipped r × Allocated logging_world (index_of r, v))
      (swap_create good_device 400 8 logging_world)
swap_create-Yields_example =
    swap_create-Yields good_device 400 8 logging_world logging_world-IsReady.log

-- The swapped block goes to another one.
swap_recreate-Recreated_example :
    Yields
      (λ r v. Recreated logging_world 0 r v)
      (swap_recreate good_device (some 0) one_swap logging_world)
swap_recreate-Recreated_example =
    swap_recreate-Recreated good_device 0 one_swap logging_world
      (record { buffer = sixty_four_kb; held = refl; full = buffer-length }) logging_world-IsReady
      one_swap_world-IsSound

-- A device whose first command succeeds, and no other.
abbrev worn_device : Kernel ℕ
worn_device = record good_device {
  scsi_execute = λ c e. (
    record {
      result = if e == 0 then 0 else 2;
      sense_valid = false;
      sense_key = 3;
      asc = 0;
      ascq = 0;
      buf = c.buf;
    },
    e + 1,
  );
}
