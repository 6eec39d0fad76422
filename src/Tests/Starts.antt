-- ===== src/Tests/Starts.antt =====
-- The start and the routes of bios, at concrete worlds.
use mathlib.Core.Path.{subst}
use scsiswap.Disk.{put}
use scsiswap.Log.Start.{HasCounters}
use scsiswap.Scmd.{scmd_get_action, sector_from_scmd}
use scsiswap.Core.Header.{starts_as, swap_head_exist, swap_head_valid}
use scsiswap.Io.{execute, filter_result, finish, hd_write_sector, hd_write_sector_retry, rw_cdb}
use scsiswap.Core.Invariant.{IsSound}
use scsiswap.Yields.{Yields}
use scsiswap.Format.Heads.{FitsHead}
use scsiswap.Bio.Start.{Serves, scsi_swap_init-Serves}
use scsiswap.Format.Heads.Sizes.{length-head_bytes}
use scsiswap.Core.Start.Boot.{Boots}
use scsiswap.Crc32.Bounds.{swap_crc32-lt}
use scsiswap.Core.Start.{scsi_swap_core_init}
use scsiswap.Core.Start.Cycle.{IsSaved, flush_both, flush_both-Boots}
use scsiswap.Bio.{Bio}
use scsiswap.Bio.Life.{scsi_device_can_swap, pm8001, scsi_swap_init}
use scsiswap.Tests.Disks.{content_of_memory, memory_disk, disk_in_memory}
use scsiswap.Core.Start.Stored.{IsLive}
use scsiswap.Tests.Worlds.{two_pages, sixty_four_kb}
use scsiswap.Core.Flush.Slots.{table_in, table_checksum_same, table_in-zeros, zeros}
use scsiswap.Core.Flush.{
  flush_entries, flush_swap_head, flush_swap_info_table, write_copies, write_until, table_checksum,
}
use scsiswap.State.{Info, World}
use scsiswap.Format.RoundTrip.{FitsTable}
use scsiswap.Core.Start.Reboot.{unsaved, IsDurable}
use scsiswap.Format.{log_head_of, Head, Table, table_bytes, table_prefix, zero_table}
use scsiswap.Base.{
  drop, of_le, slice, sym, ◌∙◌, length, replicate, suc, ap, ◌+◌, map, take, Bytes, [], arith, false,
  length-replicate, none, refl, some, true, ℕ, ◌<◌, ◌∷◌, ◌≡◌,
}
use scsiswap.Tests.Formats.{valid_head-FitsHead, valid_head}

-- The swap of the block at sector 256 to the first block of the data, of a reserved area from
-- sector 100000 on.
abbrev unsummed : Table
unsummed = record zero_table { src_sec = 256; swap_sec = 149152; sec_size = 128 }

abbrev summed : Table
summed = record unsummed { checksum = table_checksum unsummed }

abbrev live_swap : Info
live_swap = record { table = summed; buf = some sixty_four_kb }

-- A valid head with block 0 used.
abbrev one_used : Head
one_used = record valid_head { bitmap = true ∷ replicate 1023 false }

one_used-FitsHead : FitsHead one_used
one_used-FitsHead = record {
  head_string = valid_head-FitsHead.head_string;
  status = valid_head-FitsHead.status;
  version = valid_head-FitsHead.version;
  bitmap = ap suc (length-replicate 1023 false);
  reserved = valid_head-FitsHead.reserved;
  checksum = valid_head-FitsHead.checksum;
}

one_used-good : (swap_head_exist one_used ≡ true) × (swap_head_valid one_used ≡ true)
unfolding swap_head_exist swap_head_valid starts_as
one_used-good = (refl, refl)

abbrev saved_world : World (ℕ → Bytes)
saved_world = record {
  removable = false;
  changed = false;
  enable = true;
  core = record {
    device_dead = 0;
    info_num = 1;
    user = 0;
    head = one_used;
    info_list = live_swap ∷ [];
    sector_reserve_start = 100000;
    sector_head = 116384;
    sector_table = 132768;
    sector_data = 149152;
  };
  log = record {
    head = record { crc = 0; item_num = 0; item_next = 0 };
    ring = none;
    sector_head = 2164384;
    sector_data = 2166432;
  };
  sim = [];
  env = λ x. zeros 512;
}

unsummed-FitsTable : (c : ℕ) → c < 4294967296 → FitsTable (record unsummed { checksum = c })
unfolding zero_table
unsummed-FitsTable c small = record {
  src_sec = omega arith;
  swap_sec = omega arith;
  sec_size = omega arith;
  retrys = omega arith;
  index = omega arith;
  reserverd = length-replicate 24 0;
  checksum = small;
  save_sec = omega arith;
}

checksum-small : table_checksum unsummed < 4294967296
unfolding table_checksum
checksum-small = swap_crc32-lt 0xffffffff (take 52 (table_bytes unsummed)) (omega arith)

summed-sum : table_checksum summed ≡ summed.checksum
unfolding table_prefix zero_table
summed-sum =
    table_checksum_same summed unsummed (unsummed-FitsTable _ checksum-small)
      (unsummed-FitsTable 0 (omega arith)) refl

summed-IsLive : IsLive 149152 100000 summed
summed-IsLive = record {
  size = refl;
  sum = summed-sum;
  inside = omega arith;
  source = omega arith;
  small = omega arith;
}

vacant :
    (sector : ℕ) → ¬ ((table_in (disk_in_memory.content saved_world.env sector) 0).sec_size ≡ 128)
vacant sector e = omega (
  arith,
  e,
  ap (λ l. (table_in l 0).sec_size)
      (content_of_memory saved_world.env sector (length-replicate 512 0)),
  table_in-zeros 512 0,
)

saved_world-IsDurable : IsDurable disk_in_memory saved_world
saved_world-IsDurable = record {
  room = omega arith;
  live = (unsummed-FitsTable _ checksum-small, summed-IsLive, tt);
  apart = omega arith;
  small = omega arith;
  master = λ x le lt. vacant (132768 + x);
  backup = λ x le lt. vacant (2180768 + x);
}

saved_world-IsSaved : IsSaved disk_in_memory 100000 saved_world
saved_world-IsSaved = record {
  durable = saved_world-IsDurable;
  small = omega arith;
  sector_reserve_start = refl;
  sector_head = refl;
  sector_table = refl;
  sector_data = refl;
  fits = one_used-FitsHead;
  exists = one_used-good.0;
  valid = one_used-good.1;
}

-- The disk behind both flushes, in a handler that holds nothing yet.
abbrev next_world : World (ℕ → Bytes)
next_world = record saved_world {
  core = record saved_world.core { head = valid_head; info_list = [] };
  env = (flush_both disk_in_memory saved_world).env;
}

flush_both-Boots_example :
    let v = flush_both disk_in_memory saved_world in
    (v.core.head.bitmap ≡ one_used.bitmap)
    × (map unsaved v.core.info_list ≡ map unsaved (live_swap ∷ []))
    × Boots disk_in_memory 100000 v.core.head
        (map (λ x. x.table) v.core.info_list)
        next_world
        (scsi_swap_core_init memory_disk 100000 next_world)
flush_both-Boots_example =
    flush_both-Boots disk_in_memory 100000 saved_world next_world saved_world-IsSaved refl
      (length-head_bytes valid_head valid_head-FitsHead)

saved_world-IsSound : IsSound saved_world
unfolding zero_table
saved_world-IsSound = (refl, tt, tt)

sized_fresh : (n : ℕ) (e : ℕ → Bytes) → length (memory_disk.fresh_memory n e) ≡ n
sized_fresh n e = length-replicate n 7

-- The sector of the log's head is not written by the flushes.
log_sector : (flush_both disk_in_memory saved_world).env 2164384 ≡ zeros 512
unfolding flush_swap_info_table flush_entries write_copies write_until hd_write_sector_retry
    hd_write_sector execute finish filter_result rw_cdb flush_swap_head sector_from_scmd
    scmd_get_action put replicate
log_sector = refl

can_swap : scsi_device_can_swap (some pm8001) ≡ true
unfolding scsi_device_can_swap
can_swap = refl

zero_counters : HasCounters (log_head_of (zeros 512))
unfolding log_head_of of_le slice take drop replicate
zero_counters e = (omega arith, omega arith)

no_counters : HasCounters (log_head_of (disk_in_memory.content next_world.env 2164384))
no_counters =
    subst (λ b. HasCounters (log_head_of b))
      (sym (
        content_of_memory next_world.env 2164384 (ap length log_sector ∙ length-replicate 512 0)
        ∙ log_sector))
      zero_counters

scsi_swap_init-Serves_example :
    Yields (Serves one_used.bitmap) (scsi_swap_init memory_disk (some pm8001) 100000 next_world)
scsi_swap_init-Serves_example =
    scsi_swap_init-Serves disk_in_memory (some pm8001) 100000 saved_world next_world sized_fresh
      can_swap saved_world-IsSaved saved_world-IsSound refl no_counters

-- A bio of two sectors, in the block that has a swap, and behind it.
abbrev two_sectors_at : ℕ → Bio
two_sectors_at sector = record two_pages { bi_sector = sector; bi_size = 1024 }
