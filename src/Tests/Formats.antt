-- ===== src/Tests/Formats.antt =====
-- The theorems on formats, checksums, the ring and the command blocks, at concrete data.
use scsiswap.Layout.{sector_size}
use scsiswap.Core.Transfer.{get_swap_block_count}
use scsiswap.State.{World, ok}
use scsiswap.Io.Outcomes.{Verdict, hd_write_sector-Verdict, write_command}
use scsiswap.Format.Heads.{FitsHead}
use scsiswap.Sim.Undo.{scsi_swap_sim_remove-add}
use scsiswap.Core.Header.{
  head_ok, starts_as, swap_get_head_state, swap_head_exist, swap_head_string, swap_head_valid,
  swap_version, valid_string,
}
use scsiswap.Log.{scsi_swap_log_update_head}
use scsiswap.Core.Transfer.Cover.{Covers, request-Covers}
use scsiswap.Core.Header.Reopen.{flushed, swap_get_head_state-flushed}
use scsiswap.Log.Reload.{IsAccepted, head_sector, update_head-IsAccepted}
use scsiswap.Crc32.Equivalence.{swap_crc32-eq-reference}
use scsiswap.Sim.Hits.{AnyOverlap, scsi_swap_sim_hit_iff}
use scsiswap.Show.{show_lines, show_lines_fits}
use scsiswap.Ring.{Ring, cspring_push}
use scsiswap.Format.{Head, LogHead, head_bytes, zero_head, table_bytes, table_of, zero_table}
use scsiswap.Scmd.{scmd_get_action, sector_from_scmd, write_action}
use scsiswap.Crc32.Reference.{crc32_reference}
use scsiswap.Ring.Refine.{IsValid, push-IsValid}
use scsiswap.Io.{
  execute, filter_result, finish, hd_read_sector, hd_read_sector_retry, hd_write_sector,
  hd_write_sector_no_retry, rw_cdb,
}
use scsiswap.Crc32.{swap_crc32}
use scsiswap.Format.RoundTrip.{FitsTable, table_of-table_bytes}
use scsiswap.Sim.{scsi_swap_sim_add, scsi_swap_sim_remove, scsi_swap_sim_hit}
use scsiswap.Ring.Queue.{contents, contents-push, keep_last}
use scsiswap.Base.{
  Bytes, false, minus_one_64, replicate, some, ℕ, ◌++◌, [], arith, length, length-replicate, refl,
  true, ◌%◌, ◌<◌, ◌^◌, ◌↔◌, ◌∷◌, ◌≡◌,
}
use scsiswap.Scmd.RoundTrip.{sector_from_scmd-write}
use scsiswap.Tests.Worlds.{
  good_device, log_ring, logging_world, two_sectors, one_swap_world, small_ring, small_ring-IsValid,
}
use scsiswap.Kernel.{Kernel, write_10}

swap_crc32-eq-reference_example :
    swap_crc32 0xffffffff (1 ∷ 2 ∷ 3 ∷ 4 ∷ 5 ∷ 6 ∷ 7 ∷ 8 ∷ 255 ∷ [])
    ≡ crc32_reference 0xffffffff (1 ∷ 2 ∷ 3 ∷ 4 ∷ 5 ∷ 6 ∷ 7 ∷ 8 ∷ 255 ∷ [])
swap_crc32-eq-reference_example =
    swap_crc32-eq-reference 0xffffffff (1 ∷ 2 ∷ 3 ∷ 4 ∷ 5 ∷ 6 ∷ 7 ∷ 8 ∷ 255 ∷ []) (
      omega arith,
      (
        omega arith,
        (
          omega arith,
          (
            omega arith,
            (omega arith, (omega arith, (omega arith, (omega arith, (omega arith, tt))))),
          ),
        ),
      ),
    )

contents-push_example :
    (p : ℕ × Ring) × (cspring_push small_ring (7 ∷ 8 ∷ []) ≡ some p)
    × (contents p.1 ≡ keep_last 2 (contents small_ring) (7 ∷ 8 ∷ []))
contents-push_example = contents-push (7 ∷ 8 ∷ []) small_ring-IsValid refl

push-IsValid_example :
    (p : ℕ × Ring) × (cspring_push small_ring (7 ∷ 8 ∷ []) ≡ some p) × IsValid p.1
push-IsValid_example = push-IsValid (7 ∷ 8 ∷ []) small_ring-IsValid (omega arith)

scsi_swap_sim_hit_iff_example :
    (scsi_swap_sim_hit 103 8 one_swap_world ≡ true) ↔ AnyOverlap 103 8 one_swap_world.sim
scsi_swap_sim_hit_iff_example =
    scsi_swap_sim_hit_iff 103 8 one_swap_world (omega arith) (omega arith, omega arith)
      ((omega arith, omega arith), tt)

sector_from_scmd-write_example :
    (sector_from_scmd (rw_cdb write_10 149152 128) ≡ (149152 % 2 ^ 32, 128 % 2 ^ 16))
    × (scmd_get_action (rw_cdb write_10 149152 128) ≡ write_action)
sector_from_scmd-write_example = sector_from_scmd-write 149152 128

show_lines_fits_example : length (show_lines 4 ((65 ∷ 10 ∷ []) ∷ (66 ∷ 10 ∷ []) ∷ [])) < 4
show_lines_fits_example = show_lines_fits 4 ((65 ∷ 10 ∷ []) ∷ (66 ∷ 10 ∷ []) ∷ []) (omega arith)

zero_table-FitsTable : FitsTable zero_table
unfolding zero_table
zero_table-FitsTable = record {
  src_sec = omega arith;
  swap_sec = omega arith;
  sec_size = omega arith;
  retrys = omega arith;
  index = omega arith;
  reserverd = length-replicate 24 0;
  checksum = omega arith;
  save_sec = omega arith;
}

table_of-table_bytes_example : table_of (table_bytes zero_table) ≡ zero_table
table_of-table_bytes_example = table_of-table_bytes zero_table zero_table-FitsTable

scsi_swap_sim_remove-add_example :
    (scsi_swap_sim_remove 200 1 (scsi_swap_sim_add good_device 200 8 one_swap_world).1).1.sim
    ≡ one_swap_world.sim
scsi_swap_sim_remove-add_example =
    scsi_swap_sim_remove-add good_device 200 8 1 one_swap_world refl (omega arith, tt)

-- Sectors 200 to 399, in three blocks.
request-Covers_example : Covers (get_swap_block_count 200 200) 200 minus_one_64 0 200 200
request-Covers_example =
    request-Covers 200 minus_one_64 200 (omega arith) (omega arith) (omega arith)

hd_write_sector-Verdict_example :
    let (r, e) = good_device.scsi_execute (write_command 300 2 two_sectors 1024 10 5) 0 in
    Verdict r
      (record one_swap_world { env = e })
      (hd_write_sector good_device 300 2 (some two_sectors) 1024 10 5 one_swap_world)
hd_write_sector-Verdict_example =
    hd_write_sector-Verdict good_device 300 2 two_sectors 1024 10 5 one_swap_world (omega arith)

update_head-IsAccepted_example :
    (h : LogHead) × IsAccepted log_ring h
    × (scsi_swap_log_update_head good_device logging_world
        ≡ some (
            hd_write_sector_no_retry good_device 2164384 1
              (some (head_sector h))
              sector_size
              (record logging_world { log = record logging_world.log { head = h } })))
update_head-IsAccepted_example =
    update_head-IsAccepted good_device log_ring logging_world refl (omega arith) (omega arith)

-- A valid head, with no used block.
abbrev pub valid_head : Head
valid_head = record {
  head_string = swap_head_string ++ replicate 10 0;
  status = valid_string ++ replicate 11 0;
  version = swap_version;
  bitmap = replicate 1024 false;
  reserved = replicate 344 0;
  checksum = 0;
}

name_length : length valid_head.head_string ≡ 16
unfolding replicate
name_length = refl

mark_length : length valid_head.status ≡ 16
unfolding replicate
mark_length = refl

pub valid_head-FitsHead : FitsHead valid_head
valid_head-FitsHead = record {
  head_string = name_length;
  status = mark_length;
  version = refl;
  bitmap = length-replicate 1024 false;
  reserved = length-replicate 344 0;
  checksum = omega arith;
}

pub valid_head-good : (swap_head_exist valid_head ≡ true) × (swap_head_valid valid_head ≡ true)
unfolding swap_head_exist swap_head_valid starts_as
valid_head-good = (refl, refl)

abbrev fresh_world : World ℕ
fresh_world = record one_swap_world { core = record one_swap_world.core { head = valid_head } }

-- A disk that returns the same bytes to every command.
abbrev disk_of : Bytes → Kernel ℕ
disk_of bytes = record good_device {
  scsi_execute = λ c e. (
    record { result = 0; sense_valid = false; sense_key = 0; asc = 0; ascq = 0; buf = bytes },
    e,
  );
}

disk-read :
    (bytes old : Bytes)
    → hd_read_sector_retry (disk_of bytes) 116384 1 (some old) sector_size fresh_world
      ≡ ((ok, bytes), fresh_world)
unfolding hd_read_sector_retry hd_read_sector execute finish filter_result
disk-read bytes old = refl

swap_get_head_state-flushed_example :
    (swap_get_head_state
        (disk_of (head_bytes (flushed good_device fresh_world)))
        116384
        zero_head
        fresh_world
      ≡ (head_ok, flushed good_device fresh_world, fresh_world))
    × ((flushed good_device fresh_world).bitmap ≡ valid_head.bitmap)
swap_get_head_state-flushed_example =
    swap_get_head_state-flushed good_device (disk_of (head_bytes (flushed good_device fresh_world)))
      116384 zero_head fresh_world fresh_world fresh_world valid_head-FitsHead valid_head-good.0
      valid_head-good.1
      (disk-read (head_bytes (flushed good_device fresh_world)) (head_bytes zero_head))
