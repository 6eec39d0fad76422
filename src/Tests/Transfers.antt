-- ===== src/Tests/Transfers.antt =====
-- The theorems on reads, writes, bios and histories, at concrete worlds.
use mathlib.Core.Path.{subst}
use scsiswap.Core.Transfer.View.{views}
use scsiswap.Core.Transfer.ViewPiece.{AreSwapped}
use scsiswap.Core.Transfer.ViewRead.{scsi_swap_core_read-views}
use scsiswap.Core.Flush.{find_info, swap_find_swap_info}
use scsiswap.Layout.{swap_sector_align}
use scsiswap.Core.Transfer.ReadBack.{GivesBack, scsi_swap_core_read-write}
use scsiswap.Core.Transfer.TotalWrite.{scsi_swap_core_write-returns}
use scsiswap.Core.Ready.{IsReady}
use scsiswap.Ensures.{Ensures}
use scsiswap.Core.Transfer.SoundWrite.{scsi_swap_core_write-IsSound}
use scsiswap.Core.Transfer.Sound.{scsi_swap_core_read-IsSound}
use scsiswap.Yields.{Yields}
use scsiswap.Core.Transfer.Write.{scsi_swap_core_write}
use scsiswap.Core.Transfer.{swap_read_info, swap_write_info}
use scsiswap.State.{ok, Info, Status, World}
use scsiswap.Core.Transfer.Rounds.{IsSoundIf}
use scsiswap.Core.Transfer.Copies.{read-write_other, read-write_same}
use scsiswap.Bio.Pages.{bio_fill_buf_lem, buf_fill_bio_lem, bytes_of}
use scsiswap.Core.Invariant.{IsSound}
use scsiswap.Bio.Handler.{Handled, swap_bio_work_handler-Handled}
use scsiswap.Core.Transfer.Read.{scsi_swap_core_read}
use scsiswap.Base.{
  ◌∙◌, inl, false, Bool, ap, length, append-nil, ◌+◌, minus_one_64, [], arith, inr, overwrite, refl,
  some, true, ℕ, ◌∷◌, ◌≡◌,
}
use scsiswap.Requests.{
  IsServing, Reach, Reach-IsServing, Reach-serves, here, next, served, stored, waited,
}
use scsiswap.Sysfs.{add_format, sim_command, swap_sim_store, taken}
use scsiswap.Yields.{yielded}
use scsiswap.Bio.{Bio}
use scsiswap.Core.Transfer.Total.{scsi_swap_core_read-returns}
use scsiswap.Core.Transfer.TotalNew.{Left}
use scsiswap.Bio.{BioItem, bio_fill_buf, buf_fill_bio, swap_bio_work_handler}
use scsiswap.Tests.Worlds.{
  buffer-length, good_device, logging_world, logging_world-IsReady, logging_world-IsServing,
  one_swap, one_swap_world, one_swap_world-IsSound, sixty_four_kb, sized_memory, two_pages,
  two_sectors, two_sectors-length,
}

-- A read of sectors 383 and 384: the last of the swapped block, the first of the next one, which is
-- taken for bad.
scsi_swap_core_read-IsSound_example :
    Ensures
      (λ _ v. IsSound v × (v.core.user ≡ 3))
      (scsi_swap_core_read good_device 383 2 384 two_sectors one_swap_world)
scsi_swap_core_read-IsSound_example =
    scsi_swap_core_read-IsSound good_device 383 2 384 two_sectors one_swap_world (omega arith)
      one_swap_world-IsSound

read-write_same_example :
    (s : Status) × (info' : Info) × (w' : World ℕ) × (swap_write_info good_device
        (some 0)
        one_swap
        300
        2
        two_sectors
        1024
        one_swap_world
      ≡ some ((s, info'), w'))
    × (swap_read_info good_device info' 300 2 two_sectors 0 1024 one_swap_world
        ≡ some (overwrite two_sectors 0 two_sectors, one_swap_world))
read-write_same_example =
    read-write_same good_device (some 0) one_swap sixty_four_kb two_sectors two_sectors 300 2
      one_swap_world one_swap_world refl buffer-length two_sectors-length
      (omega (arith, two_sectors-length)) (omega arith, omega arith)

read-write_other_example :
    (s : Status) × (info' : Info) × (w' : World ℕ) × (swap_write_info good_device
        (some 0)
        one_swap
        300
        2
        two_sectors
        1024
        one_swap_world
      ≡ some ((s, info'), w'))
    × (swap_read_info good_device info' 302 2 two_sectors 0 1024 one_swap_world
        ≡ swap_read_info good_device one_swap 302 2 two_sectors 0 1024 one_swap_world)
read-write_other_example =
    read-write_other good_device (some 0) one_swap sixty_four_kb two_sectors two_sectors 300 2 302 2
      one_swap_world one_swap_world refl buffer-length two_sectors-length
      (omega (arith, two_sectors-length)) (omega arith, omega arith) (omega arith, omega arith) refl
      (inr (omega arith))

bio_fill_buf_lem_example :
    bio_fill_buf two_pages (7 ∷ 7 ∷ 7 ∷ []) ≡ some (bytes_of two_pages.segments)
bio_fill_buf_lem_example = bio_fill_buf_lem two_pages (7 ∷ 7 ∷ 7 ∷ []) (refl, (refl, tt)) refl

buf_fill_bio_lem_example :
    (filled : Bio) × (buf_fill_bio two_pages (4 ∷ 5 ∷ 6 ∷ []) ≡ some filled)
    × (bytes_of filled.segments ≡ 4 ∷ 5 ∷ 6 ∷ [])
buf_fill_bio_lem_example = buf_fill_bio_lem two_pages (4 ∷ 5 ∷ 6 ∷ []) (refl, (refl, tt)) refl

-- A write of sectors 383 and 384, on both sides of the end of the swapped block.
scsi_swap_core_write-IsSound_example :
    Ensures
      (λ s v. (v.core.user ≡ 3) × IsSoundIf s v)
      (scsi_swap_core_write good_device 383 2 384 two_sectors one_swap_world)
scsi_swap_core_write-IsSound_example =
    scsi_swap_core_write-IsSound good_device 383 2 384 two_sectors one_swap_world (omega arith)
      one_swap_world-IsSound

scsi_swap_core_read-returns_example :
    Yields
      (λ (s, out) v. Left two_sectors (s, out) v × IsSound v × (v.core.user ≡ 3))
      (scsi_swap_core_read good_device 383 2 384 two_sectors logging_world)
scsi_swap_core_read-returns_example =
    scsi_swap_core_read-returns good_device 383 2 384 two_sectors logging_world
      (omega (arith, two_sectors-length)) (omega arith) logging_world-IsReady one_swap_world-IsSound

scsi_swap_core_write-returns_example :
    Yields
      (λ s v. IsReady v × (v.core.user ≡ 3) × IsSoundIf s v)
      (scsi_swap_core_write good_device 383 2 384 two_sectors logging_world)
scsi_swap_core_write-returns_example =
    scsi_swap_core_write-returns good_device 383 2 384 two_sectors logging_world
      (omega (arith, two_sectors-length)) (omega arith) logging_world-IsReady one_swap_world-IsSound

-- A bio of sectors 383 and 384, in one page of 1024 bytes, and the item for it.
abbrev two_sector_bio : Bool → Bio
two_sector_bio is_write = record two_pages {
  is_write = is_write;
  bi_sector = 383;
  bi_size = 1024;
  uptodate = false;
  segments = record { content = two_sectors; has_address = true } ∷ [];
}

abbrev two_sector_item : Bool → BioItem
two_sector_item is_write = record {
  bio = two_sector_bio is_write;
  start_sec = 383;
  size = 1024;
  bad_sec = 384;
  may_create = true;
}

two_sector_item-sized :
    (is_write : Bool) → length (bytes_of (two_sector_item is_write).bio.segments) ≡ 1024
two_sector_item-sized is_write = ap length (append-nil two_sectors) ∙ two_sectors-length

-- The read of both sectors, and the world that it leaves.
first_read :
    Yields
      (λ (bio, s) v. Handled good_device (two_sector_item false) logging_world bio s v)
      (swap_bio_work_handler good_device (two_sector_item false) logging_world)
first_read =
    swap_bio_work_handler-Handled good_device sized_memory (two_sector_item false) logging_world
      (refl, tt) (two_sector_item-sized false) (omega arith) logging_world-IsReady
      one_swap_world-IsSound

logging_world_swap : swap_find_swap_info (swap_sector_align 300) logging_world ≡ some (0, one_swap)
unfolding swap_find_swap_info
logging_world_swap = refl

scsi_swap_core_read-write_example :
    Yields
      (GivesBack good_device 300 2 minus_one_64 two_sectors two_sectors)
      (scsi_swap_core_write good_device 300 2 minus_one_64 two_sectors logging_world)
scsi_swap_core_read-write_example =
    scsi_swap_core_read-write good_device 300 2 minus_one_64 minus_one_64 0 one_swap two_sectors
      two_sectors logging_world (omega arith, omega arith) (omega arith) (omega arith)
      logging_world-IsReady refl logging_world_swap two_sectors-length
      (omega (arith, two_sectors-length))

-- Sectors 300 and 301 are in the swapped block.
logging_world-AreSwapped : AreSwapped logging_world.core.info_list 300 2
unfolding find_info
logging_world-AreSwapped i h = (
  0,
  one_swap,
  subst (λ t. find_info logging_world.core.info_list t ≡ some (0, one_swap)) {x = 256}
      {y = swap_sector_align (300 + i)} (omega (arith, h)) refl,
)

scsi_swap_core_read-views_example :
    Yields
      (λ r _. r ≡ (ok, overwrite two_sectors 0 (views (one_swap ∷ []) 300 2)))
      (scsi_swap_core_read good_device 300 2 minus_one_64 two_sectors logging_world)
scsi_swap_core_read-views_example =
    scsi_swap_core_read-views good_device 300 2 minus_one_64 two_sectors logging_world (omega arith)
      (omega arith) (omega arith) (omega (arith, two_sectors-length)) refl logging_world-IsReady
      logging_world-AreSwapped

-- A history: the worker serves the read, a page of eleven bytes is written to "simulate", and time
-- goes by.
served_read :
    (r : (Bio × Status) × World ℕ) × (swap_bio_work_handler good_device
        (two_sector_item false)
        logging_world
      ≡ some r)
served_read = yielded _ _ first_read

abbrev served_world : World ℕ
served_world = served_read.0.1

abbrev simulating_world : World ℕ
simulating_world = sim_command good_device add_format served_world

abbrev later_world : World ℕ
later_world = record simulating_world { env = 9 }

add_stored :
    swap_sim_store good_device add_format 11 served_world ≡ some (taken 11, simulating_world)
unfolding swap_sim_store
add_stored = refl

later_world-Reach : Reach good_device logging_world later_world
later_world-Reach =
    next
      (next (next here (served (two_sector_item false) _ _ served_read.1 (inl refl)))
        (stored add_format 11 add_stored))
      (waited 9 refl)

Reach-IsServing_example : IsServing 3 later_world
Reach-IsServing_example =
    Reach-IsServing good_device sized_memory (omega arith) logging_world-IsServing later_world-Reach

Reach-serves_example :
    Yields
      (λ (bio, s) v. Handled good_device (two_sector_item true) later_world bio s v)
      (swap_bio_work_handler good_device (two_sector_item true) later_world)
Reach-serves_example =
    Reach-serves good_device sized_memory (two_sector_item true) (refl, tt)
      (two_sector_item-sized true) (omega arith) logging_world-IsServing later_world-Reach
