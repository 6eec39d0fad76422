-- ===== src/Block/Routes.antt =====
-- block/blk-core.c and swap.c: where a bio goes that is handed to the block layer.
use scsiswap.State.{World}
use scsiswap.Bio.{Bio, BioItem, bio_get_scsi_swap}
use scsiswap.Layout.{swap_sector_align}
use scsiswap.Core.Flush.{swap_find_swap_info}
use scsiswap.Core.Query.Mapped.{IsMapped}
use scsiswap.Block.{Fate, ended, pass_on, queued, waiting}
use scsiswap.Base.{
  Bool, ltb, ◌&&◌, ◌==◌, false, minus_one_64, none, true, ℕ, ◌*◌, ◌+◌, ◌/◌, ◌<◌, ◌≡◌, ◌≤◌,
}
use scsiswap.Kernel.{Kernel}

-- Some sector of the bio lies in a block that has a swap, and the device's swaps are enabled.
pub record Touches {E : Type 0} (bio : Bio) (w : World E) : Type 0 where
  pub found : bio_get_scsi_swap bio w ≡ true
  pub block : ℕ
  pub inside : swap_sector_align bio.bi_sector + 128 * block < bio.bi_sector + bio.bi_size / 512
  pub mapped : IsMapped w (swap_sector_align bio.bi_sector + 128 * block)

-- The size is an `unsigned int`, and the sectors do not come near the last `sector_t`.
pub record InRange (bio : Bio) : Type 0 where
  pub size : bio.bi_size < 4294967296
  pub small : bio.bi_sector + bio.bi_size / 512 ≤ 18446744073709551488

-- The item that the worker gets for the bio.
pub record Asks {E : Type 0} (bio : Bio) (w : World E) (item : BioItem) : Type 0 where
  pub whole : item.bio ≡ bio
  pub start : item.start_sec ≡ bio.bi_sector
  pub size : item.size ≡ bio.bi_size
  pub bad : item.bad_sec ≡ minus_one_64
  pub alive : w.core.device_dead ≡ 0
  pub below : bio.bi_sector < w.core.sector_reserve_start

-- The device is not dead, the bio lies in front of the reserved area, and there is memory for an item.
abbrev pub has_place : {E : Type 0} → Kernel E → Bio → World E → Bool
has_place k bio w =
    (w.core.device_dead == 0)
    && (ltb bio.bi_sector w.core.sector_reserve_start && (k.kmalloc 80 w.env).0)

-- What each fate of a bio says of it.
pub Routed : {E : Type 0} → Kernel E → Bio → World E → Fate → Type 0
Routed k bio w pass_on =
    bio_get_scsi_swap bio w ≡ true
    → (sector : ℕ) → bio.bi_sector ≤ sector
    → sector < bio.bi_sector + bio.bi_size / 512
    → swap_find_swap_info (swap_sector_align sector) w ≡ none
Routed k bio w (ended bio' failed) =
    (bio' ≡ bio) × (failed ≡ true) × Touches bio w × (has_place k bio w ≡ false)
Routed k bio w (queued item) = Asks bio w item × Touches bio w
Routed k bio w (waiting bio') = ⊥
