-- ===== src/Bio.antt =====
-- drivers/scsi/swap/swap.c: bios that are served through the swaps. The
-- work queue runs an item's handler some time after `swap_bio` has queued it.
pub mod Life
pub mod Pages
pub mod Workqueue
pub mod Start
pub mod Settled
pub mod Handler
use scsiswap.Base.{
  ℕ, ◌+◌, ◌-◌, ◌/◌, Bool, true, false, ◌&&◌, ◌||◌, not, Option, none, some, List, [], ◌∷◌, Bytes,
  ltb, leb, ◌==◌, ◌!=◌, if◌then◌else◌, length, overwrite, slice, minus_one_64,
}
use scsiswap.Kernel.{Kernel}
use scsiswap.Layout.{max_reserved_sector, swap_log_head_offset, swap_log_data_offset}
use scsiswap.Format.{zero_head}
use scsiswap.State.{
  World, Status, ok, fail, eio, may_dirty, is_ok, M, pure, lift, gets, deref, modify, ◌>>=◌, ◌>>◌,
}
use scsiswap.Core.Alloc.{kmalloc}
use scsiswap.Core.Transfer.Read.{scsi_swap_core_read}
use scsiswap.Core.Transfer.Write.{scsi_swap_core_write}
use scsiswap.Core.Query.{scsi_swap_core_can_swap, scsi_swap_core_swapped}
use scsiswap.Core.Start.{scsi_swap_core_init, scsi_swap_core_destroy}
use scsiswap.Log.{scsi_swap_log_init, scsi_swap_log_destroy}
use scsiswap.Sim.{scsi_swap_sim_init, scsi_swap_sim_destroy}

-- Where a bio's `bi_bdev` leads: nowhere, to a disk without a parent device, to a parent that is
-- no SCSI device, or to the SCSI device of the world.
pub data BlockDevice : Type 0 where
  no_bdev no_disk no_parent other_parent scsi_parent : BlockDevice

-- A segment's `bv_len` bytes, and whether its page has an address (its own or by `kmap_atomic`).
pub record Segment : Type 0 where
  pub content : Bytes
  pub has_address : Bool

-- `struct bio`, as far as the driver reads and writes it.
pub record Bio : Type 0 where
  pub bdev : BlockDevice
  pub is_write : Bool
  pub bi_sector : ℕ
  pub bi_size : ℕ
  pub uptodate : Bool
  pub segments : List Segment

-- `struct swap_bio_item`
pub record BioItem : Type 0 where
  pub bio : Bio
  pub start_sec : ℕ
  pub size : ℕ
  pub bad_sec : ℕ
  pub may_create : Bool

unfoldable pub sdev_from_bdev : BlockDevice → Bool
sdev_from_bdev scsi_parent = true
sdev_from_bdev _ = false

-- Whether a page is copied that belongs at `pos`: it starts in front of the buffer's end, and its
-- page has an address.
unfoldable pub copies_page : Bytes → ℕ → Segment → Bool
copies_page buf pos s = ltb pos (length buf) && s.has_address

-- The place in the buffer behind a page.
unfoldable pub place_behind : Bytes → ℕ → Segment → ℕ
place_behind buf pos s = if ltb pos (length buf) then pos + length s.content else pos

-- The page, with `memcpy` from the buffer: none where it runs past the buffer's end.
unfoldable pub page_from_buf : Bytes → ℕ → Segment → Option Segment
unfolding copies_page
page_from_buf buf pos s =
    let n = length s.content in
    if copies_page buf pos s
    then (if leb (pos + n) (length buf)
        then some (record s { content = slice buf pos n })
        else none)
    else some s

-- The buffer, with `memcpy` from the page: none where it runs past the buffer's end.
unfoldable pub page_to_buf : Bytes → ℕ → Segment → Option Bytes
unfolding copies_page
page_to_buf buf pos s =
    if copies_page buf pos s
    then (if leb (pos + length s.content) (length buf)
        then some (overwrite buf pos s.content)
        else none)
    else some buf

-- `buf_fill_bio`: the segments, filled from the buffer.
unfoldable pub fill_segments : Bytes → ℕ → List Segment → Option (List Segment)
fill_segments buf pos [] = some []
fill_segments buf pos (s ∷ segments) = elim (page_from_buf buf pos s) [
  | none ↦ none
  | some s' ↦ elim (fill_segments buf (place_behind buf pos s) segments) [
    | none ↦ none
    | some rest ↦ some (s' ∷ rest)
  ]
]

unfoldable pub buf_fill_bio : Bio → Bytes → Option Bio
buf_fill_bio bio buf = elim (fill_segments buf 0 bio.segments) [
  | none ↦ none
  | some segments ↦ some (record bio { segments = segments })
]

-- `bio_fill_buf`: the buffer, filled from the segments.
unfoldable pub gather_segments : Bytes → ℕ → List Segment → Option Bytes
gather_segments buf pos [] = some buf
gather_segments buf pos (s ∷ segments) = elim (page_to_buf buf pos s) [
  | none ↦ none
  | some buf' ↦ gather_segments buf' (place_behind buf pos s) segments
]

unfoldable pub bio_fill_buf : Bio → Bytes → Option Bytes
bio_fill_buf bio buf = gather_segments buf 0 bio.segments

-- A status of the core that counts as done.
abbrev pub is_done : Status → Bool
is_done ok = true
is_done may_dirty = true
is_done _ = false

-- `bio->bi_size >= size` and what follows.
abbrev pub advance : ℕ → Bio → Bio
advance size bio =
    if leb size bio.bi_size
    then record bio { bi_size = bio.bi_size - size; bi_sector = bio.bi_sector + size / 512 }
    else bio

module _ {E : Type 0} where
  -- Whether `bio_get_scsi_swap` finds the device's swap.
  unfoldable pub bio_get_scsi_swap : Bio → World E → Bool
  unfolding sdev_from_bdev
  bio_get_scsi_swap bio w =
      if not (sdev_from_bdev bio.bdev)
      then false
      else (if w.removable || w.changed then false else w.enable)

  unfoldable pub bio_has_bad_block : Bio → World E → Bool
  unfolding bio_get_scsi_swap
  bio_has_bad_block bio w =
      if not (bio_get_scsi_swap bio w)
      then false
      else scsi_swap_core_swapped bio.bi_sector (bio.bi_size / 512) w

module _ {E : Type 0} (k : Kernel E) where
  -- `swap_bio` for a bio that is not null: the item queued, if there is one; its result is true
  -- just then. `sizeof(struct swap_bio_item)` is 80.
  unfoldable pub swap_bio : Bio → ℕ → ℕ → ℕ → Bool → Bool → World E → Option BioItem × World E
  unfolding bio_get_scsi_swap
  swap_bio bio sector size bad_sec is_eio may_create w =
      let (got, w') = kmalloc k 80 w in
      if not is_eio
      then (none, w)
      else (if not bio.is_write && (bad_sec != minus_one_64)
          then (none, w)
          else (if not (bio_get_scsi_swap bio w)
              then (none, w)
              else (if not (scsi_swap_core_can_swap sector size w)
                  then (none, w)
                  else (if not got then (none, w') else (
                    some (record {
                      bio = bio;
                      start_sec = sector;
                      size = size;
                      bad_sec = bad_sec;
                      may_create = may_create;
                    }),
                    w',
                  )))))

  -- `swap_bio_work_handler`: the bio and the error that go to `bi_end_io`.
  unfoldable pub swap_bio_work_handler : BioItem → M E (Bio × Status)
  swap_bio_work_handler item = do
    let bio = item.bio
    let num = item.size / 512
    fresh ← gets (λ w. k.fresh_memory item.size w.env)
    got ← lift (kmalloc k item.size)
    let write = do
      buf ← deref (bio_fill_buf bio fresh)
      s ← scsi_swap_core_write k item.start_sec num item.bad_sec buf
      pure (
        advance item.size (if is_done s then record bio { uptodate = true } else bio),
        if is_done s then ok else eio,
      )
    let read = do
      (s, buf) ← scsi_swap_core_read k item.start_sec num item.bad_sec fresh
      filled ← if is_done s then deref (buf_fill_bio bio buf) else pure bio
      pure (
        advance item.size (if is_done s then record filled { uptodate = true } else bio),
        if is_done s then ok else eio,
      )
    if not got then pure (bio, eio) else if bio.is_write then write else read
