-- ===== src/Block.antt =====
-- The calls of the driver from block/blk-core.c, drivers/scsi/sd.c and drivers/scsi/scsi.c.
pub mod Routes
pub mod Attach
use scsiswap.Base.{
  ℕ, ◌+◌, ◌-◌, ◌*◌, ◌/◌, Bool, true, false, ◌&&◌, ◌||◌, not, Option, none, some, Bytes, ltb, ◌==◌,
  ◌!=◌, if◌then◌else◌, minus_one_64, bit_or,
}
use scsiswap.Kernel.{Kernel}
use scsiswap.State.{World}
use scsiswap.Bio.{Bio, BioItem, bio_has_bad_block, swap_bio}
use scsiswap.Bio.Life.{scsi_get_reserve_sectors_for_swap}
use scsiswap.Scmd.{scmd_should_be_bad}

-- What becomes of a bio: it goes on to the elevator, is ended with or without -EIO, is queued for
-- the swaps, or waits for the rest of its bytes.
pub data Fate : Type 0 where
  pass_on : Fate
  ended : Bio → Bool → Fate
  queued : BioItem → Fate
  waiting : Bio → Fate

-- `error`: none, -EIO, or another one.
pub data Failure : Type 0 where
  no_error io_error other_error : Failure

abbrev pub is_error : Failure → Bool
is_error no_error = false
is_error _ = true

abbrev pub is_io_error : Failure → Bool
is_io_error io_error = true
is_io_error _ = false

module _ {E : Type 0} (k : Kernel E) where
  -- The start of `generic_make_request`.
  unfoldable pub generic_make_request : Bio → World E → Fate × World E
  generic_make_request bio w =
      if bio_has_bad_block bio w
      then (let (item, w') = swap_bio k bio bio.bi_sector bio.bi_size minus_one_64 true false w in
          (elim item [ none ↦ ended bio true | some i ↦ queued i ], w'))
      else (pass_on, w)

  -- `req_bio_endio`: `rq_pos` is `blk_rq_pos(rq)`, `flush_seq` the request's REQ_FLUSH_SEQ.
  unfoldable pub req_bio_endio : ℕ → Bool → Bio → ℕ → Failure → World E → Fate × World E
  req_bio_endio rq_pos flush_seq bio nbytes error w =
      let bio1 = if is_error error then record bio { uptodate = false } else bio in
      let error1 = if not (is_error error) && not bio.uptodate then io_error else error in
      let n = if ltb bio.bi_size nbytes then bio.bi_size else nbytes in
      let bio2 = record bio1 { bi_size = bio1.bi_size - n; bi_sector = bio1.bi_sector + n / 512 } in
      let (item, w') =
        swap_bio k bio2 bio.bi_sector bio.bi_size rq_pos (is_io_error error1) true w in
      if (bio2.bi_size == 0) && not flush_seq
      then (elim item [ none ↦ ended bio2 (is_error error1) | some i ↦ queued i ], w')
      else (waiting bio2, w)

  -- `scsi_done`: the result of a command that is to fail gets driver byte DRIVER_INVALID (5) and
  -- host byte DID_ABORT (5).
  unfoldable pub scsi_done : Bytes → ℕ → World E → ℕ
  scsi_done cdb result w = if scmd_should_be_bad cdb w then bit_or result 0x05050000 else result

-- The end of `read_capacity` in sd.c: the capacity in 512-byte sectors, less the reserved ones.
unfoldable pub rescale_capacity : ℕ → ℕ → ℕ
rescale_capacity sector_size capacity =
    if sector_size == 4096
    then capacity * 8
    else (if sector_size == 2048
        then capacity * 4
        else (if sector_size == 1024
            then capacity * 2
            else (if sector_size == 256 then capacity / 2 else capacity)))

unfoldable pub reserve_capacity : Bool → ℕ → ℕ → Option Bytes → ℕ
reserve_capacity first_scan old_capacity capacity proc_name =
    let reserved = scsi_get_reserve_sectors_for_swap proc_name in
    if first_scan || (old_capacity != capacity)
    then (if (reserved != 0) && ltb reserved capacity then capacity - reserved else capacity)
    else capacity
