-- ===== src/Core/Query.antt =====
-- core.c: what the block layer and sysfs ask of the core.
pub mod Mapped
use scsiswap.Base.{
  ℕ, zero, suc, ◌+◌, ◌-◌, ◌/◌, Bool, true, false, ◌&&◌, Option, none, some, List, [], ◌∷◌, Bytes,
  ltb, ◌==◌, if◌then◌else◌, map, u32, u64, extend,
}
use scsiswap.Kernel.{Kernel}
use scsiswap.Layout.{sector_num_per_swap_block, swap_sector_align}
use scsiswap.State.{World, Info}
use scsiswap.Core.Flush.{swap_find_swap_info}
use scsiswap.Show.{show_lines, page_size}

module _ {E : Type 0} where
  -- The loop of `_did_block_swapped`, with as many rounds as blocks can lie below `end`. They are
  -- used up only where `start` has gone past the last `sector_t`, and the loop goes on from 0.
  unfoldable pub swapped_loop : ℕ → ℕ → ℕ → World E → Bool
  swapped_loop zero start end w = false
  swapped_loop (suc n) start end w = elim (ltb start end) [
    | false ↦ false
    | true ↦ elim (swap_find_swap_info start w) [
      | some _ ↦ true
      | none ↦ swapped_loop n (u64 (start + sector_num_per_swap_block)) end w
    ]
  ]

  -- `_did_block_swapped`, on the pattern of an `int`.
  unfoldable pub did_block_swapped : ℕ → ℕ → World E → Bool
  unfolding swapped_loop
  did_block_swapped sector count w =
      let end = u64 (sector + extend count) in
      let start = swap_sector_align sector in
      swapped_loop (suc ((end - start) / sector_num_per_swap_block)) start end w

  -- `scsi_swap_core_swapped`, of a `u32`
  unfoldable pub scsi_swap_core_swapped : ℕ → ℕ → World E → Bool
  unfolding did_block_swapped
  scsi_swap_core_swapped sector num w = did_block_swapped sector (u32 num) w

  unfoldable pub scsi_swap_core_can_swap : ℕ → ℕ → World E → Bool
  scsi_swap_core_can_swap sector num w =
      (w.core.device_dead == 0) && ltb sector w.core.sector_reserve_start

module _ {E : Type 0} (k : Kernel E) where
  abbrev info_line : Info → Bytes
  info_line info =
      k.format_line (info.table.src_sec ∷ info.table.swap_sec ∷ info.table.sec_size ∷ [])

  unfoldable pub scsi_swap_core_show : World E → Bytes
  scsi_swap_core_show w = show_lines page_size (map info_line w.core.info_list)
