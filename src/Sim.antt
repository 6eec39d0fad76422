-- ===== src/Sim.antt =====
-- drivers/scsi/swap/sim.c: the list of simulated bad sectors.
pub mod Hits
pub mod Undo
use scsiswap.Base.{
  ℕ, ◌+◌, ◌-◌, Bool, true, false, ◌&&◌, ◌||◌, List, [], ◌∷◌, ◌++◌, Bytes, leb, ltb, ◌==◌,
  if◌then◌else◌, map, u32, u64, extend,
}
use scsiswap.Kernel.{Kernel}
use scsiswap.State.{World, SimNode, Status, ok, fail}
use scsiswap.Show.{show_lines, page_size}

-- `sectorA_hit_sectorB`
unfoldable pub sector_a_hit_sector_b : ℕ → ℕ → ℕ → ℕ → Bool
sector_a_hit_sector_b a_start a_end b_start b_end =
    (leb b_start a_start && leb a_start b_end)
    || ((leb b_start a_end && leb a_end b_end) || (leb a_start b_start && leb b_end a_end))

-- The last sector, `start + num - 1` as a `sector_t`.
abbrev pub last_sector : ℕ → ℕ → ℕ
last_sector start num = u64 (start + num + 18446744073709551615)

-- The search of `scsi_swap_sim_hit`.
unfoldable pub any_hit : ℕ → ℕ → List SimNode → Bool
unfolding sector_a_hit_sector_b
any_hit sector num [] = false
any_hit sector num (node ∷ nodes) =
    sector_a_hit_sector_b sector (last_sector sector (extend num)) node.start
      (last_sector node.start node.num)
    || any_hit sector num nodes

-- The first node that starts at the sector goes.
unfoldable pub remove_node : ℕ → List SimNode → List SimNode
remove_node sector [] = []
remove_node sector (node ∷ nodes) =
    if node.start == sector then nodes else node ∷ remove_node sector nodes

module _ {E : Type 0} where
  unfoldable pub scsi_swap_sim_init : World E → World E
  scsi_swap_sim_init w = record w { sim = [] }

  unfoldable pub scsi_swap_sim_destroy : World E → World E
  scsi_swap_sim_destroy w = record w { sim = [] }

  -- `num` is not looked at.
  unfoldable pub scsi_swap_sim_remove : ℕ → ℕ → World E → Status × World E
  unfolding remove_node
  scsi_swap_sim_remove sector num w = (ok, record w { sim = remove_node sector w.sim })

  unfoldable pub scsi_swap_sim_hit : ℕ → ℕ → World E → Bool
  unfolding any_hit
  scsi_swap_sim_hit sector num w = any_hit sector num w.sim

module _ {E : Type 0} (k : Kernel E) where
  -- `sizeof(struct sim_node)` is 32.
  unfoldable pub scsi_swap_sim_add : ℕ → ℕ → World E → Status × World E
  scsi_swap_sim_add sector num w =
      let (got, e) = k.kmalloc 32 w.env in
      let w' = record w { env = e } in
      if got
      then (ok, record w' { sim = w.sim ++ record { start = sector; num = u32 num } ∷ [] })
      else (fail, w')

  abbrev node_line : SimNode → Bytes
  node_line node = k.format_line (node.start ∷ node.num ∷ [])

  unfoldable pub scsi_swap_sim_show : World E → Bytes
  scsi_swap_sim_show w = show_lines page_size (map node_line w.sim)
