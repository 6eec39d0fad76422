-- ===== src/Sim/Undo.antt =====
-- sim.c: a sector that was added is removed again.
use scsiswap.State.{SimNode, World}
use scsiswap.Sim.{remove_node, scsi_swap_sim_add, scsi_swap_sim_remove}
use scsiswap.Base.{==_iff, List, [], ap, ne→==_false, refl, true, u32, ℕ, ◌++◌, ◌∷◌, ◌≡◌, ◌≢◌}
use scsiswap.Kernel.{Kernel}

-- No simulated bad sectors begin at the sector.
abbrev pub IsNew : ℕ → List SimNode → Type 0
IsNew sector [] = Unit
IsNew sector (node ∷ nodes) = (node.start ≢ sector) × IsNew sector nodes

remove_node-last :
    (sector num : ℕ) (nodes : List SimNode)
    → IsNew sector nodes
    → remove_node sector (nodes ++ record { start = sector; num = num } ∷ []) ≡ nodes
unfolding remove_node
remove_node-last sector num [] new = rw ((==_iff sector sector).1 refl) refl
remove_node-last sector num (node ∷ nodes) new =
    rw (ne→==_false node.start sector new.0)
      (ap (λ t. node ∷ t) (remove_node-last sector num nodes new.1))

module _ {E : Type 0} (k : Kernel E) where
  -- The simulated bad sectors are what they were behind an addition and a removal of the same
  -- sector, whatever the counts; the memory was to be had, and no bad sectors began there before.
  pub scsi_swap_sim_remove-add :
      (sector num other : ℕ) (w : World E)
      → (k.kmalloc 32 w.env).0 ≡ true
      → IsNew sector w.sim
      → (scsi_swap_sim_remove sector other (scsi_swap_sim_add k sector num w).1).1.sim ≡ w.sim
  unfolding scsi_swap_sim_remove scsi_swap_sim_add
  scsi_swap_sim_remove-add sector num other w got new =
      rw got (remove_node-last sector (u32 num) w.sim new)
