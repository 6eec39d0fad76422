-- ===== src/Bio/Workqueue.antt =====
-- drivers/scsi/swap/swap.c: the work queue "blkswap", made when sd.c is loaded.
use scsiswap.Base.{Bool, if◌then◌else◌}
use scsiswap.State.{Status, ok, fail}

-- The workqueue is the kernel's: whether it was made is its answer, kept in `g_swap_wq`.
module _ {E : Type 0} (create_workqueue : E → Bool × E) (destroy_workqueue : E → E) where
  unfoldable pub module_scsi_swap_init : E → Status × Bool × E
  module_scsi_swap_init e =
      let (g_swap_wq, e') = create_workqueue e in
      if g_swap_wq then (ok, g_swap_wq, e') else (fail, g_swap_wq, e')

  unfoldable pub module_scsi_swap_exit : E → Status × E
  module_scsi_swap_exit e = (ok, destroy_workqueue e)
