-- ===== src/Bio/Life.antt =====
-- drivers/scsi/swap/swap.c: the adapters whose disks can swap, and the handler's start and end.
use scsiswap.Base.{
  ℕ, ◌+◌, Bool, true, false, ◌&&◌, ◌||◌, not, Option, none, some, [], ◌∷◌, Bytes, ◌==◌,
  if◌then◌else◌,
}
use scsiswap.Kernel.{Kernel}
use scsiswap.Layout.{max_reserved_sector, swap_log_head_offset, swap_log_data_offset}
use scsiswap.Format.{zero_head}
use scsiswap.State.{World, Status, ok, fail, is_ok, M, pure, lift, modify, ◌>>=◌, ◌>>◌}
use scsiswap.Core.Alloc.{kmalloc}
use scsiswap.Core.Start.{scsi_swap_core_init, scsi_swap_core_destroy}
use scsiswap.Log.{scsi_swap_log_init, scsi_swap_log_destroy}
use scsiswap.Sim.{scsi_swap_sim_init, scsi_swap_sim_destroy}

-- `swap_filter_table`
abbrev pub mv64xx : Bytes
mv64xx = b'm' ∷ b'v' ∷ b'6' ∷ b'4' ∷ b'x' ∷ b'x' ∷ []

abbrev pub pm8001 : Bytes
pm8001 = b'p' ∷ b'm' ∷ b'8' ∷ b'0' ∷ b'0' ∷ b'1' ∷ []

unfoldable pub same_bytes : Bytes → Bytes → Bool
same_bytes [] [] = true
same_bytes [] (y ∷ ys) = false
same_bytes (x ∷ xs) [] = false
same_bytes (x ∷ xs) (y ∷ ys) = x == y && same_bytes xs ys

-- `scsi_device_can_swap`, on the host's `proc_name`; none where a pointer on the way is null.
unfoldable pub scsi_device_can_swap : Option Bytes → Bool
unfolding same_bytes
scsi_device_can_swap none = false
scsi_device_can_swap (some proc_name) = same_bytes proc_name mv64xx || same_bytes proc_name pm8001

unfoldable pub scsi_get_reserve_sectors_for_swap : Option Bytes → ℕ
unfolding scsi_device_can_swap
scsi_get_reserve_sectors_for_swap proc_name =
    if scsi_device_can_swap proc_name then max_reserved_sector else 0

module _ {E : Type 0} (k : Kernel E) where
  -- The handler as `kzalloc` leaves it.
  abbrev pub clear_handler : World E → World E
  clear_handler w = record w {
    core = record {
      device_dead = 0;
      info_num = 0;
      user = 0;
      head = zero_head;
      info_list = [];
      sector_reserve_start = 0;
      sector_head = 0;
      sector_table = 0;
      sector_data = 0;
    };
    log = record {
      head = record { crc = 0; item_num = 0; item_next = 0 };
      ring = none;
      sector_head = 0;
      sector_data = 0;
    };
    sim = [];
  }

  -- `scsi_swap_init`. The result of the log's start is not looked at.
  unfoldable pub scsi_swap_init : Option Bytes → ℕ → M E Status
  unfolding scsi_device_can_swap
  scsi_swap_init proc_name reserve_sector = do
    let start = do
      got ← lift (kmalloc k 1024)
      let fill = do
        modify clear_handler
        s ← scsi_swap_core_init k reserve_sector
        let rest = do
          logged ←
              scsi_swap_log_init k (reserve_sector + swap_log_head_offset)
                (reserve_sector + swap_log_data_offset)
          modify scsi_swap_sim_init
          modify (λ w. record w { enable = true })
          pure ok
        if is_ok s then rest else pure fail
      if got then fill else pure fail
    if scsi_device_can_swap proc_name then start else pure fail

  unfoldable pub scsi_swap_destroy : World E → Status × World E
  scsi_swap_destroy w =
      if not w.enable
      then (fail, w)
      else (let (s, w1) = scsi_swap_core_destroy k w in
          let (s', w2) = scsi_swap_log_destroy k w1 in (ok, scsi_swap_sim_destroy w2))
