-- ===== src/Sysfs.antt =====
-- drivers/scsi/swap/sysfs.c: the attributes "swap", "log" and "simulate", and their dispatch. The
-- lock around a call is taken and given back in the dispatch; calls are taken one after the other.
pub mod Register
use scsiswap.Core.Query.{scsi_swap_core_show}
use scsiswap.Log.{scsi_swap_log_show}
use scsiswap.Sim.{scsi_swap_sim_add, scsi_swap_sim_remove, scsi_swap_sim_show}
use scsiswap.State.{M, Status, World, eio, fail, gets, modify, pure}
use scsiswap.Base.{u64, Bytes, List, Option, [], length, none, some, u32, ℕ, ◌∷◌}
use scsiswap.Kernel.{Kernel}
use scsiswap.State.{◌>>=◌, ◌>>◌}

-- `"add %llu %u"` and `"remove %llu %u"`
abbrev pub add_format : Bytes
add_format = b'a' ∷ b'd' ∷ b'd' ∷ 32 ∷ b'%' ∷ b'l' ∷ b'l' ∷ b'u' ∷ 32 ∷ b'%' ∷ b'u' ∷ []

abbrev pub remove_format : Bytes
remove_format =
    b'r' ∷ b'e' ∷ b'm' ∷ b'o' ∷ b'v' ∷ b'e' ∷ 32 ∷ b'%' ∷ b'l' ∷ b'l' ∷ b'u' ∷ 32 ∷ b'%' ∷ b'u' ∷ []

-- The two numbers, where `sscanf` returns 2.
unfoldable pub two_of : List ℕ → Option (ℕ × ℕ)
two_of (sector ∷ num ∷ []) = some (sector, num)
two_of _ = none

-- What `show` leaves: the text in the page (its length is the result), or a negative errno.
pub data Shown : Type 0 where
  text : Bytes → Shown
  show_error : Status → Shown

-- What `store` returns: the count of bytes taken, or a negative errno.
pub data Stored : Type 0 where
  taken : ℕ → Stored
  store_error : Status → Stored

-- `struct swap_sysfs_entry`, less the name and the mode; none is a null pointer.
pub record Entry (E : Type 0) : Type 0 where
  pub show : Option (M E Bytes)
  pub store : Option (Bytes → ℕ → M E Stored)

module _ {E : Type 0} (k : Kernel E) where
  unfoldable pub swap_swap_show : M E Bytes
  swap_swap_show = gets (scsi_swap_core_show k)

  unfoldable pub swap_swap_store : Bytes → ℕ → M E Stored
  swap_swap_store page count = pure (store_error fail)

  unfoldable pub swap_log_show : M E Bytes
  swap_log_show = scsi_swap_log_show k

  unfoldable pub swap_log_store : Bytes → ℕ → M E Stored
  swap_log_store page count = pure (store_error fail)

  unfoldable pub swap_sim_show : M E Bytes
  swap_sim_show = gets (scsi_swap_sim_show k)

  -- The call that a page asks for; the results of `scsi_swap_sim_add` and `_remove` are dropped.
  unfoldable pub sim_command : Bytes → World E → World E
  unfolding two_of
  sim_command page w = elim (two_of (k.sscanf page add_format)) [
    | some (sector, num) ↦ (scsi_swap_sim_add k (u64 sector) (u32 num) w).1
    | none ↦ elim (two_of (k.sscanf page remove_format)) [
      | some (sector, num) ↦ (scsi_swap_sim_remove (u64 sector) (u32 num) w).1
      | none ↦ w
    ]
  ]

  unfoldable pub swap_sim_store : Bytes → ℕ → M E Stored
  unfolding sim_command
  swap_sim_store page count = do modify (sim_command page); pure (taken count)

  unfoldable pub swap_swap_entry : Entry E
  unfolding swap_swap_show swap_swap_store
  swap_swap_entry = record { show = some swap_swap_show; store = some swap_swap_store }

  unfoldable pub swap_log_entry : Entry E
  unfolding swap_log_show swap_log_store
  swap_log_entry = record { show = some swap_log_show; store = some swap_log_store }

  unfoldable pub swap_sim_entry : Entry E
  unfolding swap_sim_show swap_sim_store
  swap_sim_entry = record { show = some swap_sim_show; store = some swap_sim_store }

  unfoldable pub default_attrs : List (Entry E)
  unfolding swap_swap_entry swap_log_entry swap_sim_entry
  default_attrs = swap_swap_entry ∷ swap_log_entry ∷ swap_sim_entry ∷ []

module _ {E : Type 0} where
  unfoldable pub swap_attr_show : Entry E → M E Shown
  swap_attr_show entry = elim entry.show [
    | none ↦ pure (show_error eio)
    | some show ↦ do res ← show; pure (text res)
  ]

  unfoldable pub swap_attr_store : Entry E → Bytes → ℕ → M E Stored
  swap_attr_store entry page length = elim entry.store [
    | none ↦ pure (store_error eio)
    | some store ↦ store page length
  ]
