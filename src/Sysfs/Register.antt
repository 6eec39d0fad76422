-- ===== src/Sysfs/Register.antt =====
-- drivers/scsi/swap/sysfs.c: the kobject "swap" under the disk's. The kernel's functions on
-- kobjects are operations on the outside world.
use scsiswap.State.{World}
use scsiswap.Base.{Bool, if◌then◌else◌, leb, minus_one_32, not, ℕ}

-- `kobject_init` includes the `memset` before it; the result of `kobject_add` is an int's 32 bits.
pub record Kobjects (E : Type 0) : Type 0 where
  pub kobject_init : E → E
  pub kobject_get : E → E
  pub kobject_add : E → ℕ × E
  pub kobject_uevent_add : E → E
  pub kobject_uevent_remove : E → E
  pub kobject_del : E → E
  pub kobject_put : E → E

-- An int below 0.
abbrev pub is_negative : ℕ → Bool
is_negative ret = leb 2147483648 ret

module _ {E : Type 0} (o : Kobjects E) where
  -- The result is an int's 32 bits.
  unfoldable pub scsi_swap_register_sysfs : World E → ℕ × World E
  scsi_swap_register_sysfs w =
      let (ret, e) = o.kobject_add (o.kobject_get (o.kobject_init w.env)) in
      if not w.enable
      then (minus_one_32, w)
      else (if is_negative ret
          then (ret, record w { env = e })
          else (0, record w { env = o.kobject_uevent_add e }))

  unfoldable pub scsi_swap_unregister_sysfs : World E → ℕ × World E
  scsi_swap_unregister_sysfs w =
      if not w.enable
      then (minus_one_32, w)
      else (0, record w { env = o.kobject_put (o.kobject_del (o.kobject_uevent_remove w.env)) })
