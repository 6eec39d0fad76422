-- ===== src/Block/Attach.antt =====
-- drivers/scsi/sd.c: a disk comes and goes, as far as its swaps are concerned. What sd.c does in
-- between is a change of the outside world.
use scsiswap.Bio.Start.{Serves}
use scsiswap.Yields.{Yields, yield_bind}
use scsiswap.Sysfs.Register.{
  is_negative, Kobjects, scsi_swap_register_sysfs, scsi_swap_unregister_sysfs,
}
use scsiswap.Bio.Life.{scsi_swap_destroy, scsi_swap_init}
use scsiswap.Requests.{IsServing}
use scsiswap.State.{M, World, lift, modify, pure}
use scsiswap.Base.{minus_one_32, not, Bool, List, false, if◌then◌else◌, true, Bytes, Option, ℕ}
use scsiswap.State.{◌>>=◌, ◌>>◌}
use scsiswap.Kernel.{Kernel}

module _ {E : Type 0} (k : Kernel E) (o : Kobjects E) (add_disk : E → E) (shutdown : E → E) where
  -- `sd_probe_async`: the results of the start and of the registration are not looked at.
  unfoldable pub sd_probe_async : Option Bytes → ℕ → M E (Unit {0})
  sd_probe_async proc_name capacity = do
    s ← scsi_swap_init k proc_name capacity
    modify (λ w. record w { env = add_disk w.env })
    ret ← lift (scsi_swap_register_sysfs o)
    pure tt

  -- `sd_remove`
  unfoldable pub sd_remove : World E → World E
  sd_remove w =
      let (ret, w1) = scsi_swap_unregister_sysfs o w in
      (scsi_swap_destroy k (record w1 { env = shutdown w1.env })).1

  -- A change of the outside world alone.
  served_outside : (w : World E) (e : E) → IsServing 0 w → IsServing 0 (record w { env = e })
  served_outside w e h = record {
    ready = record { log = h.ready.log; buffers = h.ready.buffers };
    sound = h.sound;
    same = h.same;
  }

  by_answer :
      (b : Bool) (x y : ℕ × World E)
      → IsServing 0 x.1
      → IsServing 0 y.1
      → IsServing 0 (if b then x else y).1
  by_answer true x y p q = p
  by_answer false x y p q = q

  register-IsServing : (w : World E) → IsServing 0 w → IsServing 0 (scsi_swap_register_sysfs o w).1
  unfolding scsi_swap_register_sysfs
  register-IsServing w h =
      let (ret, e) = o.kobject_add (o.kobject_get (o.kobject_init w.env)) in
      let added : ℕ × World E = (0, record w { env = o.kobject_uevent_add e }) in
      let failed : ℕ × World E = (ret, record w { env = e }) in
      by_answer (not w.enable) (minus_one_32, w) (if is_negative ret then failed else added) h
        (by_answer (is_negative ret) failed added (served_outside w e h)
          (served_outside w (o.kobject_uevent_add e) h))

  -- A disk whose swaps were saved is served from its probe on, as far as sd.c's other steps leave
  -- the handler alone.
  pub sd_probe_async-IsServing :
      (proc_name : Option Bytes) (capacity : ℕ) (bitmap : List Bool) (u : World E)
      → Yields (Serves bitmap) (scsi_swap_init k proc_name capacity u)
      → Yields (λ _ v. IsServing 0 v) (sd_probe_async proc_name capacity u)
  unfolding sd_probe_async
  sd_probe_async-IsServing proc_name capacity bitmap u started =
      yield_bind (scsi_swap_init k proc_name capacity) _ (Serves bitmap) (λ _ v. IsServing 0 v) u
        started
        (λ s v h.
          register-IsServing (record v { env = add_disk v.env })
            (served_outside v (add_disk v.env) h.serving))
