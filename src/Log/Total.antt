-- ===== src/Log/Total.antt =====
-- log.c: a push to a log with a ring does not fault.
use scsiswap.Format.{LogItem}
use scsiswap.Ring.{Ring, cspring_push, cspring_peek}
use scsiswap.Format.{log_item_bytes}
use scsiswap.Base.{leb, not, ℕ, ◌-◌, ◌==◌}
use scsiswap.Yields.{Yields, both, yield_bind, yield_deref, yield_if, yield_weaken}
use scsiswap.State.{World, is_ok}
use scsiswap.Io.Effects.{HasLog, IsCalm}
use scsiswap.Log.{
  scsi_swap_log_item_init, scsi_swap_log_last, scsi_swap_log_peek, scsi_swap_log_push,
  scsi_swap_log_update_data, scsi_swap_log_update_head,
}
use scsiswap.Log.Frame.{push-Valid, init-IsCalm, push-IsCalm, update_data-IsCalm}
use scsiswap.Ring.Refine.{IsValid, cspring_peek_lem}
use scsiswap.Kernel.{Kernel}

module _ {E : Type 0} (k : Kernel E) where
  abbrev Any : {A : Type 0} → A → World E → Type 0
  Any _ _ = Unit

  peek-Yields : (r : Ring) (i : ℕ) (w : World E) → IsValid r → Yields Any (scsi_swap_log_peek r i w)
  unfolding scsi_swap_log_peek
  peek-Yields r i w valid =
      yield_if (leb r.item_num i) _ _ Any w tt
        (yield_deref (cspring_peek r i) _ _ Any w (cspring_peek_lem i valid) tt)

  init-Yields :
      (t s src dst n : ℕ) (w : World E)
      → HasLog w.log
      → Yields Any (scsi_swap_log_item_init k t s src dst n w)
  unfolding scsi_swap_log_item_init scsi_swap_log_last
  init-Yields t s src dst n w h =
      let w' = record w { env = (k.getnstimeofday w.env).1 } in
      yield_bind scsi_swap_log_last _ Any Any w'
        (yield_deref w.log.ring h.ring _ Any w' h.held (
          yield_if (h.ring.item_num == 0) _ _ Any w' tt
            (peek-Yields h.ring (h.ring.item_num - 1) w' h.valid)))
        (λ _ v _. tt)

  update_data-Yields :
      (item : LogItem) (w : World E)
      → HasLog w.log
      → Yields Any (scsi_swap_log_update_data k item w)
  unfolding scsi_swap_log_update_data
  update_data-Yields item w h =
      let (p, run, _) = push-Valid h.ring item h.valid h.sized in
      yield_deref w.log.ring h.ring _ Any w h.held
        (yield_deref (cspring_push h.ring (log_item_bytes item)) p _ Any w run tt)

  update_head-Yields : (w : World E) → HasLog w.log → Yields Any (scsi_swap_log_update_head k w)
  unfolding scsi_swap_log_update_head
  update_head-Yields w h = yield_deref w.log.ring h.ring _ Any w h.held tt

  push-Returns :
      (t s src dst n : ℕ) (w : World E)
      → HasLog w.log
      → Yields Any (scsi_swap_log_push k t s src dst n w)
  unfolding scsi_swap_log_push
  push-Returns t s src dst n w h =
      yield_bind (scsi_swap_log_item_init k t s src dst n) _ (λ i v. Any i v × IsCalm w v) Any w
        (both (scsi_swap_log_item_init k t s src dst n w) Any (λ _ v. IsCalm w v)
          (init-Yields t s src dst n w h) (init-IsCalm k t s src dst n w))
        (λ item v (_, c).
          yield_bind (scsi_swap_log_update_data k item) _ (λ i u. Any i u × IsCalm v u) Any v
            (both (scsi_swap_log_update_data k item v) Any (λ _ u. IsCalm v u)
              (update_data-Yields item v (c.logs h)) (update_data-IsCalm k item v))
            (λ st u (_, d).
              yield_if (not (is_ok st)) _ _ Any u tt (update_head-Yields u (d.logs (c.logs h)))))

  -- A push to a log that has a valid ring with slots of 32 bytes returns, whatever its commands do,
  -- and leaves all but the log's contents, the environment and the deaths of the device.
  pub push-Yields :
      (t s src dst n : ℕ) (w : World E)
      → HasLog w.log
      → Yields (λ _ v. IsCalm w v) (scsi_swap_log_push k t s src dst n w)
  push-Yields t s src dst n w h =
      yield_weaken (scsi_swap_log_push k t s src dst n w) _ _
        (both (scsi_swap_log_push k t s src dst n w) Any (λ _ v. IsCalm w v)
          (push-Returns t s src dst n w h) (push-IsCalm k t s src dst n w))
        (λ _ v p. p.1)
