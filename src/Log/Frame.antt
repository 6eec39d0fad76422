-- ===== src/Log/Frame.antt =====
-- log.c: what a log push leaves alone.
use scsiswap.Base.{Bytes, length, le_bytes, ◌∙◌, refl, some, ◌≡◌, ℕ, ◌-◌, ◌==◌, leb, not, arith}
use mathlib.Core.Path.{subst}
use scsiswap.Kernel.{Kernel}
use scsiswap.Ring.Refine.{IsValid, push-IsValid}
use scsiswap.Format.{LogItem, LogHead, log_item_bytes}
use scsiswap.Ring.{cspring_update, put_item, cspring_push, Ring, cspring_peek}
use scsiswap.State.{World, Log, is_ok}
use scsiswap.Ensures.{Ensures, bind_rule, deref_rule, weaken, if_rule}
use scsiswap.Io.{hd_write_sector_no_retry}
use scsiswap.Io.Effects.{
  HasLog, IsCalm, IsCalm-refl, IsCalm-trans, env-IsCalm, hd_write_sector-IsCalm,
}
use scsiswap.Log.{
  scsi_swap_log_peek, scsi_swap_log_last, scsi_swap_log_item_init, scsi_swap_log_update_data,
  scsi_swap_log_update_head, scsi_swap_log_push,
}

-- `sizeof(struct scsi_swap_log_item)`
pub length-log_item_bytes : (i : LogItem) → length (log_item_bytes i) ≡ 32
unfolding log_item_bytes le_bytes
length-log_item_bytes i = refl

-- A push to the ring of a log does not fault, and leaves one that can be pushed to.
pub push-Valid :
    (r : Ring) (item : LogItem)
    → IsValid r
    → r.item_size ≡ 32
    → (p : ℕ × Ring) × (cspring_push r (log_item_bytes item) ≡ some p) × IsValid p.1
push-Valid r item valid size =
    push-IsValid (log_item_bytes item) valid (omega (arith, length-log_item_bytes item, size))

-- Its slots keep their size.
push_size :
    (r : Ring) (x : Bytes) (p : ℕ × Ring) → cspring_push r x ≡ some p → p.1.item_size ≡ r.item_size
unfolding cspring_push put_item cspring_update
push_size r x p e = ground arith

pushed-HasLog :
    (l : Log) (r : Ring) (item : LogItem) (p : ℕ × Ring)
    → l.ring ≡ some r
    → cspring_push r (log_item_bytes item) ≡ some p
    → HasLog l
    → HasLog (record l { ring = some p.1 })
pushed-HasLog l r item p found run h =
    let same : h.ring ≡ r = cc (found, h.held) in
    let (valid, sized) = subst (λ q. IsValid q × (q.item_size ≡ 32)) same (h.valid, h.sized) in
    let (q, run', kept) = push-Valid r item valid sized in
    let again : q ≡ p = cc (run, run') in
    record {
      ring = p.1;
      held = refl;
      valid = subst (λ q. IsValid q.1) again kept;
      sized = push_size r (log_item_bytes item) p run ∙ sized;
    }

same_ring-HasLog : (l : Log) (h : LogHead) → HasLog l → HasLog (record l { head = h })
same_ring-HasLog l h has = record {
  ring = has.ring;
  held = has.held;
  valid = has.valid;
  sized = has.sized;
}

module _ {E : Type 0} (k : Kernel E) where
  log-IsCalm : (w : World E) (l : Log) → (HasLog w.log → HasLog l) → IsCalm w (record w { log = l })
  log-IsCalm w l keeps = ground arith

  peek-IsCalm :
      (r : Ring) (i : ℕ) (w : World E) → Ensures (λ _ v. IsCalm w v) (scsi_swap_log_peek r i w)
  unfolding scsi_swap_log_peek
  peek-IsCalm r i w =
      if_rule (leb r.item_num i) _ _ (λ _ v. IsCalm w v) w (IsCalm-refl w)
        (deref_rule (cspring_peek r i) _ (λ _ v. IsCalm w v) w (λ _ _. IsCalm-refl w))

  last-IsCalm : (w : World E) → Ensures (λ _ v. IsCalm w v) (scsi_swap_log_last w)
  unfolding scsi_swap_log_last
  last-IsCalm w =
      deref_rule w.log.ring _ (λ _ v. IsCalm w v) w
        (λ r _.
          if_rule (r.item_num == 0) _ _ (λ _ v. IsCalm w v) w (IsCalm-refl w)
            (peek-IsCalm r (r.item_num - 1) w))

  pub init-IsCalm :
      (t s src dst n : ℕ) (w : World E)
      → Ensures (λ _ v. IsCalm w v) (scsi_swap_log_item_init k t s src dst n w)
  unfolding scsi_swap_log_item_init
  init-IsCalm t s src dst n w =
      let w' = record w { env = (k.getnstimeofday w.env).1 } in
      bind_rule scsi_swap_log_last _ (λ _ v. IsCalm w' v) (λ _ v. IsCalm w v) w' (last-IsCalm w')
        (λ _ v c. IsCalm-trans (env-IsCalm k w _) c)

  pub update_data-IsCalm :
      (item : LogItem) (w : World E)
      → Ensures (λ _ v. IsCalm w v) (scsi_swap_log_update_data k item w)
  unfolding scsi_swap_log_update_data hd_write_sector_no_retry
  update_data-IsCalm item w =
      deref_rule w.log.ring _ (λ _ v. IsCalm w v) w
        (λ r found.
          deref_rule (cspring_push r (log_item_bytes item)) _ (λ _ v. IsCalm w v) w
            (λ p run.
              IsCalm-trans (log-IsCalm w _ (pushed-HasLog w.log r item p found run))
                (hd_write_sector-IsCalm k _ _ _ _ _ _ _)))

  update_head-IsCalm : (w : World E) → Ensures (λ _ v. IsCalm w v) (scsi_swap_log_update_head k w)
  unfolding scsi_swap_log_update_head hd_write_sector_no_retry
  update_head-IsCalm w =
      deref_rule w.log.ring _ (λ _ v. IsCalm w v) w
        (λ r _.
          IsCalm-trans (log-IsCalm w _ (same_ring-HasLog w.log _))
            (hd_write_sector-IsCalm k _ _ _ _ _ _ _))

  -- Pushing a log entry changes nothing of the core but the deaths of the device.
  pub push-IsCalm :
      (t s src dst n : ℕ) (w : World E)
      → Ensures (λ _ v. IsCalm w v) (scsi_swap_log_push k t s src dst n w)
  unfolding scsi_swap_log_push
  push-IsCalm t s src dst n w =
      bind_rule (scsi_swap_log_item_init k t s src dst n) _ (λ _ v. IsCalm w v) (λ _ v. IsCalm w v)
        w (init-IsCalm t s src dst n w)
        (λ item v c.
          bind_rule (scsi_swap_log_update_data k item) _ (λ _ u. IsCalm v u) (λ _ u. IsCalm w u) v
            (update_data-IsCalm item v)
            (λ st u d.
              if_rule (not (is_ok st)) _ _ (λ _ x. IsCalm w x) u (IsCalm-trans c d)
                (weaken (scsi_swap_log_update_head k u) (λ _ x. IsCalm u x) (λ _ x. IsCalm w x)
                  (update_head-IsCalm u) (λ _ x e. IsCalm-trans (IsCalm-trans c d) e))))
