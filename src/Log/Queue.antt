-- ===== src/Log/Queue.antt =====
-- log.c: a log push against the bounded queue of the ring.
use scsiswap.Base.{
  ℕ, ◌+◌, ◌<◌, if◌then◌else◌, u8, u16, u32, ◌-◌, ◌==◌, leb, not, Option, some, none, Bytes, ◌≡◌,
  refl, sym, ap, ◌∙◌, arith,
}
use mathlib.Core.Path.{subst}
use scsiswap.Kernel.{Kernel}
use scsiswap.Format.{LogItem, log_item_bytes, log_item_of}
use scsiswap.Ring.{Ring, cspring_peek, cspring_push}
use scsiswap.Ring.Refine.{IsValid}
use scsiswap.Ring.Queue.{contents, keep_last, contents-push}
use scsiswap.State.{World, Status, pure, is_ok}
use scsiswap.Ensures.{Ensures, bind_rule, deref_rule, weaken, if_rule, test_rule}
use scsiswap.Io.{finish, hd_write_sector, hd_write_sector_no_retry}
use scsiswap.Log.Total.{push-Yields}
use scsiswap.Log.Frame.{length-log_item_bytes}
use scsiswap.Yields.{Yields, yield_weaken, both}
use scsiswap.Log.{
  build_item, zero_item, counts_of, scsi_swap_log_peek, scsi_swap_log_last, scsi_swap_log_item_init,
  scsi_swap_log_update_data, scsi_swap_log_update_head, scsi_swap_log_push,
}

-- The newest item of a ring, none in an empty one.
abbrev pub Newest : Ring → Option LogItem → Type 0
Newest r none = r.item_num ≡ 0
Newest r (some last) =
    (0 < r.item_num)
    × (b : Bytes) × (cspring_peek r (r.item_num - 1) ≡ some b)
    × (last ≡ log_item_of b)

-- The counts of an item behind `last`: one more swap than there.
abbrev pub Follows : Option LogItem → LogItem → Type 0
Follows none item = (item.curr_count ≡ 1) × (item.fix_count ≡ 0) × (item.reboot_count ≡ 0)
Follows (some last) item =
    (item.curr_count ≡ u8 (last.curr_count + 1))
    × (item.fix_count ≡ last.fix_count)
    × (item.reboot_count ≡ last.reboot_count)

-- The item tells of a push to a ring `r` at a time `now`.
pub record Says (now type_of result src dst count : ℕ) (r : Ring) (item : LogItem) : Type 0 where
  pub time : item.time ≡ u32 now
  pub from : item.sec_src ≡ src
  pub to : item.sec_dst ≡ dst
  pub num : item.sec_count ≡ u16 count
  pub kind : item.type_of ≡ u8 type_of
  pub outcome : item.result ≡ u8 result
  pub last : Option LogItem
  pub newest : Newest r last
  pub counts : Follows last item

-- The ring of a world is that of a ring `r` after `item` was pushed.
pub record Pushed {E : Type 0} (r : Ring) (item : LogItem) (v : World E) : Type 0 where
  pub ring : Ring
  pub held : v.log.ring ≡ some ring
  pub queue : contents ring ≡ keep_last r.item_cap (contents r) (log_item_bytes item)

-- It is so for an item that tells of the push.
abbrev pub Logs : {E : Type 0} → ℕ → ℕ → ℕ → ℕ → ℕ → ℕ → Ring → World E → Type 0
Logs now type_of result src dst count r v =
    (item : LogItem) × Says now type_of result src dst count r item × Pushed r item v

build-Says :
    (now type_of result src dst count : ℕ) (r : Ring) (last : Option LogItem)
    → Newest r last
    → Says now type_of result src dst count r (build_item now last type_of result src dst count)
unfolding build_item zero_item counts_of
build-Says now type_of result src dst count r none newest = record {
  time = refl;
  from = refl;
  to = refl;
  num = refl;
  kind = refl;
  outcome = refl;
  last = none;
  newest = newest;
  counts = (refl, refl, refl);
}
build-Says now type_of result src dst count r (some last) newest = record {
  time = refl;
  from = refl;
  to = refl;
  num = refl;
  kind = refl;
  outcome = refl;
  last = some last;
  newest = newest;
  counts = (refl, refl, refl);
}

module _ {E : Type 0} (k : Kernel E) where
  write-log :
      (sector num : ℕ) (buf : Option Bytes) (len timeout retries : ℕ) (w : World E)
      → (hd_write_sector k sector num buf len timeout retries w).1.log ≡ w.log
  unfolding hd_write_sector finish
  write-log sector num none len timeout retries w = refl
  write-log sector num (some buf) len timeout retries w = ground arith

  write-Pushed :
      (r : Ring) (item : LogItem) (sector num : ℕ) (buf : Option Bytes) (len timeout retries : ℕ)
      (w : World E)
      → Pushed r item w
      → Pushed r item (hd_write_sector k sector num buf len timeout retries w).1
  write-Pushed r item sector num buf len timeout retries w p = record {
    ring = p.ring;
    held = ap (λ l. l.ring) (write-log sector num buf len timeout retries w) ∙ p.held;
    queue = p.queue;
  }

  write-ring :
      (o : Option Ring) (sector num : ℕ) (buf : Option Bytes) (len timeout retries : ℕ)
      (w : World E)
      → w.log.ring ≡ o
      → (hd_write_sector k sector num buf len timeout retries w).1.log.ring ≡ o
  write-ring o sector num buf len timeout retries w h =
      ap (λ l. l.ring) (write-log sector num buf len timeout retries w) ∙ h

  -- The last item is the newest of the ring, and the log stays.
  last-Newest :
      (r : Ring) (w : World E)
      → w.log.ring ≡ some r
      → Ensures (λ o v. (v.log ≡ w.log) × Newest r o) (scsi_swap_log_last w)
  unfolding scsi_swap_log_last scsi_swap_log_peek
  last-Newest r w held = deref_rule w.log.ring _ Q w (λ r' found.
      subst
        (λ q.
          Ensures Q
            ((if q.item_num == 0 then pure none else scsi_swap_log_peek q (q.item_num - 1)) w))
        (let same : r ≡ r' = cc in same)
        (test_rule (r.item_num == 0) _ _ (λ b. (r.item_num == 0) ≡ b) Q w refl
          (λ empty. (refl, ground (arith, empty)))
          (λ more.
            test_rule (leb r.item_num (r.item_num - 1)) _ _
              (λ b. leb r.item_num (r.item_num - 1) ≡ b) Q w refl
              (λ beyond. absurd (ground (arith, more, beyond)))
              (λ _.
                deref_rule (cspring_peek r (r.item_num - 1)) _ Q w
                  (λ b e. (refl, (ground (arith, more), b, e, refl)))))))
    where
      Q : Option LogItem → World E → Type 0
      Q o v = (v.log ≡ w.log) × Newest r o

  init-Says :
      (t s src dst n : ℕ) (r : Ring) (w : World E)
      → w.log.ring ≡ some r
      → Ensures
          (λ item v. (v.log ≡ w.log) × Says (k.getnstimeofday w.env).0 t s src dst n r item)
          (scsi_swap_log_item_init k t s src dst n w)
  unfolding scsi_swap_log_item_init
  init-Says t s src dst n r w held =
      let w' = record w { env = (k.getnstimeofday w.env).1 } in
      bind_rule scsi_swap_log_last _ (λ o v. (v.log ≡ w.log) × Newest r o) _ w'
        (last-Newest r w' held)
        (λ last v (same, newest).
          (same, build-Says (k.getnstimeofday w.env).0 t s src dst n r last newest))

  update_data-Pushed :
      (item : LogItem) (r : Ring) (w : World E)
      → w.log.ring ≡ some r
      → IsValid r
      → r.item_size ≡ 32
      → Ensures (λ _ v. Pushed r item v) (scsi_swap_log_update_data k item w)
  unfolding scsi_swap_log_update_data hd_write_sector_no_retry
  update_data-Pushed item r w held valid size =
      deref_rule w.log.ring _ (λ _ v. Pushed r item v) w
        (λ r' found.
          deref_rule (cspring_push r' (log_item_bytes item)) _ (λ _ v. Pushed r item v) w
            (λ p run. write-Pushed r item _ _ _ _ _ _ _ (record {
              ring = p.1;
              held = refl;
              queue =
                  let (q, run', queue) =
                    contents-push (log_item_bytes item) valid
                      (length-log_item_bytes item ∙ sym size) in
                  let same : r ≡ r' = cc in
                  let again : q ≡ p = cc (run, run', same) in
                  subst
                    (λ q. contents q.1 ≡ keep_last r.item_cap (contents r) (log_item_bytes item))
                    again queue;
            })))

  update_head-ring :
      (w : World E) → Ensures (λ _ v. v.log.ring ≡ w.log.ring) (scsi_swap_log_update_head k w)
  unfolding scsi_swap_log_update_head hd_write_sector_no_retry
  update_head-ring w =
      deref_rule w.log.ring _ (λ _ v. v.log.ring ≡ w.log.ring) w
        (λ r _. write-ring w.log.ring _ _ _ _ _ _ _ refl)

  push-Logs :
      (t s src dst n : ℕ) (r : Ring) (w : World E)
      → w.log.ring ≡ some r
      → IsValid r
      → r.item_size ≡ 32
      → Ensures
          (λ _ v. Logs (k.getnstimeofday w.env).0 t s src dst n r v)
          (scsi_swap_log_push k t s src dst n w)
  unfolding scsi_swap_log_push
  push-Logs t s src dst n r w held valid size =
      bind_rule (scsi_swap_log_item_init k t s src dst n) _
        (λ item v. (v.log ≡ w.log) × Says now t s src dst n r item) Q w
        (init-Says t s src dst n r w held)
        (λ item v (same, says).
          bind_rule (scsi_swap_log_update_data k item) _ (λ _ u. Pushed r item u) Q v
            (update_data-Pushed item r v (ap (λ l. l.ring) same ∙ held) valid size)
            (λ st u pushed.
              if_rule (not (is_ok st)) _ _ Q u (item, says, pushed)
                (weaken (scsi_swap_log_update_head k u) (λ _ x. x.log.ring ≡ u.log.ring) Q
                  (update_head-ring u)
                  (λ _ x kept. (
                    item,
                    says,
                    record { ring = pushed.ring; held = kept ∙ pushed.held; queue = pushed.queue },
                  )))))
    where
      now : ℕ
      now = (k.getnstimeofday w.env).0

      Q : Status → World E → Type 0
      Q _ v = Logs now t s src dst n r v

  -- A log push returns, whatever its commands do, and puts one item into the ring that tells of the
  -- push: it has the time of the clock, the source, the destination, the count of sectors, the type
  -- and the result that were handed in, cut to their fields, the counts of fixes and reboots of the
  -- newest item before it, and one swap more than that one. The ring holds what it held before, with
  -- the item at the end, less the oldest item if the ring was full. The ring is valid before, and its
  -- slots have the 32 bytes of an item.
  pub push-Pushed :
      (t s src dst n : ℕ) (r : Ring) (w : World E)
      → w.log.ring ≡ some r
      → IsValid r
      → r.item_size ≡ 32
      → Yields
          (λ _ v. Logs (k.getnstimeofday w.env).0 t s src dst n r v)
          (scsi_swap_log_push k t s src dst n w)
  push-Pushed t s src dst n r w held valid size =
      yield_weaken (scsi_swap_log_push k t s src dst n w) _ _
        (both (scsi_swap_log_push k t s src dst n w) _ _
          (push-Yields k t s src dst n w
            (record { ring = r; held = held; valid = valid; sized = size }))
          (push-Logs t s src dst n r w held valid size))
        (λ _ v (_, logs). logs)
