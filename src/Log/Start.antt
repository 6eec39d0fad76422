-- ===== src/Log/Start.antt =====
-- log.c: the start of the log on a working disk.
use scsiswap.Core.Flush.Stores.{fresh}
use scsiswap.Io.Effects.{HasLog}
use scsiswap.Ring.Refine.{IsValid}
use mathlib.Core.Path.{subst}
use scsiswap.Disk.{sectors_one, length-sectors, read_once, sectors, Disk}
use scsiswap.Format.{log_head_of, LogHead}
use scsiswap.Log.{scsi_swap_log_init, scsi_swap_log_load, load_items, scsi_swap_log_crc_head}
use scsiswap.State.{
  eio, enodev, may_dirty, M, deref, gets, ◌>>=◌, fail, is_ok, pure, Status, World, ok,
}
use scsiswap.Yields.{yield_bind, yield_weaken, Yields, yield_deref, yield_test}
use scsiswap.Base.{
  Option, none, replicate, arith, false, if◌then◌else◌, length-replicate, not, sym, ◌∙◌, Bytes,
  length, refl, some, ℕ, ◌!=◌, ◌+◌, ◌<◌, ◌≡◌, ◌≤◌,
}
use scsiswap.Ring.{cspring_create, Ring}
use scsiswap.Kernel.{Kernel}

-- A log head whose checksum is right has counters of the ring: at most 512 items, the next one inside.
abbrev pub HasCounters : LogHead → Type 0
HasCounters h = h.crc ≡ scsi_swap_log_crc_head h → (h.item_num ≤ 512) × (h.item_next < 512)

module _ {E : Type 0} {k : Kernel E} (d : Disk k) where
  -- Behind a load: a ring of the log's size that is empty, and the head's counters if it was good.
  record Loaded (w : World E) (s : Status) (v : World E) : Type 0 where
    ring : Ring
    held : v.log.ring ≡ some ring
    cap : ring.item_cap ≡ 512
    size : ring.item_size ≡ 32
    memory : length ring.buffer ≡ 16384
    num : ring.item_num ≡ 0
    next_slot : ring.item_next ≡ 0
    counters : s ≡ ok → (v.log.head.item_num ≤ 512) × (v.log.head.item_next < 512)
    core : v.core ≡ w.core
    content : d.content v.env ≡ d.content w.env

  -- An empty ring of the log's size.
  abbrev empty_ring : Bytes → Ring
  empty_ring bytes = record {
    item_cap = 512;
    item_size = 32;
    item_num = 0;
    item_next = 0;
    buffer = bytes;
  }

  load_items-Loaded :
      (h : LogHead) (bytes : Bytes) (w : World E)
      → w.log.ring ≡ some (empty_ring bytes)
      → length bytes ≡ 16384
      → w.log.sector_data + 32 < 4294967296
      → HasCounters h
      → Yields (Loaded w) (load_items k h w)
  unfolding load_items
  load_items-Loaded h bytes w held sized small counters =
      let w1 : World E = record w { log = record w.log { head = h } } in
      let (e, run, same) =
        read_once d w.log.sector_data 32 16384 bytes w1 small (omega arith) refl sized in
      yield_deref w.log.ring (empty_ring bytes) _ (Loaded w) w1 held (
        yield_test (h.crc != scsi_swap_log_crc_head h) _ _
          (λ b. (h.crc != scsi_swap_log_crc_head h) ≡ b) (Loaded w) w1 refl
          (λ bad. record {
            ring = empty_ring bytes;
            held = held;
            cap = refl;
            size = refl;
            memory = sized;
            num = refl;
            next_slot = refl;
            counters = λ e. cc;
            core = refl;
            content = refl;
          })
          (λ good.
            subst
              (λ r.
                Loaded w r.0.0
                  (record r.1 { log = record r.1.log { ring = some (empty_ring r.0.1) } }))
              (sym run)
              (record {
                ring = empty_ring (sectors (d.content w.env) w.log.sector_data 32);
                held = refl;
                cap = refl;
                size = refl;
                memory = length-sectors (d.content w.env) w.log.sector_data 32 (d.size w.env);
                num = refl;
                next_slot = refl;
                counters = λ _. counters (checked good);
                core = refl;
                content = same;
              })))
    where
      checked : {a b : ℕ} → (a != b) ≡ false → a ≡ b
      checked good = ground arith

  load-Loaded :
      (bytes : Bytes) (w : World E)
      → w.log.ring ≡ some (empty_ring bytes)
      → length bytes ≡ 16384
      → w.log.sector_head + 1 < 4294967296
      → w.log.sector_data + 32 < 4294967296
      → HasCounters (log_head_of (d.content w.env w.log.sector_head))
      → Yields (Loaded w) (scsi_swap_log_load k w)
  unfolding scsi_swap_log_load
  load-Loaded bytes w held sized small small' counters =
      let (e, run, same) =
        read_once d w.log.sector_head 1 512 (replicate 512 0) w small (omega arith) refl
          (length-replicate 512 0) in
      let w1 : World E = record w { env = e } in
      let loaded =
        load_items-Loaded (log_head_of (sectors (d.content w.env) w.log.sector_head 1)) bytes w1
          held sized small' (rw (sectors_one (d.content w.env) w.log.sector_head) counters) in
      subst
        (λ r.
          Yields (Loaded w)
            ((if not (is_ok r.0.0) then pure fail else load_items k (log_head_of r.0.1)) r.1))
        (sym run)
        (yield_weaken
          (load_items k (log_head_of (sectors (d.content w.env) w.log.sector_head 1)) w1)
          (Loaded w1) (Loaded w) loaded
          (λ s v l. record {
            ring = l.ring;
            held = l.held;
            cap = l.cap;
            size = l.size;
            memory = l.memory;
            num = l.num;
            next_slot = l.next_slot;
            counters = l.counters;
            core = l.core;
            content = l.content ∙ same;
          }))

  -- The log behind a start: its ring is there and valid, and nothing else changed.
  pub record Logged (w v : World E) : Type 0 where
    pub log : HasLog v.log
    pub core : v.core ≡ w.core
    pub content : d.content v.env ≡ d.content w.env

  -- What the start does behind the load, and with the ring.
  abbrev take_counters : Status → Ring → M E Status
  take_counters s r' = if not (is_ok s) then pure fail else (λ x. some (
    ok,
    record x {
      log = record x.log {
        ring =
            some (record r' { item_num = x.log.head.item_num; item_next = x.log.head.item_next });
      };
    },
  ))

  abbrev after_ring : ℕ → ℕ → Option Ring → M E Status
  after_ring head at none w = some (fail, record w { log = record w.log { ring = none } })
  after_ring head at (some r) w =
      (scsi_swap_log_load k
          >>= (λ s. gets (λ v. v.log.ring) >>= (λ o. deref o >>= take_counters s)))
        (record w { log = record w.log { ring = some r; sector_head = head; sector_data = at } })

  init_parts :
      (head at : ℕ) (w : World E)
      → let e1 = (k.kmalloc 16384 w.env).1 in
        scsi_swap_log_init k head at w
        ≡ after_ring head at
            (some (empty_ring (k.fresh_memory 16384 e1)))
            (record w { env = (k.kmalloc 16384 e1).1 })
  unfolding scsi_swap_log_init cspring_create
  init_parts head at w =
      rw ((d.alloc 16384 w.env).0, (d.alloc 16384 (k.kmalloc 16384 w.env).1).0) refl

  failed_not : (s : Status) → not (is_ok s) ≡ false → s ≡ ok
  failed_not ok e = refl
  failed_not fail e = cc
  failed_not eio e = cc
  failed_not enodev e = cc
  failed_not may_dirty e = cc

  -- The loaded ring is valid with any counters in range.
  loaded-IsValid :
      {w v : World E} {s : Status} (l : Loaded w s v) (num next_slot : ℕ)
      → num ≤ 512
      → next_slot < 512
      → IsValid (record l.ring { item_num = num; item_next = next_slot })
  loaded-IsValid l num next_slot num_in next_in = record {
    some_cap = omega (arith, l.cap);
    num_in = rw l.cap num_in;
    next_in = rw l.cap next_in;
    memory = rw (l.cap, l.size) l.memory;
  }

  counted-Logged :
      (w v : World E) (s : Status)
      → Loaded w s v
      → Yields (λ _ u. Logged w u) ((deref v.log.ring >>= take_counters s) v)
  counted-Logged w v s l =
      yield_deref v.log.ring l.ring (take_counters s) (λ _ u. Logged w u) v l.held
        (yield_test (not (is_ok s)) _ _ (λ b. not (is_ok s) ≡ b) (λ _ u. Logged w u) v refl
          (λ bad. record {
            log = record {
              ring = l.ring;
              held = l.held;
              valid =
                  loaded-IsValid l l.ring.item_num l.ring.item_next (omega (arith, l.num))
                    (omega (arith, l.next_slot));
              sized = l.size;
            };
            core = l.core;
            content = l.content;
          })
          (λ good. record {
            log = record {
              ring = _;
              held = refl;
              valid =
                  let (num_in, next_in) = l.counters (failed_not s good) in
                  loaded-IsValid l v.log.head.item_num v.log.head.item_next num_in next_in;
              sized = l.size;
            };
            core = l.core;
            content = l.content;
          }))

  -- On a working disk whose log head, if its checksum is right, has counters of the ring, the start
  -- of the log returns, and leaves a valid ring of log items, the core and the disk as they were.
  pub scsi_swap_log_init-Logged :
      (head at : ℕ) (w : World E)
      → ((n : ℕ) (e : E) → length (k.fresh_memory n e) ≡ n)
      → head + 1 < 4294967296
      → at + 32 < 4294967296
      → HasCounters (log_head_of (d.content w.env head))
      → Yields (λ _ v. Logged w v) (scsi_swap_log_init k head at w)
  scsi_swap_log_init-Logged head at w fresh small small' counters =
      let e1 = (k.kmalloc 16384 w.env).1 in
      let e2 = (k.kmalloc 16384 e1).1 in
      let same : d.content e2 ≡ d.content w.env = (d.alloc 16384 e1).1 ∙ (d.alloc 16384 w.env).1 in
      let ring = empty_ring (k.fresh_memory 16384 e1) in
      let w1 : World E = record w {
        env = e2;
        log = record w.log { ring = some ring; sector_head = head; sector_data = at };
      } in
      subst (Yields (λ _ v. Logged w v)) (sym (init_parts head at w)) (
        yield_bind (scsi_swap_log_load k) _ (Loaded w1) (λ _ v. Logged w v) w1
          (load-Loaded (k.fresh_memory 16384 e1) w1 refl (fresh 16384 e1) small small'
            (rw same counters))
          (λ s v l.
            yield_weaken ((deref v.log.ring >>= take_counters s) v) (λ _ u. Logged w1 u)
              (λ _ u. Logged w u) (counted-Logged w1 v s l)
              (λ _ u g. record { log = g.log; core = g.core; content = g.content ∙ same })))
