-- ===== src/Log.antt =====
-- drivers/scsi/swap/log.c: the log of created swaps, a ring of 512 items of 32 bytes in memory,
-- written through to 32 sectors with a head sector of its own.
pub mod Frame
pub mod Start
pub mod Queue
pub mod Total
pub mod Reload
use scsiswap.Base.{
  ℕ, zero, suc, ◌+◌, ◌-◌, ◌*◌, ◌/◌, ◌%◌, Bool, true, false, Option, none, some, List, [], ◌∷◌,
  Bytes, ltb, leb, ◌==◌, ◌!=◌, if◌then◌else◌, replicate, overwrite, slice, take, drop, u8, u16, u32,
  u64, not, ◌&&◌,
}
use scsiswap.Kernel.{Kernel}
use scsiswap.Crc32.{swap_crc32}
use scsiswap.Layout.{sector_size}
use scsiswap.Ring.{Ring, cspring_create, cspring_push, cspring_peek}
use scsiswap.Format.{LogHead, LogItem, log_head_bytes, log_head_of, log_item_bytes, log_item_of}
use scsiswap.State.{
  World, Log, Status, ok, fail, is_ok, S, M, pure, oops, lift, gets, modify, deref, ◌>>=◌, ◌>>◌,
}
use scsiswap.Io.{hd_read_sector_no_retry, hd_write_sector_no_retry}
use scsiswap.Show.{show_lines, page_size}

abbrev pub log_max_sector_num : ℕ
log_max_sector_num = 32

abbrev pub log_item_size : ℕ
log_item_size = 32

abbrev pub log_count_per_sector : ℕ
log_count_per_sector = sector_size / log_item_size

-- `enum LOG_TYPE`
abbrev pub log_type_create : ℕ
log_type_create = 0

-- `enum LOG_CREATE_FAILED`, and `LOG_RESULT` of a reason; none is -1.
pub data FailReason : Type 0 where
  maxcount malloc write_dst flush_head : FailReason

abbrev reason_code : FailReason → ℕ
reason_code maxcount = 0
reason_code malloc = 1
reason_code write_dst = 2
reason_code flush_head = 3

unfoldable pub log_result : Option FailReason → ℕ
log_result none = 0
log_result (some r) = 1 + 2 * reason_code r

unfoldable pub scsi_swap_log_crc_head : LogHead → ℕ
scsi_swap_log_crc_head h = swap_crc32 0xffffffff (drop 4 (log_head_bytes h))

unfoldable pub scsi_swap_log_crc_item : LogItem → ℕ
scsi_swap_log_crc_item i = swap_crc32 0xffffffff (drop 4 (log_item_bytes i))

-- `memset(item, 0, sizeof(*item))`
unfoldable pub zero_item : LogItem
zero_item = record {
  crc = 0;
  time = 0;
  sec_src = 0;
  sec_dst = 0;
  sec_count = 0;
  type_of = 0;
  result = 0;
  reboot_count = 0;
  fix_count = 0;
  curr_count = 0;
  reserved = 0;
}

-- The counts that a new item takes over from the last one.
unfoldable pub counts_of : Option LogItem → LogItem → LogItem
counts_of none i = i
counts_of (some last) i = record i {
  reboot_count = last.reboot_count;
  fix_count = last.fix_count;
  curr_count = last.curr_count;
}

-- `scsi_swap_log_item_init`, on the time and the last item: the checksum is taken before the
-- sectors, the type and the result are filled in.
unfoldable pub build_item : ℕ → Option LogItem → ℕ → ℕ → ℕ → ℕ → ℕ → LogItem
unfolding zero_item counts_of scsi_swap_log_crc_item
build_item now last type_of result src dst count =
    let i = counts_of last (record zero_item { time = u32 now }) in
    let j = record i { curr_count = u8 (i.curr_count + 1) } in
    record j {
      crc = scsi_swap_log_crc_item j;
      sec_src = src;
      sec_dst = dst;
      sec_count = u16 count;
      type_of = u8 type_of;
      result = u8 result;
    }

module _ {E : Type 0} where
  abbrev on_log : (Log → Log) → World E → World E
  on_log f w = record w { log = f w.log }

  -- `scsi_swap_log_peek`: none is NULL. A slot before the buffer cannot be read.
  unfoldable pub scsi_swap_log_peek : Ring → ℕ → M E (Option LogItem)
  scsi_swap_log_peek r index =
      if leb r.item_num index
      then pure none
      else do item ← deref (cspring_peek r index); pure (some (log_item_of item))

  unfoldable pub scsi_swap_log_last : M E (Option LogItem)
  unfolding scsi_swap_log_peek
  scsi_swap_log_last = do
    r ← deref (← gets (λ w. w.log.ring))
    if r.item_num == 0 then pure none else scsi_swap_log_peek r (r.item_num - 1)

module _ {E : Type 0} (k : Kernel E) where
  abbrev get_time : S E ℕ
  get_time w = let (t, e) = k.getnstimeofday w.env in (t, record w { env = e })

  unfoldable pub scsi_swap_log_item_init : ℕ → ℕ → ℕ → ℕ → ℕ → M E LogItem
  unfolding scsi_swap_log_last build_item
  scsi_swap_log_item_init type_of result src dst count = do
    now ← lift get_time
    last ← scsi_swap_log_last
    pure (build_item now last type_of result src dst count)

  -- Puts the item into the ring and writes a sector. The offset of the data written is
  -- `i_sector`, in bytes, as in the source.
  unfoldable pub scsi_swap_log_update_data : LogItem → M E Status
  scsi_swap_log_update_data item = do
    r ← deref (← gets (λ w. w.log.ring))
    (start, r') ← deref (cspring_push r (log_item_bytes item))
    modify (on_log (λ l. record l { ring = some r' }))
    let i_sector = start / sector_size
    sector ← gets (λ w. u64 (w.log.sector_data + i_sector))
    lift (
        hd_write_sector_no_retry k sector 1 (some (slice r'.buffer i_sector sector_size))
          sector_size)

  -- The head takes over the ring's counters, and goes out with its checksum.
  unfoldable pub scsi_swap_log_update_head : M E Status
  unfolding scsi_swap_log_crc_head
  scsi_swap_log_update_head = do
    r ← deref (← gets (λ w. w.log.ring))
    h ← gets (λ w. w.log.head)
    let h' = record h { item_num = u16 r.item_num; item_next = u16 r.item_next }
    let h'' = record h' { crc = scsi_swap_log_crc_head h' }
    modify (on_log (λ l. record l { head = h'' }))
    sector ← gets (λ w. w.log.sector_head)
    lift (
        hd_write_sector_no_retry k sector 1
          (some (overwrite (replicate sector_size 0) 0 (log_head_bytes h''))) sector_size)

  unfoldable pub scsi_swap_log_push : ℕ → ℕ → ℕ → ℕ → ℕ → M E Status
  unfolding scsi_swap_log_item_init scsi_swap_log_update_data scsi_swap_log_update_head
  scsi_swap_log_push type_of result src dst count = do
    item ← scsi_swap_log_item_init type_of result src dst count
    s ← scsi_swap_log_update_data item
    if not (is_ok s) then pure fail else scsi_swap_log_update_head

  -- The rest of `scsi_swap_log_load`: checks the head, and reads the items into the ring's buffer.
  unfoldable pub load_items : LogHead → M E Status
  unfolding scsi_swap_log_crc_head
  load_items h = do
    modify (on_log (λ l. record l { head = h }))
    r ← deref (← gets (λ w. w.log.ring))
    from ← gets (λ w. w.log.sector_data)
    let read = do
      (s, items) ← lift (
          hd_read_sector_no_retry k from log_max_sector_num (some r.buffer)
            (log_max_sector_num * log_count_per_sector * log_item_size))
      modify (on_log (λ l. record l { ring = some (record r { buffer = items }) }))
      pure s
    if h.crc != scsi_swap_log_crc_head h then pure fail else read

  unfoldable pub scsi_swap_log_load : M E Status
  unfolding load_items
  scsi_swap_log_load = do
    at ← gets (λ w. w.log.sector_head)
    (s, buf) ← lift (hd_read_sector_no_retry k at 1 (some (replicate sector_size 0)) sector_size)
    if not (is_ok s) then pure fail else load_items (log_head_of buf)

  -- `cspring_create`'s two allocations; the second is made if the first succeeds.
  abbrev pub alloc_ring : S E (Option Ring)
  alloc_ring w =
      let size = log_item_size * (log_max_sector_num * log_count_per_sector) in
      let (got, e) = k.kmalloc size w.env in
      let (got', e') = k.kmalloc size e in
      let r =
        cspring_create log_item_size (log_max_sector_num * log_count_per_sector) got got'
          (k.fresh_memory size e) in
      (r, record w { env = if got then e' else e })

  unfoldable pub scsi_swap_log_init : ℕ → ℕ → M E Status
  unfolding scsi_swap_log_load
  scsi_swap_log_init head at = do
    r ← lift alloc_ring
    modify (on_log (λ l. record l { ring = r }))
    elim r [
      | none ↦ pure fail
      | some _ ↦ do
        modify (on_log (λ l. record l { sector_head = head; sector_data = at }))
        s ← scsi_swap_log_load
        r' ← deref (← gets (λ w. w.log.ring))
        let take_counters = do
          modify (
              on_log (λ l. record l {
                ring =
                    some (record r' { item_num = l.head.item_num; item_next = l.head.item_next });
              }))
          pure ok
        if not (is_ok s) then pure fail else take_counters
    ]

  unfoldable pub scsi_swap_log_destroy : S E Status
  scsi_swap_log_destroy w = (ok, on_log (λ l. record l { ring = none }) w)

  -- The lines from index `i` on, `n` of them.
  unfoldable pub log_lines : Ring → ℕ → ℕ → List Bytes
  log_lines r i zero = []
  log_lines r i (suc n) = elim (cspring_peek r i) [
    | none ↦ []
    | some item ↦
        (let it = log_item_of item in
          k.format_line (
            it.time ∷ it.sec_src ∷ it.sec_dst ∷ it.sec_count ∷ it.type_of ∷ it.result
            ∷ it.reboot_count ∷ it.fix_count ∷ it.curr_count ∷ []))
        ∷ log_lines r (i + 1) n
  ]

  unfoldable pub scsi_swap_log_show : M E Bytes
  unfolding log_lines
  scsi_swap_log_show = do
    r ← deref (← gets (λ w. w.log.ring))
    pure (show_lines page_size (log_lines r 0 r.item_num))
