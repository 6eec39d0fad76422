-- ===== src/Core/Create/Total.antt =====
-- core.c: the creation of a swap returns, and the swap has its buffer.
use scsiswap.Core.Flush.{flush_swap_head}
use scsiswap.Format.{zero_table}
use scsiswap.Io.Effects.{HasLog, IsCalm}
use scsiswap.Layout.{
  max_swap_block_for_use, sector_num_per_swap_block, sector_size, swap_block_size,
  swap_sector_align,
}
use scsiswap.Core.Create.Fresh.{cut_len, index_of, swap_create-Allocated, try_create-Allocated}
use scsiswap.Core.Create.{swap_create, try_create}
use scsiswap.Core.Ready.{HasBuffer}
use scsiswap.Log.Total.{push-Yields}
use scsiswap.Core.Alloc.{read_into, swap_alloc_info, swap_alloc_new_block, swap_create_block}
use scsiswap.Core.Alloc.Fresh.{Allocated}
use scsiswap.Log.{FailReason, log_result, log_type_create, scsi_swap_log_push}
use scsiswap.Yields.{Yields, both, yield_bind, yield_deref, yield_if, yield_option}
use scsiswap.State.{Info, Status, World, is_ok}
use scsiswap.Base.{
  Bool, Bytes, Option, false, if◌then◌else◌, leb, length, length-overwrite, length-replicate, ltb,
  minus_one_64, none, refl, replicate, some, true, ℕ, ◌*◌, ◌+◌, ◌-◌, ◌∙◌, ◌≡◌,
}
use scsiswap.Kernel.{Kernel}

-- A swap that was made has a buffer of 64 KB.
abbrev pub Equipped : Option Info → Type 0
Equipped none = Unit
Equipped (some info) = HasBuffer info

module _ {E : Type 0} (k : Kernel E) where
  alloc_info-Equipped : (w : World E) → Equipped (swap_alloc_info k w).0
  unfolding swap_alloc_info
  alloc_info-Equipped w =
      let (got, e) = k.kmalloc 112 w.env in
      let (got', e') = k.kmalloc swap_block_size e in
      by_answers got got' (record w { env = e }) (record w { env = e' })
    where
      new : Info
      new = record { table = zero_table; buf = some (replicate swap_block_size 0) }

      by_answers :
          (got got' : Bool) (u v : World E)
          → Equipped
              (let r : Option Info × World E =
                  if got then (if got' then some new else none, v) else (none, u) in
                r).0
      by_answers true true u v = record {
        buffer = replicate swap_block_size 0;
        held = refl;
        full = length-replicate swap_block_size 0;
      }
      by_answers true false u v = tt
      by_answers false got u v = tt

  length-read_into :
      (sector n at : ℕ) (buffer : Bytes) (w : World E)
      → length (read_into k sector n at buffer w).0 ≡ length buffer
  unfolding read_into
  length-read_into sector n at buffer w = length-overwrite buffer (at * sector_size) _

  -- Both reads of `_swap_create` keep the size of the buffer.
  reads-length :
      (src end len back : ℕ) (b b' : Bool) (buffer : Bytes) (w : World E)
      → (let (one, v) = if b then read_into k src len 0 buffer w else (buffer, w) in
          length (if b' then read_into k (src + end) back end one v else (one, v)).0
          ≡ length buffer)
  reads-length src end len back true true buffer w =
      length-read_into (src + end) back end _ _ ∙ length-read_into src len 0 buffer w
  reads-length src end len back true false buffer w = length-read_into src len 0 buffer w
  reads-length src end len back false true buffer w = length-read_into (src + end) back end _ _
  reads-length src end len back false false buffer w = refl

  create_block-Yields :
      (info : Info) (src offset len : ℕ) (w : World E)
      → HasBuffer info
      → Yields (λ r _. HasBuffer r.1) (swap_create_block k info src offset len w)
  unfolding swap_create_block
  create_block-Yields info src offset len w h =
      let (found, v) = swap_alloc_new_block k w in
      yield_option found _ _ (λ _. Unit) Q v tt (λ _. h)
        (λ index _. yield_deref info.buf h.buffer _ Q v h.held (
          let end = offset + cut_len offset len in
          record {
            buffer = _;
            held = refl;
            full =
                reads-length src end offset (sector_num_per_swap_block - end) (ltb 0 offset)
                  (ltb 0 (sector_num_per_swap_block - end)) h.buffer v
                ∙ h.full;
          }))
    where
      Q : Status × Info → World E → Type 0
      Q r v = HasBuffer r.1

  try_create-Yields :
      (start count : ℕ) (w : World E) → Yields (λ r _. Equipped r.0) (try_create k start count w)
  unfolding try_create
  try_create-Yields start count w =
      yield_if (leb max_swap_block_for_use w.core.info_num) _ _ Q w tt (
        let (found, u) = swap_alloc_info k w in
        yield_option found _ _ Equipped Q u (alloc_info-Equipped w) (λ _. tt)
          (λ info h.
            yield_bind
              (swap_create_block k info (swap_sector_align start) (start - swap_sector_align start)
                count)
              _ (λ r _. HasBuffer r.1) Q u
              (create_block-Yields info (swap_sector_align start) (start - swap_sector_align start)
                count u h)
              (λ (s, info') v b.
                let (s', x) = flush_swap_head k v in
                yield_if (is_ok s) _ _ Q v (yield_if (is_ok s') _ _ Q x b tt) tt)))
    where
      Q : Option Info × Option FailReason → World E → Type 0
      Q r v = Equipped r.0

  create-Equipped :
      (start count : ℕ) (w : World E)
      → HasLog w.log
      → Yields (λ r _. Equipped r) (swap_create k start count w)
  unfolding swap_create
  create-Equipped start count w h =
      yield_bind (try_create k start count) _ (λ r v. Equipped r.0 × Allocated w (index_of r.0, v))
        Q w
        (both (try_create k start count w) _ _ (try_create-Yields start count w)
          (try_create-Allocated k start count w))
        (λ (made, reason) v (e, a).
          yield_option made _ _ Equipped Q v e
            (λ _.
              yield_bind
                (scsi_swap_log_push k log_type_create (log_result reason) start minus_one_64 count)
                _ (λ _ u. IsCalm v u) Q v (push-Yields k _ _ _ _ _ v (a.steady.logs h))
                (λ _ u c. tt))
            (λ info b.
              yield_bind
                (scsi_swap_log_push k log_type_create (log_result reason) info.table.src_sec
                  info.table.swap_sec info.table.sec_size)
                _ (λ _ u. IsCalm v u) Q v (push-Yields k _ _ _ _ _ v (a.steady.logs h))
                (λ _ u c. b)))
    where
      Q : Option Info → World E → Type 0
      Q r v = Equipped r

  -- `swap_create` returns, whatever the commands and the allocations do; a swap that it returns has
  -- its buffer of 64 KB and a block that was free before and is marked now; no bit is cleared, and
  -- the list of swaps stays. The log has a valid ring.
  pub swap_create-Yields :
      (start count : ℕ) (w : World E)
      → HasLog w.log
      → Yields (λ r v. Equipped r × Allocated w (index_of r, v)) (swap_create k start count w)
  swap_create-Yields start count w h =
      both (swap_create k start count w) _ _ (create-Equipped start count w h)
        (swap_create-Allocated k start count w)
