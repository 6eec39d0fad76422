-- ===== src/Core/Create/Fresh.antt =====
-- core.c: the block of a swap that `swap_create` returns was free before.
use scsiswap.Base.{
  ℕ, minus_one_64, ◌+◌, ◌-◌, refl, sym, ◌∙◌, arith, false, Option, none, some, Bytes, ltb, leb,
  if◌then◌else◌, length-set,
}
use mathlib.Core.Bool.{false≢true}
use native.Mathlib.Decide.{ℕ_discrete}
use scsiswap.Kernel.{Kernel}
use scsiswap.Layout.{
  sector_size, swap_head_backup_offset, sector_num_per_swap_block, swap_sector_align,
  max_swap_block_for_use,
}
use scsiswap.Format.{head_bytes}
use scsiswap.State.{World, Info, Status, is_ok, on_core}
use scsiswap.Ensures.{Ensures, bind_rule, deref_rule, if_rule, option_rule, test_rule}
use scsiswap.Io.{hd_write_sector_retry, hd_read_sector_no_retry}
use scsiswap.Io.Effects.{
  IsCalm, IsCalm-refl, IsCalm-trans, on_if, hd_read_sector-IsCalm, hd_write_sector-IsCalm,
}
use scsiswap.Log.{FailReason, log_type_create, log_result, scsi_swap_log_push}
use scsiswap.Log.Frame.{push-IsCalm}
use scsiswap.Core.Bitmap.{set_bit, swap_bitmap_set_bit}
use scsiswap.Core.Bitmap.Laws.{Grows-refl, set_bit_other}
use scsiswap.Core.Steady.{IsSteady-trans}
use scsiswap.Core.Quiet.{IsQuiet, IsQuiet-of_calm, IsQuiet-trans}
use scsiswap.Core.Flush.{head_checksum, flush_swap_head}
use scsiswap.Core.Alloc.{swap_alloc_info, swap_alloc_new_block, read_into, swap_create_block}
use scsiswap.Core.Alloc.Fresh.{Allocated, bits_of, swap_alloc_new_block-Allocated}
use scsiswap.Core.Create.{try_create, swap_create}

abbrev pub cut_len : ℕ → ℕ → ℕ
cut_len offset len =
    if ltb sector_num_per_swap_block (offset + len) then sector_num_per_swap_block - offset else len

-- The block of a swap that was made, none where none was.
abbrev pub block_of : Status × Info → Option ℕ
block_of r = if is_ok r.0 then some r.1.table.index else none

abbrev pub index_of : Option Info → Option ℕ
index_of none = none
index_of (some info) = some info.table.index

module _ {E : Type 0} where
  IsQuiet-refl : (w : World E) → IsQuiet w w
  IsQuiet-refl w = IsQuiet-of_calm (IsCalm-refl w)

  pub Allocated-then :
      {w u v : World E} {o : Option ℕ} → Allocated w (o, u) → IsQuiet u v → Allocated w (o, v)
  Allocated-then {w} {u} {v} a q = record {
    steady = IsSteady-trans a.steady q.steady;
    grows = rw q.bits a.grows;
    fresh = λ i e. rw q.bits (a.fresh i e);
  }

  Allocated-after :
      {w u : World E} {r : Option ℕ × World E} → IsQuiet w u → Allocated u r → Allocated w r
  Allocated-after {w} {u} {r} q a = record {
    steady = IsSteady-trans q.steady a.steady;
    grows = rw (← q.bits) a.grows;
    fresh = λ i e. rw (← q.bits) (a.fresh i e);
  }

  none-Allocated : {w v : World E} → IsQuiet w v → Allocated w (none, v)
  none-Allocated {w} {v} q = record {
    steady = q.steady;
    grows = rw q.bits (Grows-refl (bits_of w));
    fresh = λ i e. cc;
  }

  given_up : {w v : World E} {o : Option ℕ} → Allocated w (o, v) → Allocated w (none, v)
  given_up a = record { steady = a.steady; grows = a.grows; fresh = λ i e. cc }

  -- A block that was handed out is given back.
  pub undone :
      {w v : World E} (i : ℕ) → Allocated w (some i, v) → Allocated w (none, set_bit i false v)
  unfolding swap_bitmap_set_bit
  undone {w} {v} i a = record {
    steady = IsSteady-trans a.steady (ground arith);
    grows = record {
      same_length = length-set (bits_of v) i false ∙ a.grows.same_length;
      stays = λ j e. elim (ℕ_discrete i j) [
        | yes same ↦ absurd (false≢true (sym (a.fresh i refl).1 ∙ rw same e))
        | no other ↦ set_bit_other (bits_of v) i j false other ∙ a.grows.stays j e
      ];
    };
    fresh = λ i e. cc;
  }

  new_checksum-IsQuiet :
      (c : ℕ) (w : World E)
      → IsQuiet w (on_core (λ x. record x { head = record x.head { checksum = c } }) w)
  new_checksum-IsQuiet c w = ground arith

module _ {E : Type 0} (k : Kernel E) where
  pub flush_swap_head-IsQuiet : (w : World E) → IsQuiet w (flush_swap_head k w).1
  unfolding flush_swap_head hd_write_sector_retry
  flush_swap_head-IsQuiet w =
      let h = w.core.head in
      let h' = record h { checksum = head_checksum h } in
      let w0 = on_core (λ c. record c { head = h' }) w in
      let (s, w1) =
        hd_write_sector_retry k w0.core.sector_head 1 (some (head_bytes h')) sector_size w0 in
      IsQuiet-trans (new_checksum-IsQuiet (head_checksum h) w) (
        IsQuiet-of_calm (
          IsCalm-trans
            (hd_write_sector-IsCalm k w0.core.sector_head 1 (some (head_bytes h')) sector_size 10 5
              w0)
            (hd_write_sector-IsCalm k (w1.core.sector_head + swap_head_backup_offset) 1
              (some (head_bytes h')) sector_size 10 5 w1)))

  read_into-IsCalm :
      (sector n at : ℕ) (buffer : Bytes) (w : World E)
      → IsCalm w (read_into k sector n at buffer w).1
  unfolding read_into hd_read_sector_no_retry
  read_into-IsCalm sector n at buffer w = hd_read_sector-IsCalm k _ _ _ _ _ _ _

  swap_alloc_info-IsCalm : (w : World E) → IsCalm w (swap_alloc_info k w).1
  unfolding swap_alloc_info
  swap_alloc_info-IsCalm w = ground arith

  -- The two reads of `_swap_create`.
  reads-IsCalm :
      (src offset len : ℕ) (buffer : Bytes) (w : World E)
      → (let end = offset + cut_len offset len in
          let back_len = sector_num_per_swap_block - end in
          let (b, w') = if ltb 0 offset then read_into k src offset 0 buffer w else (buffer, w) in
          IsCalm w
            (if ltb 0 back_len then read_into k (src + end) back_len end b w' else (b, w')).1)
  reads-IsCalm src offset len buffer w =
      let end = offset + cut_len offset len in
      let back_len = sector_num_per_swap_block - end in
      let (b, w') = if ltb 0 offset then read_into k src offset 0 buffer w else (buffer, w) in
      IsCalm-trans
        (on_if w (ltb 0 offset) (read_into k src offset 0 buffer w) (buffer, w)
          (read_into-IsCalm src offset 0 buffer w) (IsCalm-refl w))
        (on_if w' (ltb 0 back_len) (read_into k (src + end) back_len end b w') (b, w')
          (read_into-IsCalm (src + end) back_len end b w') (IsCalm-refl w'))

  swap_create_block-Allocated :
      (info : Info) (src offset len : ℕ) (w : World E)
      → Ensures (λ r v. Allocated w (block_of r, v)) (swap_create_block k info src offset len w)
  unfolding swap_create_block
  swap_create_block-Allocated info src offset len w =
      let (found, v) = swap_alloc_new_block k w in
      option_rule found _ _ (λ o. Allocated w (o, v)) (λ r x. Allocated w (block_of r, x)) v
        (swap_alloc_new_block-Allocated k w) (λ a. a)
        (λ index a.
          deref_rule info.buf _ (λ r x. Allocated w (block_of r, x)) v
            (λ buffer _. Allocated-then a (IsQuiet-of_calm (reads-IsCalm src offset len buffer v))))

  -- Behind a block that was filled, the head goes to disk; where that fails the block is given
  -- back.
  head_step :
      (info : Info) {w v : World E}
      → Allocated w (some info.table.index, v)
      → (let (s, u) = flush_swap_head k v in
          Allocated w (some info.table.index, u)
          × Allocated w (none, set_bit info.table.index false u))
  head_step info {w} {v} a =
      let kept = Allocated-then a (flush_swap_head-IsQuiet v) in
      (kept, undone info.table.index kept)

  pub try_create-Allocated :
      (start count : ℕ) (w : World E)
      → Ensures (λ r v. Allocated w (index_of r.0, v)) (try_create k start count w)
  unfolding try_create
  try_create-Allocated start count w =
      if_rule (leb max_swap_block_for_use w.core.info_num) _ _ Q w (none-Allocated (IsQuiet-refl w))
        (let (found, u) = swap_alloc_info k w in
          let q = IsQuiet-of_calm (swap_alloc_info-IsCalm w) in
          option_rule found _ _ (λ _. Unit) Q u tt (λ _. none-Allocated q)
            (λ info _.
              bind_rule
                (swap_create_block k info (swap_sector_align start)
                  (start - swap_sector_align start) count)
                _ (λ r v. Allocated u (block_of r, v)) Q u
                (swap_create_block-Allocated info (swap_sector_align start)
                  (start - swap_sector_align start) count u)
                (λ (s, info') v a.
                  test_rule (is_ok s) _ _
                    (λ b. Allocated u (if b then some info'.table.index else none, v)) Q v a
                    (λ made.
                      let (s', x) = flush_swap_head k v in
                      let (kept, undo) = head_step info' (Allocated-after q made) in
                      if_rule (is_ok s') _ _ Q x kept undo)
                    (λ none_made. Allocated-after q none_made))))
    where
      Q : Option Info × Option FailReason → World E → Type 0
      Q r v = Allocated w (index_of r.0, v)

  -- Where `swap_create` returns a swap, its block was free before and is marked now; on every path
  -- that does not fault every bit that was set before is set behind it, and the list of swaps, its
  -- count, the count of users and the place of the data area stay.
  pub swap_create-Allocated :
      (start count : ℕ) (w : World E)
      → Ensures (λ r v. Allocated w (index_of r, v)) (swap_create k start count w)
  unfolding swap_create
  swap_create-Allocated start count w =
      bind_rule (try_create k start count) _ (λ r v. Allocated w (index_of r.0, v))
        (λ r v. Allocated w (index_of r, v)) w (try_create-Allocated start count w)
        (λ (made, reason) v a.
          option_rule made _ _ (λ o. Allocated w (index_of o, v)) Q v a
            (λ without.
              bind_rule
                (scsi_swap_log_push k log_type_create (log_result reason) start minus_one_64 count)
                _ (λ _ u. IsCalm v u) Q v (push-IsCalm k _ _ _ _ _ v)
                (λ _ u c. Allocated-then without (IsQuiet-of_calm c)))
            (λ info with_block.
              bind_rule
                (scsi_swap_log_push k log_type_create (log_result reason) info.table.src_sec
                  info.table.swap_sec info.table.sec_size)
                _ (λ _ u. IsCalm v u) Q v (push-IsCalm k _ _ _ _ _ v)
                (λ _ u c. Allocated-then with_block (IsQuiet-of_calm c))))
    where
      Q : Option Info → World E → Type 0
      Q r v = Allocated w (index_of r, v)
