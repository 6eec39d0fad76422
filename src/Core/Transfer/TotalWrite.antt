-- ===== src/Core/Transfer/TotalWrite.antt =====
-- core.c: a write through the swaps returns.
use scsiswap.Core.Alloc.Fresh.{Allocated}
use scsiswap.Core.Transfer.Frames.{repair-IsCalm}
use scsiswap.Io.Effects.{hd_write_sector-IsCalm}
use scsiswap.Core.Transfer.SoundWrite.{scsi_swap_core_write-IsSound}
use scsiswap.Core.Transfer.Pieces.{IsInBlock, piece-IsInBlock}
use scsiswap.Core.Flush.{find_info, swap_find_swap_info}
use scsiswap.Core.Create.Fresh.{index_of}
use scsiswap.Io.{hd_write_sector_retry}
use scsiswap.Core.Flush.Lookup.{find_info_entry}
use scsiswap.Core.Flush.Tables.{flush_swap_info_data-IsCalm}
use scsiswap.Core.Transfer.Rounds.{IsSoundIf}
use scsiswap.Core.Create.TotalRenewal.{swap_recreate-Yields, Kept}
use scsiswap.State.{Info, M, Status, World, eio, enodev, fail, is_ok, may_dirty, ok}
use scsiswap.Core.Create.{Loc, store, swap_create, swap_recreate}
use scsiswap.Core.Invariant.{IsSound}
use scsiswap.Core.Transfer.Total.{yield_outcome}
use scsiswap.Core.Transfer.TotalNew.{add_to_list-Yields}
use scsiswap.Core.Transfer.Write.{
  scsi_swap_core_write, write_loop, write_new, write_piece, write_repair,
}
use scsiswap.Core.Create.Total.{Equipped, swap_create-Yields}
use scsiswap.Core.Transfer.{
  Outcome, Piece, add_to_list, add_user, copy_in, copy_out, get_swap_block_count, piece, s_len,
  swap_repair_successive_sectors, swap_write, swap_write_info,
}
use scsiswap.Core.Ready.{
  AllFull-get, HasBuffer, IsReady, IsReady-after, IsReady-on_core, IsReady-then, store-IsReady,
}
use scsiswap.Core.Transfer.Copies.{copy_in_lem, copy_out_lem}
use scsiswap.Base.{
  Bool, Bytes, arith, false, length, length-overwrite, length-slice, min, none, overwrite, refl,
  slice, some, suc, true, u32, zero, ℕ, ◌!=◌, ◌*◌, ◌+◌, ◌-◌, ◌<◌, ◌∙◌, ◌≡◌, ◌≤◌,
}
use scsiswap.Layout.{sector_size, swap_sector_align}
use scsiswap.Yields.{
  Yields, both, yield_after, yield_bind, yield_deref, yield_if, yield_option, yield_weaken,
}
use scsiswap.Kernel.{Kernel}

abbrev Ready : {E A : Type 0} → A → World E → Type 0
Ready _ v = IsReady v

module _ {E : Type 0} (k : Kernel E) where
  write_info-Yields :
      (loc : Loc) (info : Info) (p : Piece) (count : ℕ) (bytes : Bytes) (w : World E)
      → HasBuffer info
      → IsInBlock count p
      → s_len p ≤ length bytes
      → IsReady w
      → Yields Kept (swap_write_info k loc info p.s_start p.s_count bytes (s_len p) w)
  unfolding swap_write_info
  write_info-Yields loc info p count bytes w h at room r =
      let size = min (p.s_count * sector_size) (s_len p) in
      let to = u32 ((p.s_start - u32 (swap_sector_align p.s_start)) * sector_size) in
      let same_size : size ≡ p.s_count * sector_size = omega (arith, at.bytes) in
      let some_bytes : 0 + size ≤ length bytes = omega (arith, room, at.bytes, same_size) in
      let part = slice bytes 0 size in
      let fits : to + length part ≤ length h.buffer =
        omega (arith, length-slice bytes 0 size, h.full, at.small, same_size) in
      let info' : Info = record info { buf = some (overwrite h.buffer to part) } in
      let b : HasBuffer info' = record {
        buffer = overwrite h.buffer to part;
        held = refl;
        full = length-overwrite h.buffer to part ∙ h.full;
      } in
      yield_deref info.buf h.buffer _ Kept w h.held (
        yield_deref (copy_out bytes 0 size) part _ Kept w (copy_out_lem bytes 0 size some_bytes) (
          yield_deref (copy_in h.buffer to part) (overwrite h.buffer to part) _ Kept w
            (copy_in_lem h.buffer to part fits)
            (
              IsReady-after (flush_swap_info_data-IsCalm k info' (store loc info' w))
                  (store-IsReady loc info' b r),
              b,
            )))

  write-Yields :
      (loc : Loc) (info : Info) (p : Piece) (count : ℕ) (bytes : Bytes) (w : World E)
      → HasBuffer info
      → IsInBlock count p
      → s_len p ≤ length bytes
      → IsReady w
      → Yields Kept (swap_write k loc info p.s_start p.s_count bytes (s_len p) w)
  unfolding swap_write
  write-Yields loc info p count bytes w h at room r =
      yield_bind (swap_write_info k loc info p.s_start p.s_count bytes (s_len p)) _ Kept Kept w
        (write_info-Yields loc info p count bytes w h at room r)
        (λ (s, info1) v (r1, b1).
          yield_if (is_ok s) _ _ Kept v (r1, b1)
            (yield_bind (swap_recreate k loc info1) _ Kept Kept v
              (swap_recreate-Yields k loc info1 v b1 r1)
              (λ (s', info2) u (r2, b2).
                yield_if (is_ok s') _ _ Kept u
                  (yield_bind (swap_write_info k loc info2 p.s_start p.s_count bytes (s_len p)) _
                    Kept Kept u (write_info-Yields loc info2 p count bytes u b2 at room r2)
                    (λ _ x done. done))
                  (r2, b2))))

  write_new-Yields :
      (p : Piece) (count : ℕ) (bytes : Bytes) (w : World E)
      → IsInBlock count p
      → s_len p ≤ length bytes
      → IsReady w
      → Yields Ready (write_new k p bytes w)
  unfolding write_new
  write_new-Yields p count bytes w at room r =
      yield_bind (swap_create k p.s_start p.s_count) _
        (λ o v. Equipped o × Allocated w (index_of o, v)) Ready w
        (swap_create-Yields k p.s_start p.s_count w r.log)
        (λ o v (e, a).
          yield_option o _ _ Equipped Ready v e (λ _. IsReady-then a.steady r)
            (λ info h.
              yield_bind (swap_write k none info p.s_start p.s_count bytes (s_len p)) _ Kept Ready v
                (write-Yields none info p count bytes v h at room (IsReady-then a.steady r))
                (λ (s, info') u (r', b').
                  yield_if (is_ok s) _ _ Ready u
                    (yield_bind (add_to_list k info') _ (λ _ x. IsReady x) Ready u
                      (add_to_list-Yields k info' u b' r') (λ _ x ready. ready))
                    (IsReady-on_core refl refl r'))))

  write_repair-Yields :
      (p : Piece) (count : ℕ) (bytes : Bytes) (w : World E)
      → IsInBlock count p
      → s_len p ≤ length bytes
      → IsReady w
      → Yields Ready (write_repair k p bytes w)
  unfolding write_repair hd_write_sector_retry
  write_repair-Yields p count bytes w at room r =
      let (s, v) = swap_repair_successive_sectors k w in
      let r1 = IsReady-after (repair-IsCalm k w) r in
      let (s', u) = hd_write_sector_retry k p.s_start p.s_count (some bytes) (s_len p) v in
      let r2 =
        IsReady-after (hd_write_sector-IsCalm k p.s_start p.s_count (some bytes) (s_len p) 10 5 v)
          r1 in
      yield_if (is_ok s) _ _ Ready v
        (yield_if (is_ok s') _ _ Ready u r2 (write_new-Yields p count bytes u at room r2))
        (yield_if (v.core.device_dead != 0) _ _ Ready v r1
          (write_new-Yields p count bytes v at room r1))

  yield_status :
      (s : Status) (x y z : M E Outcome) (w : World E)
      → Yields Ready (x w)
      → Yields Ready (y w)
      → Yields Ready (z w)
      → Yields Ready ((let r : M E Outcome = elim s [ ok ↦ x | may_dirty ↦ y | _ ↦ z ] in r) w)
  yield_status ok x y z w a b c = a
  yield_status may_dirty x y z w a b c = b
  yield_status fail x y z w a b c = c
  yield_status eio x y z w a b c = c
  yield_status enodev x y z w a b c = c

  write_piece-Yields :
      (p : Piece) (count : ℕ) (bytes : Bytes) (w : World E)
      → IsInBlock count p
      → s_len p ≤ length bytes
      → IsReady w
      → Yields Ready (write_piece k p bytes w)
  unfolding write_piece hd_write_sector_retry swap_find_swap_info
  write_piece-Yields p count bytes w at room r =
      yield_option (find_info w.core.info_list p.b_start) _ _
        (λ o. find_info w.core.info_list p.b_start ≡ o) Ready w refl
        (λ _.
          let (s, v) = hd_write_sector_retry k p.s_start p.s_count (some bytes) (s_len p) w in
          let r' =
            IsReady-after
              (hd_write_sector-IsCalm k p.s_start p.s_count (some bytes) (s_len p) 10 5 w) r in
          yield_if p.is_good _ _ Ready w
            (yield_if (is_ok s) _ _ Ready v r' (
              yield_if (v.core.device_dead != 0) _ _ Ready v r'
                (write_repair-Yields p count bytes v at room r')))
            (write_repair-Yields p count bytes w at room r))
        (λ (n, info) found.
          yield_bind (swap_write k (some n) info p.s_start p.s_count bytes (s_len p)) _ Kept Ready w
            (write-Yields (some n) info p count bytes w
              (AllFull-get w.core.info_list n info r.buffers
                (find_info_entry w.core.info_list p.b_start n info found))
              at room r)
            (λ (s, info') u (r', b'). yield_status s _ _ _ u r' r' r'))

  write_loop-Yields :
      (n start bad i count : ℕ) (buf : Bytes) (pos : ℕ) (dirty : Bool) (w : World E)
      → pos + count * sector_size ≤ length buf
      → IsReady w
      → Yields Ready (write_loop k n start bad i count buf pos dirty w)
  unfolding write_loop
  write_loop-Yields zero start bad i count buf pos dirty w room r = r
  write_loop-Yields (suc n) start bad i count buf pos dirty w room r =
      let p = piece start bad i count in
      let at = piece-IsInBlock start bad i count in
      let bytes = slice buf pos (s_len p) in
      let full : s_len p ≤ length bytes =
        omega (arith, length-slice buf pos (s_len p), room, at.within, at.bytes) in
      yield_after (write_piece k p bytes w) _ Ready Ready
        (write_piece-Yields p count bytes w at full r)
        (λ o v ready.
          let next = λ (d : Bool).
            write_loop-Yields n start bad (i + 1) (count - p.s_count) buf (pos + s_len p) d v
              (omega (arith, room, at.within, at.bytes)) ready in
          yield_outcome k o _ _ _ Ready (next dirty) (next true) ready)

  pub write-Ready :
      (start count bad : ℕ) (buf : Bytes) (w : World E)
      → count * sector_size ≤ length buf
      → IsReady w
      → Yields Ready (scsi_swap_core_write k start count bad buf w)
  unfolding scsi_swap_core_write
  write-Ready start count bad buf w room r = yield_if (w.core.device_dead != 0) _ _ Ready w r (
      yield_bind (write_loop k (get_swap_block_count start count) start bad 0 count buf 0 false) _
        Ready Ready (add_user w)
        (write_loop-Yields (get_swap_block_count start count) start bad 0 count buf 0 false
          (add_user w) (omega (arith, room)) (IsReady-on_core refl refl r))
        (λ s v ready. IsReady-on_core refl refl ready))

  -- `scsi_swap_core_write` returns, whatever the commands, the allocations and the contents of the
  -- disk are. Behind it each swap of the list has its buffer of 64 KB, the log has its ring, and
  -- the count of users is what it was, on every path; where the status is success (0 or
  -- -DATA_MAY_DIRTY), each swap of the list is still the only owner of a marked block. Before it,
  -- the same holds of the swaps and the log, the buffer has `count` sectors, and the count of users
  -- is below 2^32.
  pub scsi_swap_core_write-returns :
      (start count bad : ℕ) (buf : Bytes) (w : World E)
      → count * sector_size ≤ length buf
      → w.core.user < 4294967296
      → IsReady w
      → IsSound w
      → Yields
          (λ s v. IsReady v × (v.core.user ≡ w.core.user) × IsSoundIf s v)
          (scsi_swap_core_write k start count bad buf w)
  scsi_swap_core_write-returns start count bad buf w room small ready sound =
      yield_weaken (scsi_swap_core_write k start count bad buf w) _ _
        (both (scsi_swap_core_write k start count bad buf w) _ _
          (write-Ready start count bad buf w room ready)
          (scsi_swap_core_write-IsSound k start count bad buf w small sound))
        (λ _ v h. (h.0, h.1.0, h.1.1))
