-- ===== src/Core/Transfer/Total.antt =====
-- core.c: a read through the swaps returns.
use scsiswap.Core.Transfer.Sound.{scsi_swap_core_read-IsSound}
use scsiswap.Layout.{sector_size}
use mathlib.Core.Path.{subst}
use scsiswap.Io.{hd_read_sector_retry}
use scsiswap.Core.Flush.Lookup.{find_info_entry}
use scsiswap.State.{World, is_ok}
use scsiswap.Core.Transfer.TotalNew.{Left, read_info-Yields, read_new-Yields}
use scsiswap.Core.Flush.{find_info, swap_find_swap_info}
use scsiswap.Yields.{Yields, both, yield_after, yield_bind, yield_if, yield_option, yield_weaken}
use scsiswap.Io.Effects.{hd_read_sector-IsCalm}
use scsiswap.Core.Transfer.Frames.{repair-IsCalm}
use scsiswap.Core.Ready.{AllFull-get, IsReady, IsReady-after, IsReady-on_core}
use scsiswap.Core.Invariant.{IsSound}
use scsiswap.Base.{
  Bool, Bytes, Option, arith, false, length, length-overwrite, overwrite, refl, replicate, slice,
  some, suc, sym, true, zero, ℕ, ◌!=◌, ◌*◌, ◌+◌, ◌-◌, ◌<◌, ◌∙◌, ◌≡◌, ◌≤◌,
}
use scsiswap.Core.Transfer.Pieces.{IsInBlock, piece-IsInBlock}
use scsiswap.Core.Transfer.Read.{read_loop, read_piece, read_repair, scsi_swap_core_read}
use scsiswap.Core.Transfer.{
  Outcome, Piece, add_user, broken, dirtied, get_swap_block_count, piece, proceed, s_len,
  swap_read_info, swap_repair_successive_sectors,
}
use scsiswap.Kernel.{Kernel}

module _ {E : Type 0} (k : Kernel E) where
  -- A buffer of the same size goes on as the first one.
  Left-then :
      {A : Type 0} (a b : Bytes)
      → length b ≡ length a
      → (o : Option ((A × Bytes) × World E)) → Yields (Left b) o
      → Yields (Left a) o
  Left-then a b same o h = yield_weaken o _ _ h (λ r v (ready, kept). (ready, kept ∙ same))

  read_repair-Yields :
      (p : Piece) (count pos : ℕ) (buf : Bytes) (w : World E)
      → IsInBlock count p
      → pos + count * sector_size ≤ length buf
      → IsReady w
      → Yields (Left buf) (read_repair k p buf pos w)
  unfolding read_repair
  read_repair-Yields p count pos buf w at room r =
      let (s, v) = swap_repair_successive_sectors k w in
      let r' = IsReady-after (repair-IsCalm k w) r in
      yield_if (is_ok s) _ _ (Left buf) v (r', length-overwrite buf pos (replicate (s_len p) 0))
        (yield_if (v.core.device_dead != 0) _ _ (Left buf) v (r', refl)
          (read_new-Yields k p count pos buf v at room r'))

  read_piece-Yields :
      (p : Piece) (count pos : ℕ) (buf : Bytes) (w : World E)
      → IsInBlock count p
      → pos + count * sector_size ≤ length buf
      → IsReady w
      → Yields (Left buf) (read_piece k p buf pos w)
  unfolding read_piece hd_read_sector_retry swap_find_swap_info
  read_piece-Yields p count pos buf w at room r =
      yield_option (find_info w.core.info_list p.b_start) _ _
        (λ o. find_info w.core.info_list p.b_start ≡ o) (Left buf) w refl
        (λ _.
          let ((s, got), v) =
            hd_read_sector_retry k p.s_start p.s_count (some (slice buf pos (s_len p))) (s_len p)
              w in
          let r' =
            IsReady-after
              (hd_read_sector-IsCalm k p.s_start p.s_count (some (slice buf pos (s_len p)))
                (s_len p) 10 5 w)
              r in
          let same = length-overwrite buf pos got in
          yield_if p.is_good _ _ (Left buf) w
            (yield_if (is_ok s) _ _ (Left buf) v (r', same)
              (yield_if (v.core.device_dead != 0) _ _ (Left buf) v (r', same)
                (Left-then buf (overwrite buf pos got) same
                  (read_repair k p (overwrite buf pos got) pos v)
                  (read_repair-Yields p count pos (overwrite buf pos got) v at
                    (omega (arith, room, same)) r'))))
            (read_repair-Yields p count pos buf w at room r))
        (λ (n, info) found.
          yield_bind (swap_read_info k info p.s_start p.s_count buf pos (s_len p)) _
            (λ buf' v. (v ≡ w) × (length buf' ≡ length buf)) (Left buf) w
            (read_info-Yields k info p count pos buf w
              (AllFull-get w.core.info_list n info r.buffers
                (find_info_entry w.core.info_list p.b_start n info found))
              at room)
            (λ buf' v (same, kept). (subst IsReady (sym same) r, kept)))

  pub yield_outcome :
      {A : Type 0} (o : Outcome) (x y z : Option (A × World E)) (Q : A → World E → Type 0)
      → Yields Q x
      → Yields Q y
      → Yields Q z
      → Yields Q
          (let r : Option (A × World E) = elim o [ proceed ↦ x | dirtied ↦ y | broken ↦ z ] in r)
  yield_outcome proceed x y z Q a b c = a
  yield_outcome dirtied x y z Q a b c = b
  yield_outcome broken x y z Q a b c = c

  read_loop-Yields :
      (n start bad i count : ℕ) (buf : Bytes) (pos : ℕ) (dirty : Bool) (w : World E)
      → pos + count * sector_size ≤ length buf
      → IsReady w
      → Yields (Left buf) (read_loop k n start bad i count buf pos dirty w)
  unfolding read_loop
  read_loop-Yields zero start bad i count buf pos dirty w room r = (r, refl)
  read_loop-Yields (suc n) start bad i count buf pos dirty w room r =
      let p = piece start bad i count in
      let at = piece-IsInBlock start bad i count in
      yield_after (read_piece k p buf pos w) _ (Left buf) (Left buf)
        (read_piece-Yields p count pos buf w at room r)
        (λ (o, buf') v (ready, same).
          let next = λ (d : Bool).
            Left-then buf buf' same
              (read_loop k n start bad (i + 1) (count - p.s_count) buf' (pos + s_len p) d v)
              (read_loop-Yields n start bad (i + 1) (count - p.s_count) buf' (pos + s_len p) d v
                (omega (arith, room, same, at.within, at.bytes)) ready) in
          yield_outcome o _ _ _ (Left buf) (next dirty) (next true) (ready, same))

  read-Left :
      (start count bad : ℕ) (buf : Bytes) (w : World E)
      → count * sector_size ≤ length buf
      → IsReady w
      → Yields (Left buf) (scsi_swap_core_read k start count bad buf w)
  unfolding scsi_swap_core_read
  read-Left start count bad buf w room r =
      yield_if (w.core.device_dead != 0) _ _ (Left buf) w (r, refl)
        (yield_bind (read_loop k (get_swap_block_count start count) start bad 0 count buf 0 false) _
          (Left buf) (Left buf) (add_user w)
          (read_loop-Yields (get_swap_block_count start count) start bad 0 count buf 0 false
            (add_user w) (omega (arith, room)) (IsReady-on_core refl refl r))
          (λ o v (ready, same). (IsReady-on_core refl refl ready, same)))

  -- `scsi_swap_core_read` returns, whatever the commands, the allocations and the contents of the
  -- disk are: it follows no null pointer, copies inside its buffers, and its loops end. Behind it,
  -- on every path, each swap of the list is still the only owner of a marked block and has its
  -- buffer of 64 KB, the log has its ring, the count of users is what it was, and so is the size of
  -- the caller's buffer. Before it, the same holds of the swaps and the log, the caller's buffer
  -- has room for `count` sectors, and the count of users is below 2^32.
  pub scsi_swap_core_read-returns :
      (start count bad : ℕ) (buf : Bytes) (w : World E)
      → count * sector_size ≤ length buf
      → w.core.user < 4294967296
      → IsReady w
      → IsSound w
      → Yields
          (λ (s, buf') v. Left buf (s, buf') v × IsSound v × (v.core.user ≡ w.core.user))
          (scsi_swap_core_read k start count bad buf w)
  scsi_swap_core_read-returns start count bad buf w room small ready sound =
      yield_weaken (scsi_swap_core_read k start count bad buf w) _ _
        (both (scsi_swap_core_read k start count bad buf w) _ _
          (read-Left start count bad buf w room ready)
          (scsi_swap_core_read-IsSound k start count bad buf w small sound))
        (λ _ v h. (h.0, h.1.0, h.1.1))
