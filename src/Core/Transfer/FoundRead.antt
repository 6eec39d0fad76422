-- ===== src/Core/Transfer/FoundRead.antt =====
-- core.c: a read of a swapped block returns what is in the buffer of its swap.
use mathlib.Core.Path.{subst}
use scsiswap.Core.Flush.{find_info, swap_find_swap_info}
use scsiswap.Core.Transfer.WholePiece.{one_round, piece-IsWhole}
use scsiswap.Layout.{sector_size, swap_block_size, swap_sector_align}
use scsiswap.Core.Transfer.Read.{read_loop, read_piece, scsi_swap_core_read}
use scsiswap.State.{Info, Status, World, fail, may_dirty, ok, pure, ◌>>=◌}
use scsiswap.Core.Transfer.Copies.{IsPiece, offset_of, read_lem}
use scsiswap.Core.Transfer.{
  Outcome, Piece, add_user, broken, dirtied, piece, proceed, s_len, swap_read_info,
}
use scsiswap.Yields.{Yields, yield_after, yield_bind, yield_option, yield_test}
use scsiswap.Base.{
  Bytes, Option, ap, arith, false, length, overwrite, refl, slice, some, sym, true, u32, ℕ, ◌!=◌,
  ◌*◌, ◌<◌, ◌≡◌, ◌≤◌,
}
use scsiswap.Kernel.{Kernel}

module _ {E : Type 0} (k : Kernel E) where
  -- The round of a read of a block that has a swap.
  pub swapped_read :
      (p : Piece) (buf : Bytes) (pos n : ℕ) (info : Info) (w : World E)
      → find_info w.core.info_list p.b_start ≡ some (n, info)
      → (Q : Outcome × Bytes → World E → Type 0)
      → Yields Q (
          (swap_read_info k info p.s_start p.s_count buf pos (s_len p) >>= λ buf'.
          pure (proceed, buf'))
            w)
      → Yields Q (read_piece k p buf pos w)
  unfolding read_piece swap_find_swap_info
  swapped_read p buf pos n info w found Q h =
      yield_option (find_info w.core.info_list p.b_start) _ _ (λ o. o ≡ some (n, info)) Q w found
        (λ e. cc)
        (λ (m, x) e.
          let pair : (m, x) ≡ (n, info) = cc in
          subst
            (λ (q : ℕ × Info). Yields Q (
              (swap_read_info k q.1 p.s_start p.s_count buf pos (s_len p) >>= λ buf'.
              pure (proceed, buf'))
                w))
            (sym pair) h)

  pub read-Found :
      (start count bad n : ℕ) (info : Info) (buffer out : Bytes) (w : World E)
      → IsPiece start count
      → 0 < count
      → find_info w.core.info_list (swap_sector_align start) ≡ some (n, info)
      → w.core.device_dead ≡ 0
      → info.buf ≡ some buffer
      → length buffer ≡ swap_block_size
      → count * sector_size ≤ length out
      → Yields
          (λ r _. r ≡ (ok, overwrite out 0 (slice buffer (offset_of start) (count * sector_size))))
          (scsi_swap_core_read k start count bad out w)
  unfolding scsi_swap_core_read read_loop
  read-Found start count bad n info buffer out w at some_count found alive held full room =
      let p = piece start bad 0 count in
      let whole = piece-IsWhole start bad count at in
      let small : u32 (count * sector_size) ≡ count * sector_size = omega (arith, at.1) in
      yield_test (w.core.device_dead != 0) _ _ (λ b. (w.core.device_dead != 0) ≡ b) Q w refl
        (λ dead. absurd (not_dead dead))
        (λ _. rw (one_round start count at some_count) (
          yield_bind (read_loop k 1 start bad 0 count out 0 false) _ Q Q (add_user w)
            (yield_after (read_piece k p out 0 (add_user w)) _ (λ r _. r ≡ (proceed, result)) Q
              (swapped_read p out 0 n info (add_user w) (rw whole.block found) _ (
                rw (whole.first, whole.all, small)
                  (yield_bind (swap_read_info k info start count out 0 (count * sector_size)) _
                    (λ b _. b ≡ result) (λ r _. r ≡ (proceed, result)) (add_user w)
                    (subst (Yields (λ b _. b ≡ result))
                      (sym (read_lem k info buffer out start count (add_user w) held full room at))
                      refl)
                    (λ b v same. ap (λ t. (proceed, t)) same))))
              (λ (o, buf') v same. by_outcome o buf' v same))
            (λ r v same. same)))
    where
      result : Bytes
      result = overwrite out 0 (slice buffer (offset_of start) (count * sector_size))

      Q : Status × Bytes → World E → Type 0
      Q r _ = r ≡ (ok, result)

      not_dead : (w.core.device_dead != 0) ≡ true → ⊥
      not_dead h = ground (arith, alive, h)

      by_outcome :
          (o : Outcome) (buf' : Bytes) (v : World E)
          → ◌≡◌ {A = Outcome × Bytes} (o, buf') (proceed, result)
          → Yields Q (
              let r : Option ((Status × Bytes) × World E) = elim o [
                | proceed ↦ some ((ok, buf'), v)
                | dirtied ↦ some ((may_dirty, buf'), v)
                | broken ↦ some ((fail, buf'), v)
              ] in
              r)
      by_outcome proceed buf' v same = let e : buf' ≡ result = cc in ap (λ b. (ok, b)) e
      by_outcome dirtied buf' v same = let e : dirtied ≡ proceed = cc in cc
      by_outcome broken buf' v same = let e : broken ≡ proceed = cc in cc
