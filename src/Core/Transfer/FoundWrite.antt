-- ===== src/Core/Transfer/FoundWrite.antt =====
-- core.c: behind a write to a swapped block the swap is found, with the bytes in its buffer.
use scsiswap.Core.Transfer.Copies.{IsPiece, slice_all, written}
use scsiswap.Core.Transfer.FoundSwap.{Found, FoundFirst, swap_write-Found}
use mathlib.Core.Path.{subst}
use scsiswap.Ensures.{Ensures, after_rule, bind_rule, if_rule, option_rule}
use scsiswap.Core.Transfer.WholePiece.{IsWhole, one_round, piece-IsWhole}
use scsiswap.Core.Transfer.Write.{scsi_swap_core_write, write_loop, write_piece}
use scsiswap.State.{Info, M, Status, World, eio, enodev, fail, may_dirty, ok, pure, ◌>>=◌}
use scsiswap.Core.Transfer.{
  Outcome, Piece, add_user, broken, dirtied, drop_user, piece, proceed, s_len, swap_write,
}
use scsiswap.Layout.{sector_num_per_swap_block, sector_size, swap_block_size, swap_sector_align}
use scsiswap.Core.Flush.{find_info, swap_find_swap_info}
use scsiswap.Base.{
  Bytes, Option, ap, arith, false, if◌then◌else◌, length, ltb, lt→ltb, refl, slice, some, sym, u32,
  ℕ, ◌!=◌, ◌*◌, ◌<◌, ◌∙◌, ◌≡◌,
}
use scsiswap.Kernel.{Kernel}

module _ {E : Type 0} (k : Kernel E) where
  -- The round of a write to a block that has a swap.
  swapped_write :
      (p : Piece) (bytes : Bytes) (n : ℕ) (info : Info) (w : World E)
      → find_info w.core.info_list p.b_start ≡ some (n, info)
      → (Q : Outcome → World E → Type 0)
      → Ensures Q (
          (swap_write k (some n) info p.s_start p.s_count bytes (s_len p) >>= λ (s, info').
          (let r : M E Outcome = elim s [
            | ok ↦ pure proceed
            | may_dirty ↦
                pure (if ltb p.s_count sector_num_per_swap_block then dirtied else proceed)
            | _ ↦ pure broken
          ] in
            r))
            w)
      → Ensures Q (write_piece k p bytes w)
  unfolding write_piece swap_find_swap_info
  swapped_write p bytes n info w found Q h =
      option_rule (find_info w.core.info_list p.b_start) _ _ (λ o. o ≡ some (n, info)) Q w found
        (λ e. cc)
        (λ (m, x) e.
          let pair : (m, x) ≡ (n, info) = cc in
          subst
            (λ (q : ℕ × Info). Ensures Q (
              (swap_write k (some q.0) q.1 p.s_start p.s_count bytes (s_len p) >>= λ (s, info').
              (let r : M E Outcome = elim s [
                | ok ↦ pure proceed
                | may_dirty ↦
                    pure (if ltb p.s_count sector_num_per_swap_block then dirtied else proceed)
                | _ ↦ pure broken
              ] in
                r))
                w))
            (sym pair) h)

  write_piece-Found :
      (p : Piece) (sector n : ℕ) (info : Info) (buffer bytes : Bytes) (start count : ℕ)
      (w : World E)
      → IsWhole start count p
      → swap_sector_align start ≡ sector
      → count < 128
      → find_info w.core.info_list sector ≡ some (n, info)
      → w.core.device_dead ≡ 0
      → info.buf ≡ some buffer
      → length buffer ≡ swap_block_size
      → length bytes ≡ count * sector_size
      → IsPiece start count
      → Ensures (FoundFirst sector n (written k info buffer start bytes)) (write_piece k p bytes w)
  write_piece-Found p sector n info buffer bytes start count w whole block part found alive held
        full sized at =
      swapped_write p bytes n info w (rw (whole.block, block) found) _ (
        rw (whole.first, whole.all, small)
          (bind_rule (swap_write k (some n) info start count bytes (count * sector_size)) _
            (λ (s, _) v. Found sector n info' s v) (FoundFirst sector n info') w
            (swap_write-Found k sector n info buffer bytes start count w found alive held full sized
              at)
            (λ (s, _) v f. by_status s v f)))
    where
      info' : Info
      info' = written k info buffer start bytes

      small : u32 (count * sector_size) ≡ count * sector_size
      small = omega (arith, part)

      by_status :
          (s : Status) (v : World E)
          → Found sector n info' s v
          → Ensures (FoundFirst sector n info') (
              (let r : M E Outcome = elim s [
                | ok ↦ pure proceed
                | may_dirty ↦
                    pure (if ltb p.s_count sector_num_per_swap_block then dirtied else proceed)
                | _ ↦ pure broken
              ] in
                  r)
                v)
      by_status ok v f = f
      by_status may_dirty v f = rw (whole.all, lt→ltb count 128 part) tt
      by_status fail v f = tt
      by_status eio v f = tt
      by_status enodev v f = tt

  pub write-Found :
      (start count bad n : ℕ) (info : Info) (buffer bytes : Bytes) (w : World E)
      → IsPiece start count
      → 0 < count
      → count < 128
      → find_info w.core.info_list (swap_sector_align start) ≡ some (n, info)
      → w.core.device_dead ≡ 0
      → info.buf ≡ some buffer
      → length buffer ≡ swap_block_size
      → length bytes ≡ count * sector_size
      → Ensures
          (Found (swap_sector_align start) n (written k info buffer start bytes))
          (scsi_swap_core_write k start count bad bytes w)
  unfolding scsi_swap_core_write write_loop
  write-Found start count bad n info buffer bytes w at some_count part found alive held full sized =
      let sector = swap_sector_align start in
      let p = piece start bad 0 count in
      let whole = piece-IsWhole start bad count at in
      let all : slice bytes 0 (s_len p) ≡ bytes =
        ap (slice bytes 0) (whole.bytes ∙ sym sized) ∙ slice_all bytes in
      if_rule (w.core.device_dead != 0) _ _ (Found sector n info') w tt (
        rw (one_round start count at some_count) (
          bind_rule (write_loop k 1 start bad 0 count bytes 0 false) _ (Found sector n info')
            (Found sector n info') (add_user w)
            (after_rule (write_piece k p (slice bytes 0 (s_len p)) (add_user w)) _
              (FoundFirst sector n info') (Found sector n info')
              (subst (λ b. Ensures (FoundFirst sector n info') (write_piece k p b (add_user w)))
                (sym all)
                (write_piece-Found p sector n info buffer bytes start count (add_user w) whole refl
                  part found alive held full sized at))
              (λ o v f. by_outcome o v f))
            (λ s v f. by_status s v f)))
    where
      info' : Info
      info' = written k info buffer start bytes

      by_outcome :
          (o : Outcome) (v : World E)
          → FoundFirst (swap_sector_align start) n info' o v
          → Ensures (Found (swap_sector_align start) n info') (
              let r : Option (Status × World E) = elim o [
                | proceed ↦ some (ok, v)
                | dirtied ↦ some (may_dirty, v)
                | broken ↦ some (fail, v)
              ] in
              r)
      by_outcome proceed v f = f
      by_outcome dirtied v f = tt
      by_outcome broken v f = tt

      by_status :
          (s : Status) (v : World E)
          → Found (swap_sector_align start) n info' s v
          → Found (swap_sector_align start) n info' s (drop_user v)
      by_status ok v f = f
      by_status may_dirty v f = tt
      by_status fail v f = tt
      by_status eio v f = tt
      by_status enodev v f = tt
