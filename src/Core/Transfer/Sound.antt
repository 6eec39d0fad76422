-- ===== src/Core/Transfer/Sound.antt =====
-- core.c: a read through the swaps keeps each swap the owner of its block, and gives back its place
-- among the users.
use scsiswap.Base.{
  ℕ, zero, suc, ◌+◌, ◌-◌, ◌*◌, ◌≡◌, refl, Bool, true, false, Option, none, some, Bytes, slice,
  overwrite, ◌!=◌, min, u32, ◌<◌,
}
use mathlib.Core.Path.{subst}
use scsiswap.Kernel.{Kernel}
use scsiswap.Layout.{sector_size, swap_block_size}
use scsiswap.State.{World, Info, Status, is_ok, deref}
use scsiswap.Ensures.{Ensures, bind_rule, deref_rule, weaken, if_rule, option_rule, after_rule}
use scsiswap.Io.{hd_read_sector_retry}
use scsiswap.Io.Effects.{hd_read_sector-IsCalm}
use scsiswap.Core.Quiet.{IsQuiet-of_calm}
use scsiswap.Core.Flush.{swap_find_swap_info, flush_swap_info_data}
use scsiswap.Core.Alloc.Fresh.{Allocated}
use scsiswap.Core.Create.{swap_create}
use scsiswap.Core.Create.Fresh.{index_of, swap_create-Allocated, Allocated-then, undone}
use scsiswap.Core.Invariant.{
  Keeps, Keeps-trans, Keeps-of_calm, Keeps-of_Allocated, Placed-of_Allocated, IsSound,
}
use scsiswap.Core.Flush.Tables.{flush_swap_info_data-IsCalm}
use scsiswap.Core.Transfer.{
  Piece, Outcome, s_len, copy_out, copy_in, swap_read_info, swap_repair_successive_sectors,
  add_to_list, add_user, piece, get_swap_block_count,
}
use scsiswap.Core.Transfer.Frames.{
  outcome_rule, Keeps-refl, repair-IsCalm, add_to_list-Keeps, users_back,
}
use scsiswap.Core.Transfer.Read.{read_new, read_repair, read_piece, read_loop, scsi_swap_core_read}

module _ {E : Type 0} (k : Kernel E) where
  read_new-Keeps :
      (p : Piece) (buf : Bytes) (pos : ℕ) (w : World E)
      → Ensures (λ _ u. Keeps w u) (read_new k p buf pos w)
  unfolding read_new
  read_new-Keeps p buf pos w =
      bind_rule (swap_create k p.s_start p.s_count) _ (λ r v. Allocated w (index_of r, v)) Q w
        (swap_create-Allocated k p.s_start p.s_count w)
        (λ r v a.
          option_rule r _ _ (λ o. Allocated w (index_of o, v)) Q v a
            (λ without. Keeps-of_Allocated without)
            (λ info got. deref_rule info.buf _ Q v (λ buffer _.
              deref_rule
                (copy_out buffer (u32 (p.s_start - p.b_start) * sector_size)
                  (min (s_len p) swap_block_size))
                _ Q v
                (λ bytes _. deref_rule (copy_in buf pos bytes) _ Q v (λ buf' _.
                  let (s, u) = flush_swap_info_data k info v in
                  let got' =
                    Allocated-then got (IsQuiet-of_calm (flush_swap_info_data-IsCalm k info v)) in
                  if_rule (is_ok s) _ _ Q u
                    (bind_rule (add_to_list k info) _ (λ _ x. Keeps w x) Q u
                      (add_to_list-Keeps k info (Placed-of_Allocated got')) (λ o x kept. kept))
                    (Keeps-of_Allocated (undone info.table.index got')))))))
    where
      Q : Outcome × Bytes → World E → Type 0
      Q r u = Keeps w u

  read_repair-Keeps :
      (p : Piece) (buf : Bytes) (pos : ℕ) (w : World E)
      → Ensures (λ _ u. Keeps w u) (read_repair k p buf pos w)
  unfolding read_repair
  read_repair-Keeps p buf pos w =
      let (s, v) = swap_repair_successive_sectors k w in
      let kept = Keeps-of_calm (repair-IsCalm k w) in
      if_rule (is_ok s) _ _ Q v kept (
        if_rule (v.core.device_dead != 0) _ _ Q v kept (
          weaken (read_new k p buf pos v) (λ _ u. Keeps v u) Q (read_new-Keeps p buf pos v)
            (λ _ u next. Keeps-trans kept next)))
    where
      Q : Outcome × Bytes → World E → Type 0
      Q r u = Keeps w u

  swap_read_info-Keeps :
      (info : Info) (start count : ℕ) (buf : Bytes) (pos size : ℕ) (w : World E)
      → Ensures (λ _ u. Keeps w u) (swap_read_info k info start count buf pos size w)
  unfolding swap_read_info
  swap_read_info-Keeps info start count buf pos size w = deref_rule info.buf _ Q w (λ buffer _.
      deref_rule (copy_out buffer _ _) _ Q w (λ bytes _.
        weaken (deref (copy_in buf pos bytes) w) (λ _ u. w ≡ u) Q
          (deref_same (copy_in buf pos bytes) w) (λ _ u same. subst (Keeps w) same (Keeps-refl w))))
    where
      Q : Bytes → World E → Type 0
      Q r u = Keeps w u

      deref_same : (o : Option Bytes) (v : World E) → Ensures (λ _ u. v ≡ u) (deref o v)
      deref_same none v = tt
      deref_same (some a) v = refl

  read_piece-Keeps :
      (p : Piece) (buf : Bytes) (pos : ℕ) (w : World E)
      → Ensures (λ _ u. Keeps w u) (read_piece k p buf pos w)
  unfolding read_piece hd_read_sector_retry
  read_piece-Keeps p buf pos w =
      option_rule (swap_find_swap_info p.b_start w) _ _ (λ _. Unit) Q w tt
        (λ _.
          let ((s, got), v) =
            hd_read_sector_retry k p.s_start p.s_count (some (slice buf pos (s_len p))) (s_len p)
              w in
          let kept = Keeps-of_calm (
            hd_read_sector-IsCalm k p.s_start p.s_count (some (slice buf pos (s_len p))) (s_len p)
              10 5 w) in
          if_rule p.is_good _ _ Q w
            (if_rule (is_ok s) _ _ Q v kept (
              if_rule (v.core.device_dead != 0) _ _ Q v kept (
                weaken (read_repair k p (overwrite buf pos got) pos v) (λ _ u. Keeps v u) Q
                  (read_repair-Keeps p (overwrite buf pos got) pos v)
                  (λ _ u next. Keeps-trans kept next))))
            (read_repair-Keeps p buf pos w))
        (λ (n, info) _.
          bind_rule (swap_read_info k info p.s_start p.s_count buf pos (s_len p)) _
            (λ _ u. Keeps w u) Q w
            (swap_read_info-Keeps info p.s_start p.s_count buf pos (s_len p) w) (λ _ u kept. kept))
    where
      Q : Outcome × Bytes → World E → Type 0
      Q r u = Keeps w u

  read_loop-Keeps :
      (n start bad i count : ℕ) (buf : Bytes) (pos : ℕ) (dirty : Bool) (w : World E)
      → Ensures (λ _ u. Keeps w u) (read_loop k n start bad i count buf pos dirty w)
  unfolding read_loop
  read_loop-Keeps zero start bad i count buf pos dirty w = Keeps-refl w
  read_loop-Keeps (suc n) start bad i count buf pos dirty w =
      let p = piece start bad i count in
      after_rule (read_piece k p buf pos w) _ (λ _ u. Keeps w u) Q (read_piece-Keeps p buf pos w)
        (λ (o, buf') v kept.
          let next = λ (d : Bool).
            weaken (read_loop k n start bad (i + 1) (count - p.s_count) buf' (pos + s_len p) d v)
              (λ _ u. Keeps v u) Q
              (read_loop-Keeps n start bad (i + 1) (count - p.s_count) buf' (pos + s_len p) d v)
              (λ _ u k'. Keeps-trans kept k') in
          outcome_rule o _ _ _ Q (next dirty) (next true) kept)
    where
      Q : Status × Bytes → World E → Type 0
      Q r u = Keeps w u

  -- `scsi_swap_core_read` keeps each swap of the list the owner of its block (its bit in the bitmap
  -- is set, and no other swap of the list has the block), and the count of users behind it is the
  -- count before it, on every path that does not fault, errors included. The count is below 2^32.
  pub scsi_swap_core_read-IsSound :
      (start count bad : ℕ) (buf : Bytes) (w : World E)
      → w.core.user < 4294967296
      → IsSound w
      → Ensures
          (λ _ v. IsSound v × (v.core.user ≡ w.core.user))
          (scsi_swap_core_read k start count bad buf w)
  unfolding scsi_swap_core_read
  scsi_swap_core_read-IsSound start count bad buf w small sound =
      if_rule (w.core.device_dead != 0) _ _ Q w (sound, refl)
        (bind_rule (read_loop k (get_swap_block_count start count) start bad 0 count buf 0 false) _
          (λ _ v. Keeps (add_user w) v) Q (add_user w)
          (read_loop-Keeps (get_swap_block_count start count) start bad 0 count buf 0 false
            (add_user w))
          (λ r v kept. (kept.sound sound, users_back w v small kept.user)))
    where
      Q : Status × Bytes → World E → Type 0
      Q r v = IsSound v × (v.core.user ≡ w.core.user)
