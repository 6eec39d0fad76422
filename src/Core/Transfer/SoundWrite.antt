-- ===== src/Core/Transfer/SoundWrite.antt =====
-- core.c: a write through the swaps gives back its place among the users, and one that succeeds
-- keeps each swap the owner of its block.
use scsiswap.Base.{
  ℕ, zero, suc, ◌+◌, ◌-◌, ◌≡◌, refl, sym, Bool, true, false, none, some, Bytes, slice, ltb, ◌!=◌,
  ◌<◌, if◌then◌else◌,
}
use mathlib.Core.Path.{subst}
use scsiswap.Kernel.{Kernel}
use scsiswap.Layout.{sector_num_per_swap_block}
use scsiswap.State.{World, Status, ok, fail, eio, enodev, may_dirty, is_ok}
use scsiswap.Ensures.{Ensures, bind_rule, weaken, if_rule, option_rule, after_rule, test_rule}
use scsiswap.Io.{hd_write_sector_retry}
use scsiswap.Io.Effects.{IsCalm-refl, hd_write_sector-IsCalm}
use scsiswap.Core.Flush.{find_info, swap_find_swap_info}
use scsiswap.Core.Alloc.Fresh.{Allocated}
use scsiswap.Core.Create.{swap_create}
use scsiswap.Core.Create.Fresh.{index_of, swap_create-Allocated}
use scsiswap.Core.Create.Moves.{entry_index}
use scsiswap.Core.Invariant.{
  Grown-of_calm, IsSound, Keeps, Keeps-trans, Keeps-of_calm, Placed, Placed-of_Allocated,
  Placed-then,
}
use scsiswap.Core.Transfer.{
  Piece, proceed, dirtied, s_len, add_user, drop_user, piece, add_to_list, swap_write,
  swap_repair_successive_sectors, get_swap_block_count,
}
use scsiswap.Core.Transfer.Frames.{Keeps-refl, repair-IsCalm, add_to_list-Keeps, users_back}
use scsiswap.Core.Transfer.Renewals.{Written, swap_write-Written}
use scsiswap.Core.Transfer.Write.{
  write_new, write_repair, write_piece, write_loop, scsi_swap_core_write,
}
use scsiswap.Core.Flush.Lookup.{find_info_entry}
use scsiswap.Core.Transfer.Rounds.{
  Round-elim, Round-of_Keeps, Ended-after, listed_rule, NewBy-test, NewBy, Ended-of_Keeps,
  Round-after, Round, Ended, IsSoundIf,
}

module _ {E : Type 0} (k : Kernel E) where
  write_new-Round :
      (p : Piece) (bytes : Bytes) (w : World E) → Ensures (Round w) (write_new k p bytes w)
  unfolding write_new
  write_new-Round p bytes w =
      bind_rule (swap_create k p.s_start p.s_count) _ (λ r v. Allocated w (index_of r, v)) (Round w)
        w (swap_create-Allocated k p.s_start p.s_count w)
        (λ r v a.
          option_rule r _ _ (λ o. Allocated w (index_of o, v)) (Round w) v a
            (λ without. a.steady.user)
            (λ info got.
              let placed = Placed-of_Allocated got in
              bind_rule (swap_write k none info p.s_start p.s_count bytes (s_len p)) _
                (Written w v none info.table.index) (Round w) v
                (swap_write-Written k none info p.s_start p.s_count bytes (s_len p) v placed.grown
                  tt (λ _. placed.clear))
                (λ (s, info') u done.
                  test_rule (is_ok s) _ _ (λ b. NewBy w v info.table.index b info'.table.index u)
                    (Round w) u (NewBy-test w v info.table.index s info' u done)
                    (λ (g, same).
                      bind_rule (add_to_list k info') _ (λ _ x. Keeps w x) (Round w) u
                        (add_to_list-Keeps k info'
                          (subst (λ j. Placed w j u) (sym same) (Placed-then placed g)))
                        (λ o x kept.
                          Round-of_Keeps
                            (if ltb p.s_count sector_num_per_swap_block then o else proceed) kept))
                    (λ failed. failed.user))))

  write_repair-Round :
      (p : Piece) (bytes : Bytes) (w : World E) → Ensures (Round w) (write_repair k p bytes w)
  unfolding write_repair hd_write_sector_retry
  write_repair-Round p bytes w =
      let (s, v) = swap_repair_successive_sectors k w in
      let kept = Keeps-of_calm (repair-IsCalm k w) in
      let (s', u) = hd_write_sector_retry k p.s_start p.s_count (some bytes) (s_len p) v in
      let kept' = Keeps-trans kept (
        Keeps-of_calm
          (hd_write_sector-IsCalm k p.s_start p.s_count (some bytes) (s_len p) 10 5 v)) in
      if_rule (is_ok s) _ _ (Round w) v (if_rule (is_ok s') _ _ (Round w) u kept' (new_after kept'))
        (if_rule (v.core.device_dead != 0) _ _ (Round w) v kept.user (new_after kept))
    where
      new_after : {u : World E} → Keeps w u → Ensures (Round w) (write_new k p bytes u)
      new_after {u} kept =
          weaken (write_new k p bytes u) (Round u) (Round w) (write_new-Round p bytes u)
            (λ o x next. Round-after o x kept next)

  write_piece-Round :
      (p : Piece) (bytes : Bytes) (w : World E) → Ensures (Round w) (write_piece k p bytes w)
  unfolding write_piece hd_write_sector_retry swap_find_swap_info
  write_piece-Round p bytes w =
      option_rule (find_info w.core.info_list p.b_start) _ _
        (λ o. find_info w.core.info_list p.b_start ≡ o) (Round w) w refl
        (λ _.
          let (s, v) = hd_write_sector_retry k p.s_start p.s_count (some bytes) (s_len p) w in
          let kept =
            Keeps-of_calm
              (hd_write_sector-IsCalm k p.s_start p.s_count (some bytes) (s_len p) 10 5 w) in
          if_rule p.is_good _ _ (Round w) w
            (if_rule (is_ok s) _ _ (Round w) v kept (
              if_rule (v.core.device_dead != 0) _ _ (Round w) v kept.user (
                weaken (write_repair k p bytes v) (Round v) (Round w) (write_repair-Round p bytes v)
                  (λ o x next. Round-after o x kept next))))
            (write_repair-Round p bytes w))
        (λ (n, info) found.
          bind_rule (swap_write k (some n) info p.s_start p.s_count bytes (s_len p)) _
            (Written w w (some n) info.table.index) (Round w) w
            (swap_write-Written k (some n) info p.s_start p.s_count bytes (s_len p) w
              (Grown-of_calm (IsCalm-refl w))
              (entry_index w.core.info_list n info
                (find_info_entry w.core.info_list p.b_start n info found))
              (λ e. cc))
            (λ (s, info') u done.
              listed_rule n info.table.index s info' _ _ _ u done (λ kept. kept)
                (λ kept.
                  Round-of_Keeps
                    (if ltb p.s_count sector_num_per_swap_block then dirtied else proceed) kept)
                (λ same. same)))

  write_loop-Ended :
      (n start bad i count : ℕ) (buf : Bytes) (pos : ℕ) (dirty : Bool) (w : World E)
      → Ensures (Ended w) (write_loop k n start bad i count buf pos dirty w)
  unfolding write_loop
  write_loop-Ended zero start bad i count buf pos dirty w =
      Ended-of_Keeps (if dirty then may_dirty else ok) (Keeps-refl w)
  write_loop-Ended (suc n) start bad i count buf pos dirty w =
      let p = piece start bad i count in
      after_rule (write_piece k p (slice buf pos (s_len p)) w) _ (Round w) (Ended w)
        (write_piece-Round p (slice buf pos (s_len p)) w)
        (λ o v round.
          let next = λ (d : Bool) (kept : Keeps w v).
            weaken (write_loop k n start bad (i + 1) (count - p.s_count) buf (pos + s_len p) d v)
              (Ended v) (Ended w)
              (write_loop-Ended n start bad (i + 1) (count - p.s_count) buf (pos + s_len p) d v)
              (λ s x ended. Ended-after s x kept ended) in
          Round-elim o _ _ _ (Ended w) v round (next dirty) (next true) (λ same. same))

  -- `scsi_swap_core_write` gives back its place among the users on every path that does not fault,
  -- errors included; where its status is success (0 or -DATA_MAY_DIRTY), each swap of the list is
  -- still the only owner of a marked block. The count of users is below 2^32.
  pub scsi_swap_core_write-IsSound :
      (start count bad : ℕ) (buf : Bytes) (w : World E)
      → w.core.user < 4294967296
      → IsSound w
      → Ensures
          (λ s v. (v.core.user ≡ w.core.user) × IsSoundIf s v)
          (scsi_swap_core_write k start count bad buf w)
  unfolding scsi_swap_core_write
  scsi_swap_core_write-IsSound start count bad buf w small sound =
      if_rule (w.core.device_dead != 0) _ _ Q w (refl, tt)
        (bind_rule (write_loop k (get_swap_block_count start count) start bad 0 count buf 0 false) _
          (Ended (add_user w)) Q (add_user w)
          (write_loop-Ended (get_swap_block_count start count) start bad 0 count buf 0 false
            (add_user w))
          (λ s v ended. finished s v ended))
    where
      Q : Status → World E → Type 0
      Q s v = (v.core.user ≡ w.core.user) × IsSoundIf s v

      finished : (s : Status) (v : World E) → Ended (add_user w) s v → Q s (drop_user v)
      finished ok v kept = (users_back w v small kept.user, kept.sound sound)
      finished may_dirty v kept = (users_back w v small kept.user, kept.sound sound)
      finished fail v same = (users_back w v small same, tt)
      finished eio v same = (users_back w v small same, tt)
      finished enodev v same = (users_back w v small same, tt)
