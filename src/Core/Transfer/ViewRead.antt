-- ===== src/Core/Transfer/ViewRead.antt =====
-- core.c: a read of sectors that all have a swap returns what the swaps hold.
use scsiswap.Core.Transfer.Pieces.{piece-IsInBlock}
use mathlib.Core.Path.{subst}
use scsiswap.Layout.{sector_size}
use scsiswap.Yields.{Yields, yield_after, yield_bind, yield_test}
use scsiswap.Core.Transfer.{
  Outcome, add_user, broken, dirtied, get_swap_block_count, piece, proceed, s_len,
}
use scsiswap.Core.Transfer.Cover.{Covers, request-Covers}
use scsiswap.Core.Transfer.ViewPiece.{
  AreSwapped, Viewed, later_swapped, read_piece-Viewed, viewed_length,
}
use scsiswap.Core.Ready.{IsReady, IsReady-on_core}
use scsiswap.Base.{
  Bytes, Option, [], ap, append-nil, append_assoc, arith, false, length, length-append,
  length-overwrite, overwrite, refl, suc, sym, true, zero, ℕ, ◌!=◌, ◌*◌, ◌++◌, ◌+◌, ◌-◌, ◌<◌, ◌∙◌,
  ◌∷◌, ◌≡◌, ◌≤◌,
}
use scsiswap.State.{Status, World, ok}
use scsiswap.Core.Transfer.Read.{read_loop, read_piece, scsi_swap_core_read}
use scsiswap.Core.Transfer.View.{overwrite_more, views, views_more}
use scsiswap.Kernel.{Kernel}

module _ {E : Type 0} (k : Kernel E) where
  proceeded :
      {A : Type 0} (o : Outcome) (x y z : Option (A × World E)) (Q : A → World E → Type 0)
      → o ≡ proceed
      → Yields Q x
      → Yields Q
          (let r : Option (A × World E) = elim o [ proceed ↦ x | dirtied ↦ y | broken ↦ z ] in r)
  proceeded proceed x y z Q e h = h
  proceeded dirtied x y z Q e h = cc
  proceeded broken x y z Q e h = cc

  -- The result of the rounds, at equal arguments.
  returns :
      (n start bad i left : ℕ) {t t' b b' : Bytes} {m m' : ℕ} {u u' : World E}
      → t ≡ t'
      → b ≡ b'
      → m ≡ m'
      → u ≡ u'
      → Yields (λ r _. r ≡ (ok, t)) (read_loop k n start bad i left b m false u)
      → Yields (λ r _. r ≡ (ok, t')) (read_loop k n start bad i left b' m' false u')
  returns n start bad i left {t' = t'} {b = b} {b' = b'} {m = m} {m' = m'} {u = u} p q s v h =
      let go = λ (b : Bytes) (m : ℕ) (u : World E). read_loop k n start bad i left b m false u in
      let Q = λ (r : Status × Bytes) (_ : World E). ◌≡◌ {A = Status × Bytes} r (ok, t') in
      subst (λ u. Yields Q (go b' m' u)) v
        (subst (λ m. Yields Q (go b' m u)) s
          (subst (λ b. Yields Q (go b m u)) q
            (subst (λ t. Yields (λ r _. r ≡ (ok, t)) (go b m u)) p h)))

  -- The rounds, where they take the sectors one after the other.
  read_loop-views :
      (n start bad i from left : ℕ) (xs out : Bytes) (w : World E)
      → Covers n start bad i from left
      → AreSwapped w.core.info_list from left
      → IsReady w
      → length xs + left * sector_size ≤ length out
      → Yields
          (λ r _. r ≡ (ok, overwrite out 0 (xs ++ views w.core.info_list from left)))
          (read_loop k n start bad i left (overwrite out 0 xs) (length xs) false w)
  unfolding read_loop
  read_loop-views zero start bad i from left xs out w covers swapped r room =
      subst
        (λ m.
          ◌≡◌ {A = Status × Bytes} (ok, overwrite out 0 xs)
            (ok, overwrite out 0 (xs ++ views w.core.info_list from m)))
        (sym covers) (ap (λ t. (ok, overwrite out 0 t)) (sym (append-nil xs)))
  read_loop-views (suc n) start bad i from left xs out w (first, block, some_count, covers) swapped
        r room =
      let p = piece start bad i left in
      let at = piece-IsInBlock start bad i left in
      let infos = w.core.info_list in
      let ys = views infos from p.s_count in
      let sized = viewed_length k p left from w first block some_count at swapped r in
      let long : length (xs ++ ys) ≡ length xs + s_len p =
        length-append xs ys ∙ ap (λ t. length xs + t) sized in
      yield_after (read_piece k p (overwrite out 0 xs) (length xs) w) _
        (Viewed k w from p.s_count (length xs) (overwrite out 0 xs))
        (λ r _. r ≡ (ok, overwrite out 0 (xs ++ views infos from left)))
        (read_piece-Viewed k p left from w first block some_count at swapped r (length xs)
          (overwrite out 0 xs) (omega (arith, room, length-overwrite out 0 xs)))
        (λ (o, buf') v (went, same, still).
          let ih =
            read_loop-views n start bad (i + 1) (from + p.s_count) (left - p.s_count) (xs ++ ys) out
              w covers (later_swapped k infos from p.s_count left at.within swapped) r
              (omega (arith, room, long, at.within, at.bytes)) in
          let whole : (xs ++ ys) ++ views infos (from + p.s_count) (left - p.s_count)
              ≡ xs ++ views infos from left =
            append_assoc xs ys (views infos (from + p.s_count) (left - p.s_count))
            ∙ ap (λ t. xs ++ t)
                (sym (views_more infos from p.s_count (left - p.s_count))
                  ∙ ap (views infos from) {x = p.s_count + (left - p.s_count)} {y = left}
                      (omega (arith, at.within))) in
          proceeded o _ _ _ (λ r _. r ≡ (ok, overwrite out 0 (xs ++ views infos from left))) went
            (returns n start bad (i + 1) (left - p.s_count) (ap (overwrite out 0) whole)
              (sym (same ∙ overwrite_more out xs ys)) long (sym still) ih))

  overwrite_nothing : (out : Bytes) → overwrite out 0 [] ≡ out
  unfolding overwrite
  overwrite_nothing [] = refl
  overwrite_nothing (x ∷ out) = refl

  -- A read of sectors that all lie in blocks with a swap returns with status 0, and the caller's
  -- buffer begins with the contents that the swaps give these sectors, in order, over as many
  -- blocks as there are. The device has not died; each swap has its buffer of 64 KB; the request has
  -- a sector, ends at or below sector 2^32, and is shorter than 2147483000 sectors; the buffer has
  -- room for it.
  pub scsi_swap_core_read-views :
      (start count bad : ℕ) (out : Bytes) (w : World E)
      → 0 < count
      → start + count ≤ 4294967296
      → count < 2147483000
      → count * sector_size ≤ length out
      → w.core.device_dead ≡ 0
      → IsReady w
      → AreSwapped w.core.info_list start count
      → Yields
          (λ r _. r ≡ (ok, overwrite out 0 (views w.core.info_list start count)))
          (scsi_swap_core_read k start count bad out w)
  unfolding scsi_swap_core_read
  scsi_swap_core_read-views start count bad out w some_count inside few room alive r swapped =
      yield_test (w.core.device_dead != 0) _ _ (λ b. (w.core.device_dead != 0) ≡ b) Q w refl
        (λ dead. absurd (not_dead dead))
        (λ _.
          yield_bind (read_loop k (get_swap_block_count start count) start bad 0 count out 0 false)
            _ Q Q (add_user w)
            (subst
              (λ b. Yields Q (
                read_loop k (get_swap_block_count start count) start bad 0 count b 0 false
                  (add_user w)))
              (overwrite_nothing out)
              (read_loop-views (get_swap_block_count start count) start bad 0 start count [] out
                (add_user w) (request-Covers start bad count some_count inside few) swapped
                (IsReady-on_core refl refl r) (omega (arith, room))))
            (λ r v same. same))
    where
      Q : Status × Bytes → World E → Type 0
      Q r _ = r ≡ (ok, overwrite out 0 (views w.core.info_list start count))

      not_dead : (w.core.device_dead != 0) ≡ true → ⊥
      not_dead h = ground (arith, alive, h)
