-- ===== src/Core/Flush/Rounds.antt =====
-- The loops that write a sector of tables until a write succeeds.
use scsiswap.Base.{
  ℕ, some, zero, suc, ◌+◌, ◌-◌, ◌<◌, ◌≡◌, refl, arith, Bool, true, false, Bytes, leb,
}
use scsiswap.Kernel.{Kernel}
use scsiswap.Layout.{sector_size}
use scsiswap.State.{World, is_ok}
use scsiswap.Io.{hd_write_sector_retry}
use scsiswap.Core.Flush.{write_until}

module _ {E : Type 0} (k : Kernel E) where
  same_case :
      {A : Type 0} (b : Bool) (x y z : A)
      → (b ≡ false → y ≡ z)
      → (let r : A = elim b [ true ↦ x | false ↦ y ] in r)
        ≡ (let r : A = elim b [ true ↦ x | false ↦ z ] in r)
  same_case true x y z h = refl
  same_case false x y z h = h refl

  -- With at least one round more than `limit - at` sectors lie ahead, the loop does not run out of
  -- rounds: any two such numbers of rounds give the same place and the same world.
  pub write_until_lem :
      (n m limit at : ℕ) (buffer : Bytes) (w : World E)
      → limit - at < n
      → limit - at < m
      → write_until k n limit at buffer w ≡ write_until k m limit at buffer w
  unfolding write_until
  write_until_lem zero m limit at buffer w p q = absurd (omega arith)
  write_until_lem (suc n) zero limit at buffer w p q = absurd (omega arith)
  write_until_lem (suc n) (suc m) limit at buffer w p q =
      let (s, w') = hd_write_sector_retry k at 1 (some buffer) sector_size w in
      same_case (is_ok s) (at + 1, w') _ _
        (λ _.
          same_case (leb limit (at + 1)) (at + 1, w') (write_until k n limit (at + 1) buffer w')
            (write_until k m limit (at + 1) buffer w')
            (λ more.
              write_until_lem n m limit (at + 1) buffer w' (omega (arith, ahead more, p))
                (omega (arith, ahead more, q))))
    where
      ahead : leb limit (at + 1) ≡ false → at + 1 < limit
      ahead more = ground arith
