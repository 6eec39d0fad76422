-- ===== src/Core/Create/Recreated.antt =====
-- core.c: `swap_recreate` of a swap of the list, on all its paths.
use scsiswap.Core.Transfer.Rounds.{Keeps-of_Moved}
use scsiswap.Io.Effects.{IsCalm-refl}
use scsiswap.Core.Create.{swap_recreate}
use scsiswap.Core.Alloc.Fresh.{bits_of}
use scsiswap.Core.Ready.{HasBuffer, IsReady}
use scsiswap.Core.Invariant.{Grown-of_calm, IsSound, indexes}
use scsiswap.Core.Create.Moves.{Renewed}
use scsiswap.Core.Create.Renewed.{swap_recreate-Renewed}
use scsiswap.Core.Create.TotalRenewal.{Kept, swap_recreate-Yields}
use scsiswap.Yields.{Yields, both, yield_weaken}
use scsiswap.Base.{false, get_or, set, some, true, ℕ, ◌≡◌}
use scsiswap.State.{Info, Status, World, eio, enodev, fail, may_dirty, ok}
use scsiswap.Kernel.{Kernel}

-- What it leaves: with success the swap at place `n` has a block that was free before and is marked
-- now, and the swaps are sound; otherwise the users, the log and the buffers are told of.
abbrev pub Recreated : {E : Type 0} → World E → ℕ → Status × Info → World E → Type 0
Recreated w n (ok, info) v =
    (indexes v.core.info_list ≡ set (indexes w.core.info_list) n info.table.index)
    × (get_or (bits_of w) info.table.index false ≡ false)
    × (get_or (bits_of v) info.table.index false ≡ true)
    × IsSound v
    × IsReady v
    × (v.core.user ≡ w.core.user)
Recreated w n (_, info) v = IsReady v × (v.core.user ≡ w.core.user)

module _ {E : Type 0} (k : Kernel E) where
  recreated :
      (w : World E) (n : ℕ) (s : Status) (info : Info) (v : World E)
      → IsSound w
      → Kept (s, info) v × Renewed w (some n) (s, info) v
      → Recreated w n (s, info) v
  recreated w n ok info v sound (kept, m) =
      (m.blocks, m.clear, m.marked, (Keeps-of_Moved m).sound sound, kept.0, m.user)
  recreated w n fail info v sound (kept, f) = (kept.0, f.user)
  recreated w n eio info v sound (kept, f) = (kept.0, f.user)
  recreated w n enodev info v sound (kept, f) = (kept.0, f.user)
  recreated w n may_dirty info v sound (kept, f) = (kept.0, f.user)

  -- `swap_recreate` of a swap that stands at place `n` of the list returns, whatever the device
  -- does. Where it succeeds, the block of that place, and of no other, has changed to one that was
  -- free before and is marked now, and each swap of the list is still the only owner of a marked
  -- block. On every path the count of users stays, each swap has its buffer of 64 KB, and the log
  -- its ring. The same holds before it, and the swap given has such a buffer.
  pub swap_recreate-Recreated :
      (n : ℕ) (info : Info) (w : World E)
      → HasBuffer info
      → IsReady w
      → IsSound w
      → Yields (λ r v. Recreated w n r v) (swap_recreate k (some n) info w)
  swap_recreate-Recreated n info w buffer ready sound =
      yield_weaken (swap_recreate k (some n) info w) _ _
        (both (swap_recreate k (some n) info w) _ _
          (swap_recreate-Yields k (some n) info w buffer ready)
          (swap_recreate-Renewed k (some n) info w (Grown-of_calm (IsCalm-refl w)) (λ e. cc)))
        (λ (s, info') v h. recreated w n s info' v sound h)
