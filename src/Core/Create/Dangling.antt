-- ===== src/Core/Create/Dangling.antt =====
-- core.c: what the failures of `swap_recreate` leave.
use scsiswap.Yields.{Yields}
use scsiswap.Ensures.{Ensures}
use scsiswap.Core.Alloc.Fresh.{bits_of}
use scsiswap.State.{Info, Status, World, ok}
use scsiswap.Core.Invariant.{indexes}
use scsiswap.Base.{false, get_elem?, get_or, some, ℕ, ◌≡◌}
use scsiswap.Kernel.{Kernel}

-- The swap at place `n` points to a block whose bit is clear: a block that will be handed out again.
abbrev pub Dangling : {E : Type 0} → ℕ → World E → Type 0
Dangling n v =
    (i : ℕ) × (get_elem? (indexes v.core.info_list) n ≡ some i)
    × (get_or (bits_of v) i false ≡ false)

abbrev pub Abandoned : {E : Type 0} → ℕ → Status × Info → World E → Type 0
Abandoned n (ok, info) v = Unit
Abandoned n (_, info) v = Dangling n v
