-- ===== src/Core/Quiet.antt =====
-- Operations that neither touch the bitmap nor what `IsSteady` keeps.
use scsiswap.Base.{◌≡◌, ap, ◌∙◌}
use scsiswap.State.{World}
use scsiswap.Io.Effects.{IsCalm}
use scsiswap.Core.Steady.{IsSteady, IsSteady-of_calm, IsSteady-trans}
use scsiswap.Core.Alloc.Fresh.{bits_of}

pub record IsQuiet {E : Type 0} (w w' : World E) : Type 0 where
  pub steady : IsSteady w w'
  pub bits : bits_of w' ≡ bits_of w

module _ {E : Type 0} where
  pub IsQuiet-of_calm : {w w' : World E} → IsCalm w w' → IsQuiet w w'
  IsQuiet-of_calm c = record { steady = IsSteady-of_calm c; bits = ap (λ h. h.bitmap) c.head }

  pub IsQuiet-trans : {u v w : World E} → IsQuiet u v → IsQuiet v w → IsQuiet u w
  IsQuiet-trans p q = record { steady = IsSteady-trans p.steady q.steady; bits = q.bits ∙ p.bits }
