-- ===== src/Core/Bitmap.antt =====
-- core.c: the bitmap of used swap blocks in the head.
pub mod Laws
use scsiswap.Base.{ℕ, Bool, Option, none, some, List, set, length, ◌==◌, if◌then◌else◌}
use scsiswap.Kernel.{Kernel}
use scsiswap.Format.{Head}
use scsiswap.State.{World, on_core}

-- `swap_bitmap_set_bit`; `val` says whether the value is not 0.
unfoldable pub swap_bitmap_set_bit : List Bool → ℕ → Bool → List Bool
swap_bitmap_set_bit bits nbit val = set bits nbit val

module _ {E : Type 0} (k : Kernel E) where
  -- none is -1; `sizeof(head->bitmap) * 8` is the length of the map.
  unfoldable pub swap_head_bitmap_get_first_zero_bit : Head → Option ℕ
  swap_head_bitmap_get_first_zero_bit h =
      let nbit = k.find_first_zero_bit h.bitmap in
      if nbit == length h.bitmap then none else some nbit

module _ {E : Type 0} where
  -- The same on the head in memory.
  abbrev pub set_bit : ℕ → Bool → World E → World E
  set_bit n val w =
      let h = w.core.head in
      on_core (λ c. record c { head = record h { bitmap = swap_bitmap_set_bit h.bitmap n val } }) w
