-- ===== src/Core/Bitmap/Laws.antt =====
-- The search for a free block, and what setting a bit does.
use scsiswap.Base.{
  sym, ℕ, ◌<◌, ◌≡◌, ◌≢◌, refl, ◌∙◌, Bool, true, false, Option, none, some, List, length, get_or,
  length-set, get_or-set_self, get_or-set_ne, arith, ◌==◌, Bool-cases, inl, inr,
}
use mathlib.Core.Bool.{false≢true}
use native.Mathlib.Decide.{ℕ_discrete}
use scsiswap.Kernel.{Kernel}
use scsiswap.Format.{Head}
use scsiswap.Core.Bitmap.{swap_head_bitmap_get_first_zero_bit, swap_bitmap_set_bit}

-- What `swap_head_bitmap_get_first_zero_bit` returns: the first clear bit, or none where every bit is set.
abbrev pub IsFirstZero : List Bool → Option ℕ → Type 0
IsFirstZero bits none = (j : ℕ) → j < length bits → get_or bits j false ≡ true
IsFirstZero bits (some n) =
    (n < length bits)
    × (get_or bits n false ≡ false)
    × ((j : ℕ) → j < n → get_or bits j false ≡ true)

module _ {E : Type 0} (k : Kernel E) where
  pub get_first_zero_bit_lem :
      (h : Head) → IsFirstZero h.bitmap (swap_head_bitmap_get_first_zero_bit k h)
  unfolding swap_head_bitmap_get_first_zero_bit
  get_first_zero_bit_lem h =
      let found = k.searches h.bitmap in
      elim (Bool-cases (k.find_first_zero_bit h.bitmap == length h.bitmap)) [
        | inl full ↦ rw full (λ j lt. found.below j (ground (arith, full, lt)))
        | inr other ↦
            (let lt : k.find_first_zero_bit h.bitmap < length h.bitmap =
                ground (arith, found.inside, other) in
              rw other (lt, found.clear lt, found.below))
      ]

-- Bits that are set stay set, and the map keeps its length.
pub record Grows (a b : List Bool) : Type 0 where
  pub same_length : length b ≡ length a
  pub stays : (j : ℕ) → get_or a j false ≡ true → get_or b j false ≡ true

pub Grows-refl : (a : List Bool) → Grows a a
Grows-refl a = record { same_length = refl; stays = λ j h. h }

pub Grows-trans : {a b c : List Bool} → Grows a b → Grows b c → Grows a c
Grows-trans p q = record {
  same_length = q.same_length ∙ p.same_length;
  stays = λ j h. q.stays j (p.stays j h);
}

pub set_true-Grows :
    (bits : List Bool) (n : ℕ) → n < length bits → Grows bits (swap_bitmap_set_bit bits n true)
unfolding swap_bitmap_set_bit
set_true-Grows bits n h = record {
  same_length = length-set bits n true;
  stays = λ j e. elim (ℕ_discrete n j) [
    | yes same ↦ rw (← same) (get_or-set_self bits n true false h)
    | no other ↦ get_or-set_ne bits n j true false other ∙ e
  ];
}

pub set_bit_self :
    (bits : List Bool) (n : ℕ) (val : Bool)
    → n < length bits
    → get_or (swap_bitmap_set_bit bits n val) n false ≡ val
unfolding swap_bitmap_set_bit
set_bit_self bits n val h = get_or-set_self bits n val false h

pub set_bit_other :
    (bits : List Bool) (n j : ℕ) (val : Bool)
    → n ≢ j
    → get_or (swap_bitmap_set_bit bits n val) j false ≡ get_or bits j false
unfolding swap_bitmap_set_bit
set_bit_other bits n j val h = get_or-set_ne bits n j val false h

-- A bit that was clear at first may be cleared again.
pub Grows-unmark :
    {a b : List Bool} (i : ℕ)
    → Grows a b
    → get_or a i false ≡ false
    → Grows a (swap_bitmap_set_bit b i false)
unfolding swap_bitmap_set_bit
Grows-unmark {a} {b} i g clear = record {
  same_length = length-set b i false ∙ g.same_length;
  stays = λ j e. elim (ℕ_discrete i j) [
    | yes same ↦ absurd (false≢true (sym clear ∙ rw same e))
    | no other ↦ set_bit_other b i j false other ∙ g.stays j e
  ];
}
