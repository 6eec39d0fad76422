-- ===== src/Core/Alloc/Fresh.antt =====
-- A block that `_swap_alloc_new_block` hands out was free before, and is marked.
use scsiswap.Base.{
  ℕ, zero, suc, ◌+◌, ◌*◌, ◌<◌, ◌≡◌, ap, ◌∙◌, sym, Bool, true, false, Option, none, some, List,
  length, get_or, arith, Bool-cases, replicate, if◌then◌else◌,
}
use mathlib.Core.Path.{subst}
use mathlib.Core.Bool.{false≢true}
use mathlib.Core.Logic.{inl, inr}
use scsiswap.Kernel.{Kernel}
use scsiswap.Layout.{sector_num_per_swap_block, swap_block_size}
use scsiswap.State.{World, is_ok, mark_dead, ok, fail}
use scsiswap.Io.Effects.{
  IsCalm, IsCalm-trans, IsCalm-refl, env-IsCalm, hd_write_sector-IsCalm, mark_dead-IsCalm, on_if,
}
use scsiswap.Io.{hd_write_sector_retry}
use scsiswap.Core.Steady.{IsSteady, IsSteady-of_calm, IsSteady-trans}
use scsiswap.Core.Bitmap.{swap_bitmap_set_bit, set_bit, swap_head_bitmap_get_first_zero_bit}
use scsiswap.Core.Bitmap.Laws.{
  IsFirstZero, get_first_zero_bit_lem, Grows, Grows-refl, Grows-trans, set_true-Grows, set_bit_self,
}
use scsiswap.Core.Alloc.{swap_check_block, alloc_loop, swap_alloc_new_block}

module _ {E : Type 0} where
  abbrev pub bits_of : World E → List Bool
  bits_of w = w.core.head.bitmap

  -- What the search for a block has done, from `w` on.
  pub record Allocated (w : World E) (r : Option ℕ × World E) : Type 0 where
    pub steady : IsSteady w r.1
    pub grows : Grows (bits_of w) (bits_of r.1)
    pub fresh :
        (i : ℕ)
        → r.0 ≡ some i
        → (i < length (bits_of w))
          × (get_or (bits_of w) i false ≡ false)
          × (get_or (bits_of r.1) i false ≡ true)

module _ {E : Type 0} (k : Kernel E) where
  swap_check_block-IsCalm : (sec : ℕ) (w : World E) → IsCalm w (swap_check_block k sec w).1
  unfolding swap_check_block hd_write_sector_retry
  swap_check_block-IsCalm sec w =
      let (got, e) = k.kmalloc swap_block_size w.env in
      let w' = record w { env = e } in
      let (s, w'') =
        hd_write_sector_retry k sec sector_num_per_swap_block (some (replicate swap_block_size 0))
          swap_block_size w' in
      on_if w got (if is_ok s then ok else fail, w'') (fail, w')
        (IsCalm-trans (env-IsCalm k w e) (
          hd_write_sector-IsCalm k sec sector_num_per_swap_block
            (some (replicate swap_block_size 0)) swap_block_size 10 5 w'))
        (env-IsCalm k w e)

  -- A world that is calm but for the bitmap's growth continues an allocation.
  continue_after :
      {w v : World E} {r : Option ℕ × World E}
      → IsSteady w v
      → Grows (bits_of w) (bits_of v)
      → Allocated v r
      → ((i : ℕ) → r.0 ≡ some i → get_or (bits_of w) i false ≡ false)
      → Allocated w r
  continue_after st g a old = record {
    steady = IsSteady-trans st a.steady;
    grows = Grows-trans g a.grows;
    fresh = λ i e. (rw (← g.same_length) (a.fresh i e).0, old i e, (a.fresh i e).2);
  }

  nothing_found :
      {w v : World E} → IsSteady w v → Grows (bits_of w) (bits_of v) → Allocated w (none, v)
  nothing_found st g = record { steady = st; grows = g; fresh = λ i e. cc }

  set_bit-IsSteady : (n : ℕ) (val : Bool) (w : World E) → IsSteady w (set_bit n val w)
  set_bit-IsSteady n val w = ground arith

  bits-calm : {w v : World E} → IsCalm w v → bits_of v ≡ bits_of w
  bits-calm c = ap (λ h. h.bitmap) c.head

  taken :
      {w v : World E} (index : ℕ)
      → IsCalm w v
      → index < length (bits_of w)
      → get_or (bits_of w) index false ≡ false
      → Allocated w (some index, set_bit index true v)
  taken {w} {v} index c lt clear = record {
    steady = IsSteady-trans (IsSteady-of_calm c) (set_bit-IsSteady index true v);
    grows = grown;
    fresh = λ i e.
        subst
          (λ t.
            (t < length (bits_of w))
            × (get_or (bits_of w) t false ≡ false)
            × (get_or (swap_bitmap_set_bit (bits_of v) index true) t false ≡ true))
          (let same : index ≡ i = cc in same) (lt, clear, marked);
  }
    where
      grown : Grows (bits_of w) (swap_bitmap_set_bit (bits_of v) index true)
      grown = rw (bits-calm c) (set_true-Grows (bits_of w) index lt)

      marked : get_or (swap_bitmap_set_bit (bits_of v) index true) index false ≡ true
      marked = rw (bits-calm c) (set_bit_self (bits_of w) index true lt)

  -- A bit that is clear after growth was clear before.
  pub clear_before :
      {a b : List Bool} → Grows a b → (i : ℕ) → get_or b i false ≡ false → get_or a i false ≡ false
  clear_before {a} g i e = elim (Bool-cases (get_or a i false)) [
    | inl set_before ↦ absurd (false≢true (sym e ∙ g.stays i set_before))
    | inr clear ↦ clear
  ]

  -- One round that failed: the block is marked, and the search goes on.
  retry_round :
      (rest : ℕ → World E → Option ℕ × World E) {w v : World E}
      → ((index : ℕ) (u : World E)
          → index < length (bits_of u)
          → get_or (bits_of u) index false ≡ false
          → Allocated u (rest index u))
      → IsSteady w v
      → Grows (bits_of w) (bits_of v)
      → (o : Option ℕ) → IsFirstZero (bits_of v) o
      → Allocated w (
          let r : Option ℕ × World E = elim o [ none ↦ (none, v) | some index' ↦ rest index' v ] in
          r)
  retry_round rest ih st g none first = nothing_found st g
  retry_round rest {w} {v} ih st g (some i) first =
      let a = ih i v first.0 first.1 in
      continue_after st g a (λ j e. clear_before g j (a.fresh j e).1)

  first_zero :
      (w : World E) → IsFirstZero (bits_of w) (swap_head_bitmap_get_first_zero_bit k w.core.head)
  first_zero w = get_first_zero_bit_lem k w.core.head

  choose :
      {w : World E} (b : Bool) (x y : Option ℕ × World E)
      → Allocated w x
      → Allocated w y
      → Allocated w (let r : Option ℕ × World E = elim b [ true ↦ x | false ↦ y ] in r)
  choose true x y p q = p
  choose false x y p q = q

  choose_if :
      {w : World E} (b : Bool) (x y : Option ℕ × World E)
      → Allocated w x
      → Allocated w y
      → Allocated w (if b then x else y)
  choose_if true x y p q = p
  choose_if false x y p q = q

  alloc_loop-Allocated :
      (n index : ℕ) (w : World E)
      → index < length (bits_of w)
      → get_or (bits_of w) index false ≡ false
      → Allocated w (alloc_loop k n index w)
  unfolding alloc_loop
  alloc_loop-Allocated zero index w lt clear =
      let sec = w.core.sector_data + sector_num_per_swap_block * index in
      let (s, w') = swap_check_block k sec w in
      let c = swap_check_block-IsCalm sec w in
      choose_if (is_ok s) (some index, set_bit index true w') (none, mark_dead w')
        (taken index c lt clear)
        (nothing_found (IsSteady-of_calm (IsCalm-trans c (mark_dead-IsCalm w')))
          (rw (bits-calm c) (Grows-refl (bits_of w))))
  alloc_loop-Allocated (suc n) index w lt clear =
      let sec = w.core.sector_data + sector_num_per_swap_block * index in
      let (s, w') = swap_check_block k sec w in
      let t = taken index (swap_check_block-IsCalm sec w) lt clear in
      let w'' = set_bit index true w' in
      choose (is_ok s) (some index, w'')
        (let r : Option ℕ × World E = elim (swap_head_bitmap_get_first_zero_bit k w''.core.head) [
          | none ↦ (none, w'')
          | some index' ↦ alloc_loop k n index' w''
        ] in
          r)
        t
        (retry_round (alloc_loop k n) (alloc_loop-Allocated n) t.steady t.grows
          (swap_head_bitmap_get_first_zero_bit k w''.core.head) (first_zero w''))

  -- `_swap_alloc_new_block` returns a block whose bit was clear and is now set; whatever the
  -- outcome, every bit that was set before is still set, and the list of swaps, its count, the
  -- count of users and the place of the data area stay.
  pub swap_alloc_new_block-Allocated : (w : World E) → Allocated w (swap_alloc_new_block k w)
  unfolding swap_alloc_new_block
  swap_alloc_new_block-Allocated w =
      retry_round (alloc_loop k 16) (alloc_loop-Allocated 16) (IsSteady-of_calm (IsCalm-refl w))
        (Grows-refl (bits_of w)) (swap_head_bitmap_get_first_zero_bit k w.core.head) (first_zero w)
