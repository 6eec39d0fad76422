-- ===== src/Core/Query/Mapped.antt =====
-- The block layer's question whether a range of sectors touches a swap.
use scsiswap.Base.{
  ℕ, zero, suc, ◌+◌, ◌-◌, ◌*◌, ◌/◌, ◌<◌, ◌≡◌, refl, arith, ◌↔◌, inl, inr, true, false, ltb, none,
  some, ltb→lt, lt→ltb, sym, ◌∙◌, ap, ◌≤◌, max, u32, u64, extend, Bool-cases, Option-cases,
}
use mathlib.Core.Bool.{true≢false}
use scsiswap.Layout.{sector_num_per_swap_block, swap_sector_align}
use scsiswap.State.{World, Info}
use scsiswap.Core.Flush.{swap_find_swap_info}
use scsiswap.Core.Query.{swapped_loop, did_block_swapped, scsi_swap_core_swapped}
use mathlib.Core.Path.{subst}

start_is_first : (start : ℕ) → start + 128 * 0 ≡ start
start_is_first start = omega arith

shift : (start j : ℕ) → start + 128 * suc j ≡ start + 128 + 128 * j
shift start j = omega arith

-- The block of a sector of the range, counted from the first one.
pub block_of :
    (first sector : ℕ)
    → first ≤ sector
    → swap_sector_align first + 128 * (sector / 128 - first / 128) ≡ swap_sector_align sector
block_of first sector le = omega arith

-- The next block is no wrap-around where the range ends in front of the last one.
in_range :
    (start end : ℕ) → start < end → end ≤ 18446744073709551488 → u64 (start + 128) ≡ start + 128
in_range start end lt small = omega arith

module _ {E : Type 0} where
  -- The block at `sector` has a swap.
  abbrev pub IsMapped : World E → ℕ → Type 0
  IsMapped w sector = (p : ℕ × Info) × (swap_find_swap_info sector w ≡ some p)

  loop_out :
      (n start end : ℕ) (w : World E)
      → ltb start end ≡ false
      → swapped_loop (suc n) start end w ≡ false
  unfolding swapped_loop
  loop_out n start end w h = rw (h, swapped_loop) refl

  loop_next :
      (n start end : ℕ) (w : World E)
      → ltb start end ≡ true
      → swap_find_swap_info start w ≡ none
      → end ≤ 18446744073709551488
      → swapped_loop (suc n) start end w ≡ swapped_loop n (start + 128) end w
  unfolding swapped_loop
  loop_next n start end w h m small =
      rw (h, swapped_loop) (rw (m, swapped_loop) refl)
      ∙ ap (λ x. swapped_loop n x end w) (in_range start end (ltb→lt start end h) small)

  loop_found :
      (n start end : ℕ) (w : World E)
      → ltb start end ≡ true
      → IsMapped w start
      → swapped_loop (suc n) start end w ≡ true
  unfolding swapped_loop
  loop_found n start end w h m = rw (h, swapped_loop) (rw (m.1, swapped_loop) refl)

  loop_sound :
      (n start end : ℕ) (w : World E)
      → end ≤ 18446744073709551488
      → swapped_loop n start end w ≡ true
      → (j : ℕ) × (start + 128 * j < end) × IsMapped w (start + 128 * j)
  unfolding swapped_loop
  loop_sound zero start end w small h = absurd (true≢false (sym h))
  loop_sound (suc n) start end w small h = elim (Bool-cases (ltb start end)) [
    | inr outside ↦ absurd (true≢false (sym h ∙ loop_out n start end w outside))
    | inl inside ↦ elim (Option-cases (swap_find_swap_info start w)) [
      | inr found ↦
          (0, rw (start_is_first start) (ltb→lt start end inside), rw (start_is_first start) found)
      | inl missing ↦
          (let (j, lt, m) =
              loop_sound n (start + 128) end w small
                (sym (loop_next n start end w inside missing small) ∙ h) in
            (suc j, omega (arith, lt), rw (shift start j) m))
    ]
  ]

  loop_complete :
      (n start end : ℕ) (w : World E) (j : ℕ)
      → end ≤ 18446744073709551488
      → j < n
      → start + 128 * j < end
      → IsMapped w (start + 128 * j)
      → swapped_loop n start end w ≡ true
  unfolding swapped_loop
  loop_complete zero start end w j small lt inside m = elim lt [ ]
  loop_complete (suc n) start end w zero small lt inside m =
      loop_found n start end w (lt→ltb start end (rw (← start_is_first start) inside))
        (rw (← start_is_first start) m)
  loop_complete (suc n) start end w (suc j) small lt inside m =
      let now : ltb start end ≡ true = lt→ltb start end (omega (arith, inside)) in
      elim (Option-cases (swap_find_swap_info start w)) [
        | inr found ↦ loop_found n start end w now found
        | inl missing ↦
            loop_next n start end w now missing small
            ∙ loop_complete n (start + 128) end w j small (omega (arith, lt))
                (omega (arith, inside)) (rw (← shift start j) m)
      ]

  -- The answer on the blocks from the first sector's on.
  pub swapped_blocks :
      (sector num : ℕ) (w : World E)
      → num < 2147483648
      → sector + num ≤ 18446744073709551488
      → (scsi_swap_core_swapped sector num w ≡ true) ↔ (
          (j : ℕ) × (swap_sector_align sector + 128 * j < sector + num)
          × IsMapped w (swap_sector_align sector + 128 * j))
  unfolding scsi_swap_core_swapped did_block_swapped
  swapped_blocks sector num w few small = rw ends (
    loop_sound (suc ((sector + num - swap_sector_align sector) / sector_num_per_swap_block))
        (swap_sector_align sector) (sector + num) w small,
    λ (j, inside, m).
        loop_complete (suc ((sector + num - swap_sector_align sector) / sector_num_per_swap_block))
          (swap_sector_align sector) (sector + num) w j small (rounds inside) inside m,
  )
    where
      ends : u64 (sector + extend (u32 num)) ≡ sector + num
      ends = ground arith

      rounds :
          {j : ℕ}
          → swap_sector_align sector + 128 * j < sector + num
          → j < suc ((sector + num - swap_sector_align sector) / sector_num_per_swap_block)
      rounds inside = omega (arith, inside)

  -- `scsi_swap_core_swapped` answers yes exactly when a sector of the range lies in a block that has
  -- a swap. The range has a sector, fewer than 2^31 of them, and ends 128 sectors below 2^64 or
  -- earlier.
  pub scsi_swap_core_swapped_iff :
      (sector num : ℕ) (w : World E)
      → 0 < num
      → num < 2147483648
      → sector + num ≤ 18446744073709551488
      → (scsi_swap_core_swapped sector num w ≡ true)
        ↔ ((x : ℕ) × (sector ≤ x) × (x < sector + num) × IsMapped w (swap_sector_align x))
  scsi_swap_core_swapped_iff sector num w some_sector few small = (
    λ h.
        let (j, inside, m) = (swapped_blocks sector num w few small).0 h in
        let x = max sector (swap_sector_align sector + 128 * j) in
        (x, omega arith, omega (arith, inside), rw (first_of j) m),
    λ (x, lo, hi, m). (swapped_blocks sector num w few small).1 (
      x / 128 - sector / 128,
      rw (block_of sector x lo) (omega (arith, hi)),
      subst (IsMapped w) (sym (block_of sector x lo)) m,
    ),
  )
    where
      first_of :
          (j : ℕ)
          → swap_sector_align (max sector (swap_sector_align sector + 128 * j))
            ≡ swap_sector_align sector + 128 * j
      first_of j = omega arith
