-- ===== src/Core/Transfer/Cover.antt =====
-- core.c: the rounds of a request take its sectors one after the other, up to the last.
use mathlib.Core.Path.{subst}
use scsiswap.Core.Transfer.{get_swap_block_count, piece}
use scsiswap.Layout.{swap_sector_align}
use scsiswap.Base.{
  refl, sym, ◌%◌, arith, false, min, ne→==_false, suc, zero, ℕ, ◌*◌, ◌+◌, ◌-◌, ◌/◌, ◌<◌, ◌==◌, ◌≡◌,
  ◌≤◌,
}

-- `n` rounds from round `i` on take the `left` sectors from `from` on: each begins where the last one
-- ended, in the block that is looked up for it, and takes one at least, and none is left behind the
-- last round.
abbrev pub Covers : ℕ → ℕ → ℕ → ℕ → ℕ → ℕ → Type 0
Covers zero start bad i from left = left ≡ 0
Covers (suc n) start bad i from left =
    let p = piece start bad i left in
    (p.s_start ≡ from)
    × (p.b_start ≡ swap_sector_align from)
    × (0 < p.s_count)
    × Covers n start bad (i + 1) (from + p.s_count) (left - p.s_count)

-- Where block `i` of a request begins, for `i` above 0.
abbrev block_at : ℕ → ℕ → ℕ
block_at start i = (start / 128 + i) * 128

module _ (start bad i left : ℕ) (some_i : 0 < i) (inside : block_at start i + left ≤ 4294967296)
    (some_left : 0 < left) where
  later : (i == 0) ≡ false
  later = ne→==_false i 0 (omega (arith, some_i))

  later_start : (piece start bad i left).s_start ≡ block_at start i
  unfolding piece
  later_start = rw later (omega (arith, inside, some_left))

  later_block : (piece start bad i left).b_start ≡ swap_sector_align (block_at start i)
  unfolding piece
  later_block = omega (arith, inside, some_left)

  later_count : (piece start bad i left).s_count ≡ min left 128
  unfolding piece
  later_count = rw later (omega (arith, inside, some_left))

rest-Covers :
    (n start bad i left : ℕ)
    → 0 < i
    → block_at start i + left ≤ 4294967296
    → left ≤ n * 128
    → n * 128 < left + 128
    → Covers n start bad i (block_at start i) left
rest-Covers zero start bad i left some_i inside most least = omega (arith, most)
rest-Covers (suc n) start bad i left some_i inside most least =
    let some_left : 0 < left = omega (arith, least) in
    let count = later_count start bad i left some_i inside some_left in
    (
      later_start start bad i left some_i inside some_left,
      later_block start bad i left some_i inside some_left,
      rw count (omega (arith, some_left)),
      rw count (
          by_rounds n most least (λ h.
            rest-Covers n start bad (i + 1) (left - min left 128) (omega arith)
              (omega (arith, inside, h)) (omega (arith, most, h)) (omega (arith, least, h)))),
    )
  where
    by_rounds :
        (m : ℕ)
        → left ≤ suc m * 128
        → suc m * 128 < left + 128
        → (128 ≤ left → Covers m start bad (i + 1) (block_at start (i + 1)) (left - min left 128))
        → Covers m start bad (i + 1) (block_at start i + min left 128) (left - min left 128)
    by_rounds zero most least ih = omega (arith, most)
    by_rounds (suc m) most least ih =
        let full : 128 ≤ left = omega (arith, least) in
        subst (λ from. Covers (suc m) start bad (i + 1) from (left - min left 128))
          (omega (arith, full)) (ih full)

-- The number of rounds.
rounds_lem :
    (start count : ℕ)
    → 0 < count
    → start + count ≤ 4294967296
    → count < 2147483000
    → get_swap_block_count start count ≡ suc ((start % 128 + count - 1) / 128)
unfolding get_swap_block_count
rounds_lem start count some_count inside few = ground (arith, some_count, inside, few)

first_count :
    (start bad count : ℕ) → (piece start bad 0 count).s_count ≡ min count (128 - start % 128)
unfolding piece
first_count start bad count = omega arith

first_block :
    (start bad count : ℕ)
    → start < 4294967296
    → (piece start bad 0 count).b_start ≡ swap_sector_align start
unfolding piece
first_block start bad count h = omega (arith, h)

first_start : (start bad count : ℕ) → (piece start bad 0 count).s_start ≡ start
unfolding piece
first_start start bad count = refl

-- The rounds that `get_swap_block_count` gives a request take all of its sectors, one after the
-- other, each round one or more sectors of the block that it looks up, and none is left behind the last. The
-- request has a sector, ends at or below sector 2^32, and is shorter than 2147483000 sectors.
pub request-Covers :
    (start bad count : ℕ)
    → 0 < count
    → start + count ≤ 4294967296
    → count < 2147483000
    → Covers (get_swap_block_count start count) start bad 0 start count
request-Covers start bad count some_count inside few =
    subst (λ n. Covers n start bad 0 start count)
      (sym (rounds_lem start count some_count inside few))
      (
        first_start start bad count,
        first_block start bad count (omega (arith, some_count, inside)),
        rw (first_count start bad count) (omega (arith, some_count)),
        rw (first_count start bad count) (by_rounds ((start % 128 + count - 1) / 128) refl),
      )
  where
    taken : ℕ
    taken = min count (128 - start % 128)

    by_rounds :
        (m : ℕ)
        → (start % 128 + count - 1) / 128 ≡ m
        → Covers m start bad 1 (start + taken) (count - taken)
    by_rounds zero e = omega (arith, e, some_count)
    by_rounds (suc m) e =
        subst (λ from. Covers (suc m) start bad 1 from (count - taken)) (omega (arith, e))
          (rest-Covers (suc m) start bad 1 (count - taken) (omega arith) (omega (arith, e, inside))
            (omega (arith, e)) (omega (arith, e)))
