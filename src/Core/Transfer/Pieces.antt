-- ===== src/Core/Transfer/Pieces.antt =====
-- core.c: the piece of a round lies in one block, and is no longer than what is left.
use scsiswap.Core.Transfer.{Piece, piece, s_len}
use scsiswap.Base.{false, ne→==_false, ◌==◌, arith, suc, u32, zero, ℕ, ◌*◌, ◌+◌, ◌-◌, ◌≡◌, ◌≤◌}
use scsiswap.Layout.{sector_size, swap_block_size, swap_sector_align}

-- What a round relies on: the piece's bytes, its place in the block, and what is left.
pub record IsInBlock (count : ℕ) (p : Piece) : Type 0 where
  pub within : p.s_count ≤ count
  pub bytes : s_len p ≡ p.s_count * sector_size
  pub offset : u32 (p.s_start - p.b_start) + p.s_count ≤ 128
  pub aligned : p.s_start - swap_sector_align p.s_start + p.s_count ≤ 128
  pub small :
      u32 ((p.s_start - u32 (swap_sector_align p.s_start)) * sector_size) + p.s_count * sector_size
      ≤ swap_block_size

-- Round `i`, whatever the sectors asked for are.
pub piece-IsInBlock : (start bad i count : ℕ) → IsInBlock count (piece start bad i count)
unfolding piece
piece-IsInBlock start bad zero count = record {
  within = omega arith;
  bytes = omega arith;
  offset = omega arith;
  aligned = omega arith;
  small = omega arith;
}
piece-IsInBlock start bad (suc i) count = record {
  within = omega arith;
  bytes = rw later (omega arith);
  offset = rw later (omega arith);
  aligned = rw later (omega arith);
  small = rw later (omega arith);
}
  where
    later : (suc i == 0) ≡ false
    later = ne→==_false (suc i) 0 (omega arith)
