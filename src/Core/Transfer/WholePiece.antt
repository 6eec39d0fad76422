-- ===== src/Core/Transfer/WholePiece.antt =====
-- core.c: the only piece of a request that lies in one block.
use scsiswap.Core.Transfer.Copies.{IsPiece}
use scsiswap.Base.{arith, refl, ℕ, ◌*◌, ◌<◌, ◌≡◌}
use scsiswap.Layout.{sector_size, swap_sector_align}
use scsiswap.Core.Transfer.{Piece, get_swap_block_count, piece, s_len}

-- The one round of a request that lies in one block.
pub one_round :
    (start count : ℕ) → IsPiece start count → 0 < count → get_swap_block_count start count ≡ 1
unfolding get_swap_block_count
one_round start count at some_count = ground (arith, at.0, at.1, some_count)

-- Its piece is the request.
pub record IsWhole (start count : ℕ) (p : Piece) : Type 0 where
  pub block : p.b_start ≡ swap_sector_align start
  pub first : p.s_start ≡ start
  pub all : p.s_count ≡ count
  pub bytes : s_len p ≡ count * sector_size

pub piece-IsWhole :
    (start bad count : ℕ) → IsPiece start count → IsWhole start count (piece start bad 0 count)
unfolding piece
piece-IsWhole start bad count at = record {
  block = omega (arith, at.0, at.1);
  first = refl;
  all = omega (arith, at.0, at.1);
  bytes = omega (arith, at.0, at.1);
}
