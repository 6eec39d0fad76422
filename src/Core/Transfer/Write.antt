-- ===== src/Core/Transfer/Write.antt =====
-- core.c: scsi_swap_core_write, from one piece to the request.
use scsiswap.Base.{
  ℕ, zero, suc, ◌+◌, ◌-◌, Bool, true, false, none, some, Bytes, ltb, if◌then◌else◌, slice,
}
use scsiswap.Kernel.{Kernel}
use scsiswap.Layout.{sector_num_per_swap_block}
use scsiswap.State.{Status, ok, fail, may_dirty, is_ok, M, pure, lift, gets, modify, ◌>>=◌, ◌>>◌}
use scsiswap.Io.{hd_write_sector_retry}
use scsiswap.Core.Bitmap.{set_bit}
use scsiswap.Core.Flush.{swap_find_swap_info}
use scsiswap.Core.Create.{swap_create}
use scsiswap.Core.Transfer.{
  get_swap_block_count, swap_write, swap_repair_successive_sectors, Outcome, proceed, dirtied,
  broken, Piece, s_len, piece, is_dead, add_user, drop_user, add_to_list,
}

module _ {E : Type 0} (k : Kernel E) where
  -- A new swap takes the piece. Also a write that needed a second block counts as a failure.
  unfoldable pub write_new : Piece → Bytes → M E Outcome
  unfolding add_to_list
  write_new p bytes = do
    found ← swap_create k p.s_start p.s_count
    elim found [
      | none ↦ pure broken
      | some info ↦ do
        (s, info') ← swap_write k none info p.s_start p.s_count bytes (s_len p)
        let added = do
          o ← add_to_list k info'
          pure (if ltb p.s_count sector_num_per_swap_block then o else proceed)
        let undo = do modify (set_bit info'.table.index false); pure broken
        if is_ok s then added else undo
    ]

  -- A repair, the write again, or a new swap.
  unfoldable pub write_repair : Piece → Bytes → M E Outcome
  unfolding write_new
  write_repair p bytes = do
    s ← lift (swap_repair_successive_sectors k)
    dead ← gets is_dead
    let again = do
      s' ← lift (hd_write_sector_retry k p.s_start p.s_count (some bytes) (s_len p))
      if is_ok s' then pure proceed else write_new p bytes
    if is_ok s then again else if dead then pure broken else write_new p bytes

  -- One round of `scsi_swap_core_write`, on the bytes of its piece.
  unfoldable pub write_piece : Piece → Bytes → M E Outcome
  unfolding write_repair
  write_piece p bytes = do
    found ← gets (swap_find_swap_info p.b_start)
    elim found [
      | some (n, info) ↦ do
        (s, info') ← swap_write k (some n) info p.s_start p.s_count bytes (s_len p)
        elim s [
          | ok ↦ pure proceed
          | may_dirty ↦ pure (if ltb p.s_count sector_num_per_swap_block then dirtied else proceed)
          | _ ↦ pure broken
        ]
      | none ↦ do
        let direct = do
          s ← lift (hd_write_sector_retry k p.s_start p.s_count (some bytes) (s_len p))
          dead ← gets is_dead
          if is_ok s then pure proceed else if dead then pure broken else write_repair p bytes
        if p.is_good then direct else write_repair p bytes
    ]

  unfoldable pub write_loop : ℕ → ℕ → ℕ → ℕ → ℕ → Bytes → ℕ → Bool → M E Status
  unfolding write_piece piece
  write_loop zero start bad i count buf pos dirty w = some (if dirty then may_dirty else ok, w)
  write_loop (suc n) start bad i count buf pos dirty w =
      let p = piece start bad i count in
      elim (write_piece p (slice buf pos (s_len p)) w) [
        | none ↦ none
        | some (o, w') ↦ elim o [
          | proceed ↦
              write_loop n start bad (i + 1) (count - p.s_count) buf (pos + s_len p) dirty w'
          | dirtied ↦ write_loop n start bad (i + 1) (count - p.s_count) buf (pos + s_len p) true w'
          | broken ↦ some (fail, w')
        ]
      ]

  unfoldable pub scsi_swap_core_write : ℕ → ℕ → ℕ → Bytes → M E Status
  unfolding write_loop get_swap_block_count
  scsi_swap_core_write start count bad buf = do
    dead ← gets is_dead
    let run = do
      modify add_user
      r ← write_loop (get_swap_block_count start count) start bad 0 count buf 0 false
      modify drop_user
      pure r
    if dead then pure fail else run
