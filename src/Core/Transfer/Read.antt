-- ===== src/Core/Transfer/Read.antt =====
-- core.c: scsi_swap_core_read, from one piece to the request.
use scsiswap.Base.{
  ℕ, zero, suc, ◌+◌, ◌-◌, ◌*◌, min, Bool, true, false, none, some, Bytes, if◌then◌else◌, replicate,
  overwrite, slice, u32,
}
use scsiswap.Kernel.{Kernel}
use scsiswap.Layout.{sector_size, swap_block_size}
use scsiswap.State.{
  Status, ok, fail, may_dirty, is_ok, M, pure, lift, gets, modify, deref, ◌>>=◌, ◌>>◌,
}
use scsiswap.Io.{hd_read_sector_retry}
use scsiswap.Core.Bitmap.{set_bit}
use scsiswap.Core.Flush.{swap_find_swap_info, flush_swap_info_data}
use scsiswap.Core.Create.{swap_create}
use scsiswap.Core.Transfer.{
  copy_in, copy_out, get_swap_block_count, swap_read_info, swap_repair_successive_sectors, Outcome,
  proceed, dirtied, broken, Piece, s_len, piece, is_dead, add_user, drop_user, add_to_list,
}

module _ {E : Type 0} (k : Kernel E) where
  -- A new swap for a piece that could not be read: its contents go to the reader, then to disk.
  unfoldable pub read_new : Piece → Bytes → ℕ → M E (Outcome × Bytes)
  unfolding copy_out copy_in add_to_list
  read_new p buf pos = do
    found ← swap_create k p.s_start p.s_count
    elim found [
      | none ↦ pure (broken, buf)
      | some info ↦ do
        buffer ← deref info.buf
        bytes ← deref (
            copy_out buffer (u32 (p.s_start - p.b_start) * sector_size)
              (min (s_len p) swap_block_size))
        buf' ← deref (copy_in buf pos bytes)
        s ← lift (flush_swap_info_data k info)
        let added = do o ← add_to_list k info; pure (o, buf')
        let undo = do modify (set_bit info.table.index false); pure (broken, buf')
        if is_ok s then added else undo
    ]

  -- After a direct read has failed, or on the bad block: a repair, then a new swap.
  unfoldable pub read_repair : Piece → Bytes → ℕ → M E (Outcome × Bytes)
  unfolding read_new
  read_repair p buf pos = do
    s ← lift (swap_repair_successive_sectors k)
    dead ← gets is_dead
    let zeros = overwrite buf pos (replicate (s_len p) 0)
    if is_ok s
        then pure (proceed, zeros)
        else if dead
        then pure (broken, buf)
        else read_new p buf pos

  -- One round of `scsi_swap_core_read`.
  unfoldable pub read_piece : Piece → Bytes → ℕ → M E (Outcome × Bytes)
  unfolding read_repair
  read_piece p buf pos = do
    found ← gets (swap_find_swap_info p.b_start)
    elim found [
      | some (n, info) ↦ do
        buf' ← swap_read_info k info p.s_start p.s_count buf pos (s_len p)
        pure (proceed, buf')
      | none ↦ do
        let direct = do
          (s, got) ← lift (
              hd_read_sector_retry k p.s_start p.s_count (some (slice buf pos (s_len p))) (s_len p))
          let buf' = overwrite buf pos got
          dead ← gets is_dead
          if is_ok s
              then pure (proceed, buf')
              else if dead
              then pure (broken, buf')
              else read_repair p buf' pos
        if p.is_good then direct else read_repair p buf pos
    ]

  -- The loop, with the rounds left, `i`, `count`, the position in `buf` and `data_dirty`.
  unfoldable pub read_loop : ℕ → ℕ → ℕ → ℕ → ℕ → Bytes → ℕ → Bool → M E (Status × Bytes)
  unfolding read_piece piece
  read_loop zero start bad i count buf pos dirty w =
      some ((if dirty then may_dirty else ok, buf), w)
  read_loop (suc n) start bad i count buf pos dirty w =
      let p = piece start bad i count in
      elim (read_piece p buf pos w) [
        | none ↦ none
        | some ((o, buf'), w') ↦ elim o [
          | proceed ↦
              read_loop n start bad (i + 1) (count - p.s_count) buf' (pos + s_len p) dirty w'
          | dirtied ↦ read_loop n start bad (i + 1) (count - p.s_count) buf' (pos + s_len p) true w'
          | broken ↦ some ((fail, buf'), w')
        ]
      ]

  -- The status, and the caller's buffer.
  unfoldable pub scsi_swap_core_read : ℕ → ℕ → ℕ → Bytes → M E (Status × Bytes)
  unfolding read_loop get_swap_block_count
  scsi_swap_core_read start count bad buf = do
    dead ← gets is_dead
    let run = do
      modify add_user
      r ← read_loop (get_swap_block_count start count) start bad 0 count buf 0 false
      modify drop_user
      pure r
    if dead then pure (fail, buf) else run
