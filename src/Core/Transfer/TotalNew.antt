-- ===== src/Core/Transfer/TotalNew.antt =====
-- core.c: a new swap for a piece that cannot be read, and a read through a swap, return.
use scsiswap.Core.Alloc.Fresh.{Allocated}
use scsiswap.Layout.{sector_size, swap_block_size, swap_sector_align}
use scsiswap.Core.Transfer.Pieces.{IsInBlock}
use scsiswap.Core.Create.{swap_create}
use scsiswap.Core.Flush.{flush_swap_info_data, flush_swap_info_table}
use scsiswap.Core.Create.Total.{Equipped, swap_create-Yields}
use scsiswap.Core.Transfer.Copies.{copy_in_lem, copy_out_lem}
use scsiswap.Core.Create.Fresh.{index_of}
use scsiswap.Core.Transfer.Read.{read_new}
use scsiswap.Core.Ready.{
  AllFull-append, HasBuffer, IsReady, IsReady-after, IsReady-on_core, IsReady-then,
  flush_swap_info_table-IsReady,
}
use scsiswap.Core.Transfer.{Piece, add_to_list, copy_in, copy_out, s_len, swap_read_info}
use scsiswap.State.{Info, World, is_ok, on_core}
use scsiswap.Core.Flush.Tables.{flush_swap_info_data-IsCalm}
use scsiswap.Yields.{Yields, yield_bind, yield_deref, yield_if, yield_option, yield_pointer}
use scsiswap.Base.{
  Bytes, [], arith, length, length-overwrite, length-slice, min, overwrite, refl, slice, u32, ℕ,
  ◌*◌, ◌++◌, ◌+◌, ◌-◌, ◌∷◌, ◌≡◌, ◌≤◌,
}
use scsiswap.Kernel.{Kernel}

-- What a round of a read leaves: a world that is ready, and a buffer of the size that it had.
abbrev pub Left : {E A : Type 0} → Bytes → A × Bytes → World E → Type 0
Left buf r v = IsReady v × (length r.1 ≡ length buf)

module _ {E : Type 0} (k : Kernel E) where
  pub read_info-Yields :
      (info : Info) (p : Piece) (count pos : ℕ) (buf : Bytes) (w : World E)
      → HasBuffer info
      → IsInBlock count p
      → pos + count * sector_size ≤ length buf
      → Yields
          (λ buf' v. (v ≡ w) × (length buf' ≡ length buf))
          (swap_read_info k info p.s_start p.s_count buf pos (s_len p) w)
  unfolding swap_read_info
  read_info-Yields info p count pos buf w h at room =
      let size = min (p.s_count * sector_size) (s_len p) in
      let from = (p.s_start - swap_sector_align p.s_start) * sector_size in
      let same_size : size ≡ p.s_count * sector_size = omega (arith, at.bytes) in
      let fits : from + size ≤ length h.buffer = omega (arith, h.full, at.aligned, same_size) in
      let bytes = slice h.buffer from size in
      let lands : pos + length bytes ≤ length buf =
        omega (arith, length-slice h.buffer from size, same_size, room, at.within) in
      yield_deref info.buf h.buffer _ Q w h.held (
        yield_deref (copy_out h.buffer from size) bytes _ Q w (copy_out_lem h.buffer from size fits)
          (yield_pointer (copy_in buf pos bytes) (overwrite buf pos bytes) Q w
            (copy_in_lem buf pos bytes lands) (refl, length-overwrite buf pos bytes)))
    where
      Q : Bytes → World E → Type 0
      Q buf' v = (v ≡ w) × (length buf' ≡ length buf)

  -- The end that both loops share does not fault: the table's flush never reports a failure.
  pub add_to_list-Yields :
      (info : Info) (w : World E)
      → HasBuffer info
      → IsReady w
      → Yields (λ _ v. IsReady v) (add_to_list k info w)
  unfolding add_to_list flush_swap_info_table
  add_to_list-Yields info w b r =
      let added = on_core (λ c. record c { info_list = c.info_list ++ info ∷ [] }) w in
      let r' : IsReady added = record {
        log = r.log;
        buffers = AllFull-append w.core.info_list info r.buffers b;
      } in
      let done = flush_swap_info_table-IsReady k added r' in
      record { log = done.log; buffers = done.buffers }

  pub read_new-Yields :
      (p : Piece) (count pos : ℕ) (buf : Bytes) (w : World E)
      → IsInBlock count p
      → pos + count * sector_size ≤ length buf
      → IsReady w
      → Yields (Left buf) (read_new k p buf pos w)
  unfolding read_new
  read_new-Yields p count pos buf w at room r =
      yield_bind (swap_create k p.s_start p.s_count) _
        (λ o v. Equipped o × Allocated w (index_of o, v)) (Left buf) w
        (swap_create-Yields k p.s_start p.s_count w r.log)
        (λ o v (e, a).
          yield_option o _ _ Equipped (Left buf) v e (λ _. (IsReady-then a.steady r, refl))
            (λ info h.
              let from = u32 (p.s_start - p.b_start) * sector_size in
              let size = min (s_len p) swap_block_size in
              let small : size ≤ s_len p = omega arith in
              let fits : from + size ≤ length h.buffer =
                omega (arith, h.full, at.offset, at.bytes, small) in
              let bytes = slice h.buffer from size in
              let lands : pos + length bytes ≤ length buf =
                omega (arith, length-slice h.buffer from size, small, at.bytes, room, at.within) in
              let (s, u) = flush_swap_info_data k info v in
              let r' = IsReady-then a.steady r in
              let r'' = IsReady-after (flush_swap_info_data-IsCalm k info v) r' in
              yield_deref info.buf h.buffer _ (Left buf) v h.held (
                yield_deref (copy_out h.buffer from size) bytes _ (Left buf) v
                  (copy_out_lem h.buffer from size fits)
                  (yield_deref (copy_in buf pos bytes) (overwrite buf pos bytes) _ (Left buf) v
                    (copy_in_lem buf pos bytes lands)
                    (yield_if (is_ok s) _ _ (Left buf) u
                      (yield_bind (add_to_list k info) _ (λ _ x. IsReady x) (Left buf) u
                        (add_to_list-Yields info u h r'')
                        (λ o x ready. (ready, length-overwrite buf pos bytes)))
                      (IsReady-on_core refl refl r'', length-overwrite buf pos bytes))))))
