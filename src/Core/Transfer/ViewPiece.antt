-- ===== src/Core/Transfer/ViewPiece.antt =====
-- core.c: a round of a read on swapped sectors.
use scsiswap.Layout.{sector_size, swap_sector_align}
use scsiswap.Core.Flush.{find_info}
use scsiswap.Core.Transfer.Pieces.{IsInBlock}
use scsiswap.Core.Transfer.Read.{read_piece}
use scsiswap.Core.Transfer.Copies.{copy_in_lem, copy_out_lem}
use scsiswap.Core.Transfer.View.{views, views_in_block}
use mathlib.Core.Path.{subst}
use scsiswap.Yields.{Yields, yield_bind}
use scsiswap.State.{Info, World, deref}
use scsiswap.Ensures.{deref-some}
use scsiswap.Core.Flush.Lookup.{find_info_entry}
use scsiswap.Core.Transfer.FoundRead.{swapped_read}
use scsiswap.Base.{
  Bytes, List, ap, arith, length, length-slice, min, overwrite, refl, slice, some, sym, ℕ, ◌*◌, ◌+◌,
  ◌-◌, ◌<◌, ◌∙◌, ◌≡◌, ◌≤◌,
}
use scsiswap.Core.Transfer.{Outcome, Piece, copy_out, proceed, s_len, swap_read_info}
use scsiswap.Core.Ready.{AllFull-get, HasBuffer, IsReady}
use scsiswap.Kernel.{Kernel}

-- Every sector from `s` on, `n` of them, is in a block that has a swap.
abbrev pub AreSwapped : List Info → ℕ → ℕ → Type 0
AreSwapped infos s n =
    (i : ℕ)
    → i < n
    → (m : ℕ) × (info : Info) × (find_info infos (swap_sector_align (s + i)) ≡ some (m, info))

module _ {E : Type 0} (k : Kernel E) where
  pub read_info_lem :
      (info : Info) (p : Piece) (count pos : ℕ) (buf : Bytes) (w : World E) (h : HasBuffer info)
      → IsInBlock count p
      → pos + count * sector_size ≤ length buf
      → swap_read_info k info p.s_start p.s_count buf pos (s_len p) w
        ≡ some (
          overwrite buf pos (
              slice h.buffer
                ((p.s_start - swap_sector_align p.s_start) * sector_size)
                (p.s_count * sector_size)),
          w,
        )
  unfolding swap_read_info
  read_info_lem info p count pos buf w h at room =
      let from = (p.s_start - swap_sector_align p.s_start) * sector_size in
      let size = p.s_count * sector_size in
      let same_size : min (p.s_count * sector_size) (s_len p) ≡ size = omega (arith, at.bytes) in
      let fits : from + size ≤ length h.buffer = omega (arith, h.full, at.aligned) in
      let lands : pos + length (slice h.buffer from size) ≤ length buf =
        omega (arith, length-slice h.buffer from size, room, at.within) in
      deref-some info.buf h.buffer _ w h.held
      ∙ (deref-some (copy_out h.buffer from (min (p.s_count * sector_size) (s_len p)))
            (slice h.buffer from size) _ w
            (ap (copy_out h.buffer from) same_size ∙ copy_out_lem h.buffer from size fits)
          ∙ ap (λ o. deref o w) (copy_in_lem buf pos (slice h.buffer from size) lands))

  -- What a round on swapped sectors leaves: the bytes that the swaps hold, and the world.
  abbrev pub Viewed : World E → ℕ → ℕ → ℕ → Bytes → Outcome × Bytes → World E → Type 0
  Viewed w from count pos buf (o, buf') v =
      (o ≡ proceed) × (buf' ≡ overwrite buf pos (views w.core.info_list from count)) × (v ≡ w)

  module _ (p : Piece) (count from : ℕ) (w : World E) (start : p.s_start ≡ from)
      (block : p.b_start ≡ swap_sector_align from) (some_count : 0 < p.s_count)
      (at : IsInBlock count p) (swapped : AreSwapped w.core.info_list from count)
      (r : IsReady w) where
    abbrev infos : List Info
    infos = w.core.info_list

    abbrev entry :
        (m : ℕ) × (info : Info) × (find_info infos (swap_sector_align from) ≡ some (m, info))
    entry =
        let (n, info, found) = swapped 0 (omega (arith, some_count, at.within)) in
        (
          n,
          info,
          subst (λ s. find_info infos (swap_sector_align s) ≡ some (n, info)) {x = from + 0}
              {y = from} (omega arith) found,
        )

    abbrev equipped : HasBuffer entry.1
    equipped =
        AllFull-get infos entry.0 entry.1 r.buffers
          (find_info_entry infos (swap_sector_align from) entry.0 entry.1 entry.2)

    abbrev offset : ℕ
    offset = (p.s_start - swap_sector_align p.s_start) * sector_size

    viewed_bytes :
        views infos from p.s_count ≡ slice equipped.buffer offset (p.s_count * sector_size)
    viewed_bytes =
        views_in_block infos (swap_sector_align from) entry.0 entry.1 equipped.buffer from p.s_count
          entry.2 equipped.held (omega arith) (omega arith) (omega (arith, at.aligned, start))
        ∙ ap
            (λ s.
              slice equipped.buffer ((s - swap_sector_align s) * sector_size)
                (p.s_count * sector_size))
            (sym start)

    pub viewed_length : length (views infos from p.s_count) ≡ s_len p
    viewed_length =
        ap length viewed_bytes
        ∙ omega (
          arith,
          length-slice equipped.buffer offset (p.s_count * sector_size),
          equipped.full,
          at.aligned,
          at.bytes,
        )

    pub read_piece-Viewed :
        (pos : ℕ) (buf : Bytes)
        → pos + count * sector_size ≤ length buf
        → Yields (Viewed w from p.s_count pos buf) (read_piece k p buf pos w)
    read_piece-Viewed pos buf room =
        swapped_read k p buf pos entry.0 entry.1 w (rw block entry.2) _ (
          yield_bind (swap_read_info k entry.1 p.s_start p.s_count buf pos (s_len p)) _ Q _ w
            (subst (Yields Q) (sym (read_info_lem entry.1 p count pos buf w equipped at room))
              (ap (overwrite buf pos) (sym viewed_bytes), refl))
            (λ b v (same, still). (refl, same, still)))
      where
        Q : Bytes → World E → Type 0
        Q b v = (b ≡ overwrite buf pos (views infos from p.s_count)) × (v ≡ w)

  pub later_swapped :
      (infos : List Info) (s a n : ℕ)
      → a ≤ n
      → AreSwapped infos s n
      → AreSwapped infos (s + a) (n - a)
  later_swapped infos s a n h swapped i inside =
      let (m, info, found) = swapped (a + i) (omega (arith, h, inside)) in
      (
        m,
        info,
        subst (λ t. find_info infos (swap_sector_align t) ≡ some (m, info)) {x = s + (a + i)}
            {y = s + a + i} (omega arith) found,
      )
