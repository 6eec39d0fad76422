-- ===== src/Core/Transfer/Copies.antt =====
-- What a write through a swap leaves in its buffer, and what a read of it returns.
use scsiswap.Base.{
  ℕ, ◌+◌, ◌-◌, ◌*◌, ◌≤◌, ◌<◌, ◌≡◌, refl, sym, ap, ◌∙◌, arith, ◌⊎◌, inl, inr, some, Bytes, length,
  take, drop, slice, overwrite, slice-overwrite, slice-overwrite_before, slice-overwrite_after,
  length-overwrite, length-slice, le→leb, min, u32, if◌then◌else◌, [], ◌∷◌,
}
use scsiswap.Kernel.{Kernel}
use scsiswap.Layout.{swap_sector_align, sector_size, swap_block_size}
use scsiswap.State.{World, Info, Status, ok, fail, is_ok, deref}
use scsiswap.Ensures.{deref-some}
use scsiswap.Core.Flush.{flush_swap_info_data}
use scsiswap.Core.Create.{Loc, store}
use scsiswap.Core.Transfer.{copy_in, copy_out, swap_read_info, swap_write_info}

take_all : (xs : Bytes) → take (length xs) xs ≡ xs
unfolding take
take_all [] = refl
take_all (x ∷ xs) = ap (λ t. x ∷ t) (take_all xs)

pub slice_all : (xs : Bytes) → slice xs 0 (length xs) ≡ xs
unfolding slice drop
slice_all xs = take_all xs

pub copy_out_lem :
    (src : Bytes) (at n : ℕ) → at + n ≤ length src → copy_out src at n ≡ some (slice src at n)
unfolding copy_out
copy_out_lem src at n h = rw (le→leb (at + n) (length src) h) refl

pub copy_in_lem :
    (dst : Bytes) (at : ℕ) (src : Bytes)
    → at + length src ≤ length dst
    → copy_in dst at src ≡ some (overwrite dst at src)
unfolding copy_in
copy_in_lem dst at src h = rw (le→leb (at + length src) (length dst) h) refl

min_same : (n : ℕ) → min n n ≡ n
min_same n = omega arith

whole_lem :
    (bytes : Bytes) (count : ℕ)
    → length bytes ≡ count * sector_size
    → copy_out bytes 0 (min (count * sector_size) (count * sector_size)) ≡ some bytes
whole_lem bytes count sized =
    rw (min_same (count * sector_size))
      (rw (← sized) (copy_out_lem bytes 0 (length bytes) (omega arith) ∙ ap some (slice_all bytes)))

-- A range of sectors that lies in the block of its first sector, below sector 2^32.
abbrev pub IsPiece : ℕ → ℕ → Type 0
IsPiece start count = (start < 4294967296) × (start - swap_sector_align start + count ≤ 128)

abbrev pub offset_of : ℕ → ℕ
offset_of start = (start - swap_sector_align start) * sector_size

offset_lem :
    (start : ℕ)
    → start < 4294967296
    → u32 ((start - u32 (swap_sector_align start)) * sector_size) ≡ offset_of start
offset_lem start h = omega arith

module _ {E : Type 0} (k : Kernel E) where
  -- The result of the write: its status, and the swap with the bytes in its buffer.
  abbrev pub written : Info → Bytes → ℕ → Bytes → Info
  written info buffer start bytes = record info {
    buf = some (overwrite buffer (offset_of start) bytes);
  }

  pub write_lem :
      (loc : Loc) (info : Info) (buffer bytes : Bytes) (start count : ℕ) (w : World E)
      → info.buf ≡ some buffer
      → length buffer ≡ swap_block_size
      → length bytes ≡ count * sector_size
      → IsPiece start count
      → (let info' = written info buffer start bytes in
          let (s, w') = flush_swap_info_data k info' (store loc info' w) in
          swap_write_info k loc info start count bytes (count * sector_size) w
          ≡ some ((if is_ok s then ok else fail, info'), w'))
  unfolding swap_write_info
  write_lem loc info buffer bytes start count w has full sized piece =
      deref-some info.buf buffer _ w has
      ∙ (deref-some (copy_out bytes 0 (min (count * sector_size) (count * sector_size))) bytes _ w
            (whole_lem bytes count sized)
          ∙ deref-some
              (copy_in buffer (u32 ((start - u32 (swap_sector_align start)) * sector_size)) bytes)
              (overwrite buffer (offset_of start) bytes) _ w
              (rw (offset_lem start piece.0)
                (copy_in_lem buffer (offset_of start) bytes (omega (arith, full, sized, piece.1)))))

  pub read_lem :
      (info : Info) (buffer out : Bytes) (start count : ℕ) (w : World E)
      → info.buf ≡ some buffer
      → length buffer ≡ swap_block_size
      → count * sector_size ≤ length out
      → IsPiece start count
      → swap_read_info k info start count out 0 (count * sector_size) w
        ≡ some (overwrite out 0 (slice buffer (offset_of start) (count * sector_size)), w)
  unfolding swap_read_info
  read_lem info buffer out start count w has full room piece =
      deref-some info.buf buffer _ w has
      ∙ (deref-some
            (copy_out buffer (offset_of start) (min (count * sector_size) (count * sector_size)))
            (slice buffer (offset_of start) (count * sector_size)) _ w
            (rw (min_same (count * sector_size)) (
              copy_out_lem buffer (offset_of start) (count * sector_size)
                (omega (arith, full, piece.1))))
          ∙ ap (λ o. deref o w)
              (copy_in_lem out 0 (slice buffer (offset_of start) (count * sector_size)) fits))
    where
      fits : 0 + length (slice buffer (offset_of start) (count * sector_size)) ≤ length out
      fits = omega (arith, room, length-slice buffer (offset_of start) (count * sector_size))

  -- A piece of a block that is written to the block's swap is what a read of the piece returns: the
  -- write does not fault, and the read copies the written bytes to the front of the caller's
  -- buffer. The swap has its 64 KB buffer, the piece lies in one block below sector 2^32, the
  -- bytes have the piece's length, and the caller's buffer has room.
  pub read-write_same :
      (loc : Loc) (info : Info) (buffer bytes out : Bytes) (start count : ℕ) (w v : World E)
      → info.buf ≡ some buffer
      → length buffer ≡ swap_block_size
      → length bytes ≡ count * sector_size
      → count * sector_size ≤ length out
      → IsPiece start count
      → (s : Status) × (info' : Info) × (w' : World E) × (swap_write_info k loc info start count
            bytes
            (count * sector_size)
            w
          ≡ some ((s, info'), w'))
        × (swap_read_info k info' start count out 0 (count * sector_size) v
            ≡ some (overwrite out 0 bytes, v))
  read-write_same loc info buffer bytes out start count w v has full sized room piece = (
    _,
    written info buffer start bytes,
    _,
    write_lem loc info buffer bytes start count w has full sized piece,
    read_lem (written info buffer start bytes) (overwrite buffer (offset_of start) bytes) out start
          count v refl (length-overwrite buffer (offset_of start) bytes ∙ full) room piece
        ∙ ap (λ bs. some (overwrite out 0 bs, v)) same,
  )
    where
      same :
          slice (overwrite buffer (offset_of start) bytes) (offset_of start) (count * sector_size)
          ≡ bytes
      same =
          rw (← sized)
            (slice-overwrite buffer (offset_of start) bytes (omega (arith, full, sized, piece.1)))

  -- A write to one piece of a block does not fault, and leaves what a read of another piece of the
  -- same block returns. The pieces have no sector in common and lie in one block below sector 2^32;
  -- the swap has its 64 KB buffer, the bytes written have their piece's length, and the caller's
  -- buffer has room for the other one.
  pub read-write_other :
      (loc : Loc) (info : Info) (buffer bytes out : Bytes) (start count other num : ℕ)
      (w v : World E)
      → info.buf ≡ some buffer
      → length buffer ≡ swap_block_size
      → length bytes ≡ count * sector_size
      → num * sector_size ≤ length out
      → IsPiece start count
      → IsPiece other num
      → swap_sector_align start ≡ swap_sector_align other
      → (other + num ≤ start) ⊎ (start + count ≤ other)
      → (s : Status) × (info' : Info) × (w' : World E) × (swap_write_info k loc info start count
            bytes
            (count * sector_size)
            w
          ≡ some ((s, info'), w'))
        × (swap_read_info k info' other num out 0 (num * sector_size) v
            ≡ swap_read_info k info other num out 0 (num * sector_size) v)
  read-write_other loc info buffer bytes out start count other num w v has full sized room piece
        piece' block apart =
      (
        _,
        written info buffer start bytes,
        _,
        write_lem loc info buffer bytes start count w has full sized piece,
        read_lem (written info buffer start bytes) (overwrite buffer (offset_of start) bytes) out
              other num v refl (length-overwrite buffer (offset_of start) bytes ∙ full) room piece'
            ∙ (ap (λ bs. some (overwrite out 0 bs, v)) untouched
                ∙ sym (read_lem info buffer out other num v has full room piece')),
      )
    where
      untouched :
          slice (overwrite buffer (offset_of start) bytes) (offset_of other) (num * sector_size)
          ≡ slice buffer (offset_of other) (num * sector_size)
      untouched = elim apart [
        | inl before ↦
            slice-overwrite_before buffer (offset_of start) (offset_of other) (num * sector_size)
              bytes (omega (arith, before, block))
        | inr behind ↦
            slice-overwrite_after buffer (offset_of start) (offset_of other) (num * sector_size)
              bytes (omega (arith, behind, block, sized))
      ]
