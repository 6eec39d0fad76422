-- ===== src/Core/Header/Reopen.antt =====
-- core.c: the head that is flushed is the one that the search accepts.
use scsiswap.Io.{hd_read_sector_retry, hd_write_sector_retry}
use mathlib.Core.Path.{subst}
use scsiswap.Layout.{sector_size, swap_head_backup_offset}
use scsiswap.Io.Effects.{hd_write_sector-IsCalm}
use scsiswap.State.{World, ok, on_core}
use scsiswap.Format.{Head, head_bytes, head_prefix}
use scsiswap.Format.Heads.{head_of-head_bytes, FitsHead}
use scsiswap.Format.Heads.Sizes.{prefix_of}
use scsiswap.Crc32.{swap_crc32}
use scsiswap.Crc32.Bounds.{swap_crc32-lt}
use scsiswap.Core.Header.{
  swap_get_head_state, classify, head_ok, invalid_string, starts_as, swap_head_exist,
  swap_head_invalid, swap_head_valid, valid_string,
}
use scsiswap.Core.Flush.{flush_swap_head, head_checksum}
use scsiswap.Base.{
  some, ◌+◌, ==_iff, Bytes, [], ap, arith, false, refl, sym, take, true, ℕ, ◌<◌, ◌∙◌, ◌∷◌, ◌≡◌,
}
use scsiswap.Kernel.{Kernel}

-- The checksum of a head does not depend on the checksum in it.
checksum_same :
    (h : Head) (c : ℕ)
    → FitsHead h
    → c < 4294967296
    → head_checksum (record h { checksum = c }) ≡ head_checksum h
unfolding head_checksum head_prefix
checksum_same h c f small =
    ap (swap_crc32 0xffffffff)
      (prefix_of (record h { checksum = c }) (resized h c f small) ∙ sym (prefix_of h f))
  where
    resized :
        (h : Head) (c : ℕ) → FitsHead h → c < 4294967296 → FitsHead (record h { checksum = c })
    resized h c f small = record {
      head_string = f.head_string;
      status = f.status;
      version = f.version;
      bitmap = f.bitmap;
      reserved = f.reserved;
      checksum = small;
    }

valid_only : (h : Head) → swap_head_valid h ≡ true → swap_head_invalid h ≡ false
unfolding swap_head_valid swap_head_invalid starts_as
valid_only h v = by_status h.status v
  where
    by_status : (s : Bytes) → starts_as s valid_string ≡ true → starts_as s invalid_string ≡ false
    by_status [] e = refl
    by_status (x ∷ s) e = ground arith

accepted :
    (h : Head)
    → swap_head_exist h ≡ true
    → swap_head_valid h ≡ true
    → h.checksum ≡ head_checksum h
    → classify h ≡ head_ok
unfolding classify
accepted h exists valid checked =
    rw (exists, valid_only h valid, valid, (==_iff (head_checksum h) h.checksum).1 (sym checked))
      refl

checksum-lt : (h : Head) → head_checksum h < 4294967296
unfolding head_checksum
checksum-lt h = swap_crc32-lt 0xffffffff (take 508 (head_bytes h)) (omega arith)

module _ {E : Type 0} (k : Kernel E) where
  -- The head of the world behind a flush.
  abbrev pub flushed : World E → Head
  flushed w = (flush_swap_head k w).1.core.head

  pub flushed_lem :
      (w : World E) → flushed w ≡ record w.core.head { checksum = head_checksum w.core.head }
  unfolding flush_swap_head hd_write_sector_retry
  flushed_lem w =
      let h' = record w.core.head { checksum = head_checksum w.core.head } in
      let w0 = on_core (λ c. record c { head = h' }) w in
      let (s, w1) =
        hd_write_sector_retry k w0.core.sector_head 1 (some (head_bytes h')) sector_size w0 in
      (hd_write_sector-IsCalm k (w1.core.sector_head + swap_head_backup_offset) 1
        (some (head_bytes h')) sector_size 10 5 w1).head
      ∙ (hd_write_sector-IsCalm k w0.core.sector_head 1 (some (head_bytes h')) sector_size 10 5
          w0).head

  pub flushed-FitsHead : (w : World E) → FitsHead w.core.head → FitsHead (flushed w)
  flushed-FitsHead w f = subst FitsHead (sym (flushed_lem w)) (record {
    head_string = f.head_string;
    status = f.status;
    version = f.version;
    bitmap = f.bitmap;
    reserved = f.reserved;
    checksum = checksum-lt w.core.head;
  })

  pub flushed-classify :
      (w : World E)
      → FitsHead w.core.head
      → swap_head_exist w.core.head ≡ true
      → swap_head_valid w.core.head ≡ true
      → classify (flushed w) ≡ head_ok
  unfolding swap_head_exist swap_head_valid
  flushed-classify w f exists valid =
      subst (λ h. classify h ≡ head_ok) (sym (flushed_lem w))
        (accepted (record w.core.head { checksum = head_checksum w.core.head }) exists valid
          (sym (checksum_same w.core.head (head_checksum w.core.head) f (checksum-lt w.core.head))))

  -- A head that was flushed is found again: where a read of a sector, at any later time, returns the
  -- bytes that `flush_swap_head` wrote, `swap_get_head_state` takes the head for good, and its memory holds the
  -- head flushed, with the bitmap of the used blocks. The head's fields have the sizes of their
  -- types, and it has the name and the mark of a valid head.
  pub swap_get_head_state-flushed :
      (later : Kernel E) (sector : ℕ) (old : Head) (w u v : World E)
      → FitsHead w.core.head
      → swap_head_exist w.core.head ≡ true
      → swap_head_valid w.core.head ≡ true
      → hd_read_sector_retry later sector 1 (some (head_bytes old)) sector_size u
        ≡ ((ok, head_bytes (flushed w)), v)
      → (swap_get_head_state later sector old u ≡ (head_ok, flushed w, v))
        × ((flushed w).bitmap ≡ w.core.head.bitmap)
  unfolding swap_get_head_state
  swap_get_head_state-flushed later sector old w u v f exists valid read = (
    rw
        (
          read,
          head_of-head_bytes (flushed w) (flushed-FitsHead w f),
          flushed-classify w f exists valid,
        )
        refl,
    ap (λ h. h.bitmap) (flushed_lem w),
  )
