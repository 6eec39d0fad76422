-- ===== src/Format/Heads/Sizes.antt =====
-- The sizes of a head's parts on disk.
use scsiswap.Format.RoundTrip.{take_whole}
use scsiswap.Format.{Head, bitmap_bytes, head_bytes, head_prefix}
use scsiswap.Format.Heads.{FitsHead, bits_length}
use scsiswap.Base.{ap, arith, le_bytes, length, length-append, take, ◌++◌, ◌+◌, ◌∙◌, ◌≡◌}

prefix_length : (h : Head) → FitsHead h → length (head_prefix h) ≡ 508
unfolding head_prefix
prefix_length h f =
    let bits = bitmap_bytes h.bitmap in
    omega (
      arith,
      length-append h.head_string (h.status ++ (h.version ++ (bits ++ h.reserved))),
      length-append h.status (h.version ++ (bits ++ h.reserved)),
      length-append h.version (bits ++ h.reserved),
      length-append bits h.reserved,
      bits_length h f,
      f.head_string,
      f.status,
      f.version,
      f.reserved,
    )

-- The bytes that the checksum covers do not hold it.
pub prefix_of : (h : Head) → FitsHead h → take 508 (head_bytes h) ≡ head_prefix h
unfolding head_bytes
prefix_of h f = take_whole 508 (head_prefix h) (le_bytes 4 h.checksum) (prefix_length h f)

pub length-head_bytes : (h : Head) → FitsHead h → length (head_bytes h) ≡ 512
unfolding head_bytes le_bytes
length-head_bytes h f =
    length-append (head_prefix h) (le_bytes 4 h.checksum) ∙ ap (λ n. n + 4) (prefix_length h f)
