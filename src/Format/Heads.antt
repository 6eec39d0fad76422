-- ===== src/Format/Heads.antt =====
-- core.h: the swap head, written to a sector and read back.
pub mod Sizes
use scsiswap.Format.RoundTrip.{drop_beyond, take_whole}
use scsiswap.Format.{bit, head_bytes, head_of, head_prefix, Head, bitmap_bytes, bitmap_of}
use scsiswap.Base.{
  length-append, append-nil, append_assoc, le_bytes, length-le_bytes, of_le, of_le-le_bytes_four,
  sym, ◌∙◌, Bool, Bytes, List, [], ap, arith, drop, false, length, refl, slice, suc, take, true,
  zero, ℕ, ◌%◌, ◌*◌, ◌++◌, ◌+◌, ◌/◌, ◌<◌, ◌==◌, ◌∷◌, ◌≡◌, ◌≤◌,
}

-- The fields of a head have the sizes of their C types.
pub record FitsHead (h : Head) : Type 0 where
  pub head_string : length h.head_string ≡ 16
  pub status : length h.status ≡ 16
  pub version : length h.version ≡ 4
  pub bitmap : length h.bitmap ≡ 1024
  pub reserved : length h.reserved ≡ 344
  pub checksum : h.checksum < 4294967296

slice_front : (n : ℕ) (xs ys : Bytes) → length xs ≡ n → slice (xs ++ ys) 0 n ≡ xs
unfolding slice drop
slice_front n xs ys h = take_whole n xs ys h

slice_behind : (i m n : ℕ) (xs ys : Bytes) → i ≡ length xs + m → slice (xs ++ ys) i n ≡ slice ys m n
unfolding slice
slice_behind i m n xs ys h = ap (take n) (drop_beyond i m xs ys h)

bit_back : (a : Bool) → (bit a == 1) ≡ a
bit_back true = refl
bit_back false = refl

bit_small : (a : Bool) → bit a ≤ 1
bit_small true = omega arith
bit_small false = omega arith

module _ (a b c d e f g h : ℕ) where
  abbrev byte : ℕ
  byte = a + 2 * b + 4 * c + 8 * d + 16 * e + 32 * f + 64 * g + 128 * h

  byte_bits :
      a ≤ 1
      → b ≤ 1
      → c ≤ 1
      → d ≤ 1
      → e ≤ 1
      → f ≤ 1
      → g ≤ 1
      → h ≤ 1
      → (byte % 2 ≡ a)
        × (byte / 2 % 2 ≡ b)
        × (byte / 4 % 2 ≡ c)
        × (byte / 8 % 2 ≡ d)
        × (byte / 16 % 2 ≡ e)
        × (byte / 32 % 2 ≡ f)
        × (byte / 64 % 2 ≡ g)
        × (byte / 128 % 2 ≡ h)
  byte_bits p q r s t u v w = (
    omega (arith, p, q, r, s, t, u, v, w),
    omega (arith, p, q, r, s, t, u, v, w),
    omega (arith, p, q, r, s, t, u, v, w),
    omega (arith, p, q, r, s, t, u, v, w),
    omega (arith, p, q, r, s, t, u, v, w),
    omega (arith, p, q, r, s, t, u, v, w),
    omega (arith, p, q, r, s, t, u, v, w),
    omega (arith, p, q, r, s, t, u, v, w),
  )

length-bitmap_bytes : (m : ℕ) (bs : List Bool) → length bs ≡ 8 * m → length (bitmap_bytes bs) ≡ m
unfolding bitmap_bytes
length-bitmap_bytes zero [] h = refl
length-bitmap_bytes zero (a ∷ bs) k = absurd (omega arith)
length-bitmap_bytes (suc m) (a ∷ b ∷ c ∷ d ∷ e ∷ f ∷ g ∷ h ∷ bs) k =
    ap suc (length-bitmap_bytes m bs (omega (arith, k)))
length-bitmap_bytes (suc m) bs k = absurd (omega (arith, k))

bitmap_back : (m : ℕ) (bs : List Bool) → length bs ≡ 8 * m → bitmap_of (bitmap_bytes bs) ≡ bs
unfolding bitmap_bytes bitmap_of
bitmap_back zero [] k = refl
bitmap_back zero (a ∷ bs) k = absurd (omega arith)
bitmap_back (suc m) (a ∷ b ∷ c ∷ d ∷ e ∷ f ∷ g ∷ h ∷ bs) k =
    let w =
      byte_bits (bit a) (bit b) (bit c) (bit d) (bit e) (bit f) (bit g) (bit h) (bit_small a)
        (bit_small b) (bit_small c) (bit_small d) (bit_small e) (bit_small f) (bit_small g)
        (bit_small h) in
    rw
      (
        w.0,
        w.1,
        w.2,
        w.3,
        w.4,
        w.5,
        w.6,
        w.7,
        bit_back a,
        bit_back b,
        bit_back c,
        bit_back d,
        bit_back e,
        bit_back f,
        bit_back g,
        bit_back h,
      )
      (ap (λ t. a ∷ b ∷ c ∷ d ∷ e ∷ f ∷ g ∷ h ∷ t) (bitmap_back m bs (omega (arith, k))))
bitmap_back (suc m) bs k = absurd (omega (arith, k))

-- The parts of a head, one behind the other.
parts :
    (h : Head)
    → head_bytes h
      ≡ h.head_string
        ++ (h.status
            ++ (h.version ++ (bitmap_bytes h.bitmap ++ (h.reserved ++ le_bytes 4 h.checksum))))
unfolding head_bytes head_prefix
parts h = simp (append_assoc) refl

module _ (h : Head) (f : FitsHead h) where
  pub bits_length : length (bitmap_bytes h.bitmap) ≡ 128
  bits_length = length-bitmap_bytes 128 h.bitmap (omega (arith, f.bitmap))

  string_back : slice (head_bytes h) 0 16 ≡ h.head_string
  string_back = rw (parts h) (slice_front 16 h.head_string _ f.head_string)

  status_back : slice (head_bytes h) 16 16 ≡ h.status
  status_back = rw (parts h) (
      slice_behind 16 0 16 h.head_string _ (omega (arith, f.head_string))
      ∙ slice_front 16 h.status _ f.status)

  version_back : slice (head_bytes h) 32 4 ≡ h.version
  version_back = rw (parts h) (
      slice_behind 32 16 4 h.head_string _ (omega (arith, f.head_string))
      ∙ (slice_behind 16 0 4 h.status _ (omega (arith, f.status))
          ∙ slice_front 4 h.version _ f.version))

  -- What stands from the bitmap on.
  behind :
      (i m n : ℕ)
      → i ≡ 36 + m
      → slice (head_bytes h) i n
        ≡ slice (bitmap_bytes h.bitmap ++ (h.reserved ++ le_bytes 4 h.checksum)) m n
  behind i m n e = rw (parts h) (
      slice_behind i (20 + m) n h.head_string _ (omega (arith, f.head_string, e))
      ∙ (slice_behind (20 + m) (4 + m) n h.status _ (omega (arith, f.status))
          ∙ slice_behind (4 + m) m n h.version _ (omega (arith, f.version))))

  bits_back : bitmap_of (slice (head_bytes h) 36 128) ≡ h.bitmap
  bits_back =
      ap bitmap_of
        (behind 36 0 128 (omega arith) ∙ slice_front 128 (bitmap_bytes h.bitmap) _ bits_length)
      ∙ bitmap_back 128 h.bitmap (omega (arith, f.bitmap))

  reserved_back : slice (head_bytes h) 164 344 ≡ h.reserved
  reserved_back =
      behind 164 128 344 (omega arith)
      ∙ (slice_behind 128 0 344 (bitmap_bytes h.bitmap) _ (omega (arith, bits_length))
          ∙ slice_front 344 h.reserved _ f.reserved)

  checksum_back : of_le (slice (head_bytes h) 508 4) ≡ h.checksum
  checksum_back =
      ap of_le (
        behind 508 472 4 (omega arith)
        ∙ (slice_behind 472 344 4 (bitmap_bytes h.bitmap) _ (omega (arith, bits_length))
            ∙ (slice_behind 344 0 4 h.reserved _ (omega (arith, f.reserved)) ∙ last)))
      ∙ of_le-le_bytes_four h.checksum f.checksum
    where
      last : slice (le_bytes 4 h.checksum) 0 4 ≡ le_bytes 4 h.checksum
      last =
          ap (λ t. slice t 0 4) (sym (append-nil (le_bytes 4 h.checksum)))
          ∙ slice_front 4 (le_bytes 4 h.checksum) [] (length-le_bytes 4 h.checksum)

-- A head that is written to a sector as 512 bytes is read back as it was, where its fields have the
-- sizes of their types.
pub head_of-head_bytes : (h : Head) → FitsHead h → head_of (head_bytes h) ≡ h
unfolding head_of
head_of-head_bytes h f =
    rw
      (
        string_back h f,
        status_back h f,
        version_back h f,
        bits_back h f,
        reserved_back h f,
        checksum_back h f,
      )
      refl
