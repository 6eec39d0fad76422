-- ===== src/Core/Transfer/View.antt =====
-- core.c: a read of swapped sectors against the contents that the swaps give each sector.
use mathlib.Core.Path.{subst}
use scsiswap.State.{Info}
use scsiswap.Layout.{sector_size, swap_sector_align}
use scsiswap.Core.Flush.{find_info}
use scsiswap.Base.{
  Option, append_assoc, Bytes, List, [], ap, arith, drop, length, none, overwrite, refl, slice,
  some, suc, sym, take, zero, ℕ, ◌%◌, ◌*◌, ◌++◌, ◌+◌, ◌-◌, ◌∙◌, ◌∷◌, ◌≡◌, ◌≤◌,
}

-- The bytes of a sector in the buffer of a block: 512 of them, at the sector's place.
abbrev pub sector_of : Bytes → ℕ → Bytes
sector_of buffer s = slice buffer (s % 128 * sector_size) sector_size

-- The sector as a swap has it, where it is found and has a buffer.
abbrev pub sector_in : Option Bytes → ℕ → Bytes
sector_in none s = []
sector_in (some buffer) s = sector_of buffer s

abbrev pub sector_at : Option (ℕ × Info) → ℕ → Bytes
sector_at none s = []
sector_at (some (n, info)) s = sector_in info.buf s

-- The sector as the list of the swaps has it: that of the swap of its block.
abbrev pub view : List Info → ℕ → Bytes
view infos s = sector_at (find_info infos (swap_sector_align s)) s

-- `n` sectors from `s` on.
abbrev pub views : List Info → ℕ → ℕ → Bytes
views infos s zero = []
views infos s (suc n) = view infos s ++ views infos (s + 1) n

take_none : (n : ℕ) → take {A = ℕ} n [] ≡ []
unfolding take
take_none zero = refl
take_none (suc n) = refl

drop_none : (n : ℕ) → drop {A = ℕ} n [] ≡ []
unfolding drop
drop_none zero = refl
drop_none (suc n) = refl

take_more : (a b : ℕ) (xs : Bytes) → take (a + b) xs ≡ take a xs ++ take b (drop a xs)
unfolding take drop
take_more zero b xs = ap (λ n. take n xs) (omega arith)
take_more (suc a) b [] = take_none (suc a + b) ∙ sym (take_none b)
take_more (suc a) b (x ∷ xs) =
    ap (λ n. take n (x ∷ xs)) {x = suc a + b} {y = suc (a + b)} (omega arith)
    ∙ ap (λ t. x ∷ t) (take_more a b xs)

drop_more : (a b : ℕ) (xs : Bytes) → drop (a + b) xs ≡ drop b (drop a xs)
unfolding drop
drop_more zero b xs = ap (λ n. drop n xs) (omega arith)
drop_more (suc a) b [] = drop_none (suc a + b) ∙ sym (drop_none b)
drop_more (suc a) b (x ∷ xs) =
    ap (λ n. drop n (x ∷ xs)) {x = suc a + b} {y = suc (a + b)} (omega arith) ∙ drop_more a b xs

slice_more : (xs : Bytes) (i a b : ℕ) → slice xs i (a + b) ≡ slice xs i a ++ slice xs (i + a) b
unfolding slice
slice_more xs i a b =
    take_more a b (drop i xs) ∙ ap (λ t. take a (drop i xs) ++ take b t) (sym (drop_more i a xs))

slice_nothing : (xs : Bytes) (i : ℕ) → slice xs i 0 ≡ []
unfolding slice take
slice_nothing xs i = refl

view_lem :
    (infos : List Info) (n : ℕ) (info : Info) (buffer : Bytes) (s : ℕ)
    → find_info infos (swap_sector_align s) ≡ some (n, info)
    → info.buf ≡ some buffer
    → view infos s ≡ sector_of buffer s
view_lem infos n info buffer s found held =
    ap (λ o. sector_at o s) found ∙ ap (λ o. sector_in o s) held

-- Sectors of one block are a slice of the buffer of its swap.
pub views_in_block :
    (infos : List Info) (sector n : ℕ) (info : Info) (buffer : Bytes) (s c : ℕ)
    → find_info infos sector ≡ some (n, info)
    → info.buf ≡ some buffer
    → swap_sector_align sector ≡ sector
    → sector ≤ s
    → s - sector + c ≤ 128
    → views infos s c ≡ slice buffer ((s - sector) * sector_size) (c * sector_size)
views_in_block infos sector n info buffer s zero found held block behind inside =
    sym (slice_nothing buffer ((s - sector) * sector_size))
views_in_block infos sector n info buffer s (suc c) found held block behind inside =
    let here_block : swap_sector_align s ≡ sector = omega (arith, block, behind, inside) in
    let place : s % 128 * sector_size ≡ (s - sector) * sector_size =
      omega (arith, block, behind, inside) in
    let rest =
      views_in_block infos sector n info buffer (s + 1) c found held block (omega (arith, behind))
        (omega (arith, behind, inside)) in
    let first =
      view_lem infos n info buffer s
        (subst (λ t. find_info infos t ≡ some (n, info)) (sym here_block) found) held in
    ap (λ t. t ++ views infos (s + 1) c) first
    ∙ (rw (rest, place)
        (sym (
          ap (slice buffer ((s - sector) * sector_size)) {x = suc c * sector_size}
            {y = sector_size + c * sector_size} (omega arith)
          ∙ slice_more buffer ((s - sector) * sector_size) sector_size (c * sector_size)
          ∙ ap
              (λ i.
                slice buffer ((s - sector) * sector_size) sector_size
                ++ slice buffer i (c * sector_size))
              {x = (s - sector) * sector_size + sector_size} {y = (s + 1 - sector) * sector_size}
              (omega (arith, behind)))))

pub views_more :
    (infos : List Info) (s a b : ℕ)
    → views infos s (a + b) ≡ views infos s a ++ views infos (s + a) b
views_more infos s zero b =
    ap (views infos s) {x = 0 + b} {y = b} (omega arith)
    ∙ ap (λ t. views infos t b) {x = s} {y = s + 0} (omega arith)
views_more infos s (suc a) b =
    ap (views infos s) {x = suc a + b} {y = suc (a + b)} (omega arith)
    ∙ (ap (λ t. view infos s ++ t) (views_more infos (s + 1) a b)
        ∙ (sym (append_assoc (view infos s) (views infos (s + 1) a) (views infos (s + 1 + a) b))
            ∙ ap (λ t. (view infos s ++ views infos (s + 1) a) ++ views infos t b) {x = s + 1 + a}
                {y = s + suc a} (omega arith)))

-- Bytes behind bytes.
pub overwrite_more :
    (out xs ys : Bytes) → overwrite (overwrite out 0 xs) (length xs) ys ≡ overwrite out 0 (xs ++ ys)
unfolding overwrite
overwrite_more [] xs ys = refl
overwrite_more (x ∷ out) [] ys = refl
overwrite_more (x ∷ out) (y ∷ xs) ys = ap (λ t. y ∷ t) (overwrite_more out xs ys)
