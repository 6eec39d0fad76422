-- ===== src/Core/Flush/Renew.antt =====
-- core.c: the swap of a block is found again when its buffer has changed.
use scsiswap.State.{Info}
use mathlib.Core.Path.{subst}
use scsiswap.Core.Flush.{find_info}
use scsiswap.Base.{
  ap, Bool-cases, List, Option, [], false, inl, inr, none, refl, set, some, suc, sym, true, ℕ, ◌==◌,
  ◌∙◌, ◌∷◌, ◌≡◌,
}

module _ (x : Info) (infos : List Info) (sector : ℕ) where
  find_first : (x.table.src_sec == sector) ≡ true → find_info (x ∷ infos) sector ≡ some (0, x)
  unfolding find_info
  find_first h = rw h refl

  find_later :
      (m : ℕ) (y : Info)
      → (x.table.src_sec == sector) ≡ false
      → find_info infos sector ≡ some (m, y)
      → find_info (x ∷ infos) sector ≡ some (suc m, y)
  unfolding find_info
  find_later m y h e = rw (h, e) refl

  find_nowhere :
      (x.table.src_sec == sector) ≡ false
      → find_info infos sector ≡ none
      → find_info (x ∷ infos) sector ≡ none
  unfolding find_info
  find_nowhere h e = rw (h, e) refl

find_empty : (sector : ℕ) → find_info [] sector ≡ none
unfolding find_info
find_empty sector = refl

-- An entry that is replaced by one of the same source sector is found in its place.
pub find_info-set :
    (infos : List Info) (sector n : ℕ) (info info' : Info)
    → find_info infos sector ≡ some (n, info)
    → info'.table.src_sec ≡ info.table.src_sec
    → find_info (set infos n info') sector ≡ some (n, info')
unfolding find_info
find_info-set [] sector n info info' found same =
    let e : ◌≡◌ {A = Option (ℕ × Info)} none (some (n, info)) = sym (find_empty sector) ∙ found in
    cc
find_info-set (x ∷ infos) sector n info info' found same =
    elim (Bool-cases (x.table.src_sec == sector)) [
      | inl hit ↦
          let e : some (0, x) ≡ some (n, info) = sym (find_first x infos sector hit) ∙ found in
          let pair : (0, x) ≡ (n, info) = cc in
          let zero_n : 0 ≡ n = ap (λ (p : ℕ × Info). p.0) pair in
          let same_info : x ≡ info = ap (λ (p : ℕ × Info). p.1) pair in
          subst (λ m. find_info (set (x ∷ infos) m info') sector ≡ some (m, info')) zero_n
            (find_first info' infos sector (rw (same, ← same_info) hit))
      | inr miss ↦
          by_rest (find_info infos sector) refl miss
            (λ m e. find_info-set infos sector m info info' e same)
    ]
  where
    by_rest :
        (o : Option (ℕ × Info))
        → find_info infos sector ≡ o
        → (x.table.src_sec == sector) ≡ false
        → ((m : ℕ)
            → find_info infos sector ≡ some (m, info)
            → find_info (set infos m info') sector ≡ some (m, info'))
        → find_info (set (x ∷ infos) n info') sector ≡ some (n, info')
    by_rest none at miss ih =
        let e : ◌≡◌ {A = Option (ℕ × Info)} none (some (n, info)) =
          sym (find_nowhere x infos sector miss at) ∙ found in
        cc
    by_rest (some (m, y)) at miss ih =
        let e : some (suc m, y) ≡ some (n, info) =
          sym (find_later x infos sector m y miss at) ∙ found in
        let pair : (suc m, y) ≡ (n, info) = cc in
        let place : suc m ≡ n = ap (λ (p : ℕ × Info). p.0) pair in
        let same_info : y ≡ info = ap (λ (p : ℕ × Info). p.1) pair in
        subst (λ j. find_info (set (x ∷ infos) j info') sector ≡ some (j, info')) place
          (find_later x (set infos m info') sector m info' miss
            (ih m (subst (λ z. find_info infos sector ≡ some (m, z)) same_info at)))
