-- ===== src/Core/Flush/Lookup.antt =====
-- core.c: what `swap_find_swap_info` finds in the list of the swaps.
use scsiswap.Base.{
  ℕ, suc, ◌≡◌, refl, Bool, true, false, Option, none, some, List, [], ◌∷◌, get_elem?, ◌==◌,
  if◌then◌else◌,
}
use mathlib.Core.Path.{subst}
use scsiswap.State.{Info}
use scsiswap.Core.Flush.{find_info}

-- The entry that `swap_find_swap_info` finds stands at the place that it names.
pub find_info_entry :
    (infos : List Info) (sector n : ℕ) (info : Info)
    → find_info infos sector ≡ some (n, info)
    → get_elem? infos n ≡ some info
unfolding find_info
find_info_entry [] sector n info h = cc
find_info_entry (x ∷ infos) sector n info h =
    first (x.table.src_sec == sector) (λ m y. find_info_entry infos sector m y) h
  where
    later :
        (o : Option (ℕ × Info))
        → ((m : ℕ) (y : Info) → o ≡ some (m, y) → get_elem? infos m ≡ some y)
        → (let r : Option (ℕ × Info) = elim o [ none ↦ none | some (m, y) ↦ some (suc m, y) ] in r)
          ≡ some (n, info)
        → get_elem? (x ∷ infos) n ≡ some info
    later none ih found = cc
    later (some (m, y)) ih found =
        let same : (suc m, y) ≡ (n, info) = cc in
        subst (λ (q : ℕ × Info). get_elem? (x ∷ infos) q.0 ≡ some q.1) same (ih m y refl)

    first :
        (b : Bool)
        → ((m : ℕ) (y : Info) → find_info infos sector ≡ some (m, y) → get_elem? infos m ≡ some y)
        → (let r : Option (ℕ × Info) = if b then some (0, x) else (elim (find_info infos sector) [
          | none ↦ none
          | some (m, y) ↦ some (suc m, y)
        ]) in
            r)
          ≡ some (n, info)
        → get_elem? (x ∷ infos) n ≡ some info
    first true ih found =
        let same : (0, x) ≡ (n, info) = cc in
        subst (λ (q : ℕ × Info). get_elem? (x ∷ infos) q.0 ≡ some q.1) same refl
    first false ih found = later (find_info infos sector) ih found
