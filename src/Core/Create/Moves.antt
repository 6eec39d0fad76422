-- ===== src/Core/Create/Moves.antt =====
-- core.c: what a renewal of a swap's block does to the list, the bitmap and the log.
use scsiswap.Base.{
  ℕ, zero, suc, ◌≡◌, ◌≢◌, refl, sym, ap, ◌∙◌, Bool, true, false, Option, none, some, List, [], ◌∷◌,
  get_or, set, get_elem?,
}
use mathlib.Core.Path.{subst}
use scsiswap.State.{World, Info, Status, ok}
use scsiswap.Io.Effects.{HasLog}
use scsiswap.Core.Bitmap.{set_bit}
use scsiswap.Core.Bitmap.Laws.{Grows-unmark, Grows-trans, Grows}
use scsiswap.Core.Alloc.Fresh.{bits_of}
use scsiswap.Core.Create.{Loc, store, reload}
use scsiswap.Core.Invariant.{Placed, indexes, NotIn, Owned, Grown}

-- The blocks of the list after a swap has got block `i`: only a swap in the list counts.
abbrev pub moved : Loc → ℕ → List ℕ → List ℕ
moved none i is = is
moved (some n) i is = set is n i

-- What a renewal has done that began in a world with the users, bits and blocks of `w`.
pub record Moved {E : Type 0} (w : World E) (loc : Loc) (i : ℕ) (v : World E) : Type 0 where
  pub user : v.core.user ≡ w.core.user
  pub blocks : indexes v.core.info_list ≡ moved loc i (indexes w.core.info_list)
  pub grows : Grows (bits_of w) (bits_of v)
  pub clear : get_or (bits_of w) i false ≡ false
  pub marked : get_or (bits_of v) i false ≡ true
  pub logs : HasLog w.log → HasLog v.log

-- The same where it failed: a swap that is not in the list keeps a block that was free before; of a
-- swap in the list only the users and the log are told.
pub record Failed {E : Type 0} (w : World E) (loc : Loc) (i : ℕ) (v : World E) : Type 0 where
  pub user : v.core.user ≡ w.core.user
  pub logs : HasLog w.log → HasLog v.log
  pub unlisted :
      loc ≡ none
      → (indexes v.core.info_list ≡ indexes w.core.info_list)
        × Grows (bits_of w) (bits_of v)
        × (get_or (bits_of w) i false ≡ false)

abbrev pub Renewed : {E : Type 0} → World E → Loc → Status × Info → World E → Type 0
Renewed w loc (ok, info) v = Moved w loc info.table.index v
Renewed w loc (_, info) v = Failed w loc info.table.index v

indexes-set :
    (infos : List Info) (n : ℕ) (info : Info)
    → indexes (set infos n info) ≡ set (indexes infos) n info.table.index
indexes-set [] n info = refl
indexes-set (x ∷ infos) zero info = refl
indexes-set (x ∷ infos) (suc n) info = ap (λ is. x.table.index ∷ is) (indexes-set infos n info)

NotIn-set : (j i n : ℕ) (is : List ℕ) → NotIn j is → j ≢ i → NotIn j (set is n i)
NotIn-set j i n [] h ne = tt
NotIn-set j i zero (x ∷ is) h ne = (ne, h.1)
NotIn-set j i (suc n) (x ∷ is) h ne = (h.0, NotIn-set j i n is h.1 ne)

pub Owned-set :
    (bits : List Bool) (i n : ℕ) (is : List ℕ)
    → get_or bits i false ≡ true
    → NotIn i is
    → Owned bits is
    → Owned bits (set is n i)
Owned-set bits i n [] marked new h = tt
Owned-set bits i zero (x ∷ is) marked new h = (marked, new.1, h.2)
Owned-set bits i (suc n) (x ∷ is) marked new h =
    (h.0, NotIn-set x i n is h.1 (λ same. new.0 (sym same)), Owned-set bits i n is marked new.1 h.2)

module _ {E : Type 0} where
  -- A write to the swap's entry, or to a swap outside the list.
  pub store_blocks :
      (loc : Loc) (info : Info) (w : World E)
      → indexes (store loc info w).core.info_list
        ≡ moved loc info.table.index (indexes w.core.info_list)
  unfolding store
  store_blocks none info w = refl
  store_blocks (some n) info w = indexes-set w.core.info_list n info

  pub store_rest :
      (loc : Loc) (info : Info) (w : World E)
      → ((store loc info w).core.user ≡ w.core.user)
        × (bits_of (store loc info w) ≡ bits_of w)
        × ((store loc info w).log ≡ w.log)
  unfolding store
  store_rest none info w = (refl, refl, refl)
  store_rest (some n) info w = (refl, refl, refl)

-- The entry of a swap of block `i` in the list, if it has one, says `i`.
abbrev pub IndexIs : Loc → ℕ → List ℕ → Type 0
IndexIs none i is = Unit
IndexIs (some n) i is = (j : ℕ) → get_elem? is n ≡ some j → j ≡ i

pub moved-IndexIs : (loc : Loc) (i : ℕ) (is : List ℕ) → IndexIs loc i (moved loc i is)
moved-IndexIs none i is = tt
moved-IndexIs (some n) i is = go n is
  where
    go : (n : ℕ) (is : List ℕ) (j : ℕ) → get_elem? (set is n i) n ≡ some j → j ≡ i
    go n [] j h = cc
    go zero (x ∷ is) j h = cc
    go (suc n) (x ∷ is) j h = go n is j h

pub entry_index :
    (infos : List Info) (n : ℕ) (info : Info)
    → get_elem? infos n ≡ some info
    → get_elem? (indexes infos) n ≡ some info.table.index
entry_index [] n info h = cc
entry_index (x ∷ infos) zero info h = let same : x ≡ info = cc in ap (λ y. some y.table.index) same
entry_index (x ∷ infos) (suc n) info h = entry_index infos n info h

module _ {E : Type 0} where
  pub reload_index :
      (loc : Loc) (info : Info) (w : World E)
      → IndexIs loc info.table.index (indexes w.core.info_list)
      → (reload loc info w).table.index ≡ info.table.index
  unfolding reload
  reload_index none info w h = refl
  reload_index (some n) info w h = go (get_elem? w.core.info_list n) refl
    where
      go :
          (o : Option Info)
          → get_elem? w.core.info_list n ≡ o
          → (let r : Info = elim o [ none ↦ info | some info' ↦ info' ] in r).table.index
            ≡ info.table.index
      go none e = refl
      go (some info') e = h info'.table.index (entry_index w.core.info_list n info' e)

  pub Moved-then :
      {w u v : World E} {loc : Loc} {i : ℕ} → Moved w loc i u → Grown u v → Moved w loc i v
  Moved-then {i = i} m g = record {
    user = g.user ∙ m.user;
    blocks = g.blocks ∙ m.blocks;
    grows = Grows-trans m.grows g.grows;
    clear = m.clear;
    marked = g.grows.stays i m.marked;
    logs = λ h. g.logs (m.logs h);
  }

  pub Moved-store :
      {w v : World E} (loc : Loc) (info : Info)
      → Placed w info.table.index v
      → Moved w loc info.table.index (store loc info v)
  Moved-store {w} {v} loc info p =
      let i = info.table.index in
      let (same_user, same_bits, same_log) = store_rest loc info v in
      record {
        user = same_user ∙ p.grown.user;
        blocks = store_blocks loc info v ∙ ap (moved loc i) p.grown.blocks;
        grows = rw same_bits p.grown.grows;
        clear = p.clear;
        marked = rw same_bits p.marked;
        logs = λ h. subst HasLog (sym same_log) (p.grown.logs h);
      }

  -- The new block is given back.
  pub Moved-undo :
      {w v : World E} {loc : Loc} (i j : ℕ)
      → j ≡ i
      → Moved w loc i v
      → Failed w loc j (set_bit i false v)
  Moved-undo {w} {v} {loc} i j same m = record {
    user = m.user;
    logs = m.logs;
    unlisted = λ e. (
      subst (λ l. indexes v.core.info_list ≡ moved l i (indexes w.core.info_list)) e m.blocks,
      Grows-unmark i m.grows m.clear,
      rw same m.clear,
    );
  }

  pub Failed-of_Grown :
      {w v : World E} {loc : Loc} {i : ℕ}
      → Grown w v
      → (loc ≡ none → get_or (bits_of w) i false ≡ false)
      → Failed w loc i v
  Failed-of_Grown g free = record {
    user = g.user;
    logs = g.logs;
    unlisted = λ e. (g.blocks, g.grows, free e);
  }
