-- ===== src/Core/Transfer/Renewals.antt =====
-- core.c: `swap_write` keeps the swap's block, or moves the swap to one that was free.
use scsiswap.Base.{
  ℕ, zero, suc, ◌≡◌, refl, sym, ap, ◌∙◌, Bool, true, false, none, some, List, [], ◌∷◌, Bytes,
  get_or, set, get_elem?, if◌then◌else◌,
}
use mathlib.Core.Path.{subst}
use scsiswap.Kernel.{Kernel}
use scsiswap.State.{World, Info, Status, ok, fail, eio, enodev, may_dirty, is_ok}
use scsiswap.Ensures.{Ensures, bind_rule, deref_rule, if_rule, test_rule}
use scsiswap.Io.Effects.{HasLog}
use scsiswap.Core.Bitmap.Laws.{Grows-refl}
use scsiswap.Core.Flush.Tables.{flush_swap_info_data-IsCalm}
use scsiswap.Core.Quiet.{IsQuiet-of_calm}
use scsiswap.Core.Alloc.Fresh.{bits_of}
use scsiswap.Core.Create.{Loc, store, swap_recreate}
use scsiswap.Core.Create.Moves.{moved, Moved, Failed, Renewed, store_blocks, store_rest}
use scsiswap.Core.Create.Renewed.{swap_recreate-Renewed}
use scsiswap.Core.Invariant.{indexes, Grown, Grown-trans}
use scsiswap.Core.Transfer.{copy_out, copy_in, swap_write_info, swap_write}

-- The list says that the swap at a place has block `i`.
abbrev pub Entry : Loc → ℕ → List ℕ → Type 0
Entry none i is = Unit
Entry (some n) i is = get_elem? is n ≡ some i

moved_same : (loc : Loc) (i : ℕ) (is : List ℕ) → Entry loc i is → moved loc i is ≡ is
moved_same none i is h = refl
moved_same (some n) i is h = go n is h
  where
    go : (n : ℕ) (is : List ℕ) → get_elem? is n ≡ some i → set is n i ≡ is
    go n [] h = refl
    go zero (x ∷ is) h = let same : x ≡ i = cc in ap (λ y. y ∷ is) (sym same)
    go (suc n) (x ∷ is) h = ap (λ ys. x ∷ ys) (go n is h)

moved_twice : (loc : Loc) (i : ℕ) (is : List ℕ) → moved loc i (moved loc i is) ≡ moved loc i is
moved_twice none i is = refl
moved_twice (some n) i is = go n is
  where
    go : (n : ℕ) (is : List ℕ) → set (set is n i) n i ≡ set is n i
    go n [] = refl
    go zero (x ∷ is) = refl
    go (suc n) (x ∷ is) = ap (λ ys. x ∷ ys) (go n is)

-- What a write of bytes to the buffer of a swap of block `i` has done.
pub record Filled {E : Type 0} (v : World E) (loc : Loc) (i : ℕ) (u : World E) : Type 0 where
  pub user : u.core.user ≡ v.core.user
  pub bits : bits_of u ≡ bits_of v
  pub blocks : indexes u.core.info_list ≡ moved loc i (indexes v.core.info_list)
  pub logs : HasLog v.log → HasLog u.log

module _ {E : Type 0} where
  Filled-Grown :
      {v u : World E} {loc : Loc} {i : ℕ}
      → Filled v loc i u
      → Entry loc i (indexes v.core.info_list)
      → Grown v u
  Filled-Grown {v} {u} {loc} {i} f at = record {
    user = f.user;
    blocks = f.blocks ∙ moved_same loc i (indexes v.core.info_list) at;
    grows = rw f.bits (Grows-refl (bits_of v));
    logs = f.logs;
  }

  Moved-Filled :
      {w v u : World E} {loc : Loc} {i : ℕ} → Moved w loc i v → Filled v loc i u → Moved w loc i u
  Moved-Filled {w} {v} {u} {loc} {i} m f = record {
    user = f.user ∙ m.user;
    blocks = f.blocks ∙ (ap (moved loc i) m.blocks ∙ moved_twice loc i (indexes w.core.info_list));
    grows = rw f.bits m.grows;
    clear = m.clear;
    marked = rw f.bits m.marked;
    logs = λ h. f.logs (m.logs h);
  }

  pub Failed-of_Moved : {w v : World E} {loc : Loc} {i : ℕ} → Moved w loc i v → Failed w loc i v
  Failed-of_Moved {w} {v} {loc} {i} m = record {
    user = m.user;
    logs = m.logs;
    unlisted = λ e. (
      subst (λ l. indexes v.core.info_list ≡ moved l i (indexes w.core.info_list)) e m.blocks,
      m.grows,
      m.clear,
    );
  }

-- What `swap_write` has done that began in `v`, itself grown from `w`.
abbrev pub Written : {E : Type 0} → World E → World E → Loc → ℕ → Status × Info → World E → Type 0
Written w v loc i (ok, info) u = Grown v u × (info.table.index ≡ i)
Written w v loc i (may_dirty, info) u = Moved w loc info.table.index u
Written w v loc i (_, info) u = Failed w loc info.table.index u

abbrev ByTest : {E : Type 0} → World E → Loc → Bool → ℕ → World E → Type 0
ByTest w loc true i v = Moved w loc i v
ByTest w loc false i v = Failed w loc i v

by_test :
    {E : Type 0} (w : World E) (loc : Loc) (s : Status) (info : Info) (v : World E)
    → Renewed w loc (s, info) v
    → ByTest w loc (is_ok s) info.table.index v
by_test w loc ok info v h = h
by_test w loc fail info v h = h
by_test w loc eio info v h = h
by_test w loc enodev info v h = h
by_test w loc may_dirty info v h = h

second_write :
    {E : Type 0} {w y : World E} {loc : Loc} (v : World E) (j : ℕ) (b : Bool) (info : Info)
    → Moved w loc info.table.index y
    → Written w v loc j (if b then may_dirty else fail, info) y
second_write v j true info m = m
second_write v j false info m = Failed-of_Moved m

module _ {E : Type 0} (k : Kernel E) where
  swap_write_info-Filled :
      (loc : Loc) (info : Info) (start count : ℕ) (buf : Bytes) (size : ℕ) (v : World E)
      → Ensures
          (λ r u. (r.1.table.index ≡ info.table.index) × Filled v loc info.table.index u)
          (swap_write_info k loc info start count buf size v)
  unfolding swap_write_info
  swap_write_info-Filled loc info start count buf size v = deref_rule info.buf _ Q v (λ buffer _.
      deref_rule (copy_out buf 0 _) _ Q v (λ bytes _.
        deref_rule (copy_in buffer _ bytes) _ Q v (λ buffer' _.
          let info' : Info = record { table = info.table; buf = some buffer' } in
          let (same_user, same_bits, same_log) = store_rest loc info' v in
          let c = flush_swap_info_data-IsCalm k info' (store loc info' v) in
          (
            refl,
            record {
              user = c.user ∙ same_user;
              bits = (IsQuiet-of_calm c).bits ∙ same_bits;
              blocks = ap indexes c.infos ∙ store_blocks loc info' v;
              logs = λ h. c.logs (subst HasLog (sym same_log) h);
            },
          ))))
    where
      Q : Status × Info → World E → Type 0
      Q r u = (r.1.table.index ≡ info.table.index) × Filled v loc info.table.index u

  -- `swap_write` of a swap whose entry in the list says its block; a swap that is not in the list
  -- has a block that was free in `w`.
  pub swap_write-Written :
      (loc : Loc) (info : Info) (start count : ℕ) (buf : Bytes) (size : ℕ) {w : World E}
      (v : World E)
      → Grown w v
      → Entry loc info.table.index (indexes v.core.info_list)
      → (loc ≡ none → get_or (bits_of w) info.table.index false ≡ false)
      → Ensures (Written w v loc info.table.index) (swap_write k loc info start count buf size v)
  unfolding swap_write
  swap_write-Written loc info start count buf size {w} v g at free =
      bind_rule (swap_write_info k loc info start count buf size) _
        (λ r u. (r.1.table.index ≡ info.table.index) × Filled v loc info.table.index u) Q v
        (swap_write_info-Filled loc info start count buf size v)
        (λ (s, info1) u (same, filled).
          let g1 = Filled-Grown filled at in
          if_rule (is_ok s) _ _ Q u (g1, same)
            (bind_rule (swap_recreate k loc info1) _ (Renewed w loc) Q u
              (swap_recreate-Renewed k loc info1 u (Grown-trans g g1)
                (λ e. subst (λ i. get_or (bits_of w) i false ≡ false) (sym same) (free e)))
              (λ (s', info2) x renewed.
                test_rule (is_ok s') _ _ (λ b. ByTest w loc b info2.table.index x) Q x
                  (by_test w loc s' info2 x renewed)
                  (λ m.
                    bind_rule (swap_write_info k loc info2 start count buf size) _
                      (λ r y.
                        (r.1.table.index ≡ info2.table.index) × Filled x loc info2.table.index y)
                      Q x (swap_write_info-Filled loc info2 start count buf size x)
                      (λ (s'', info3) y (same3, filled3).
                        second_write v info.table.index (is_ok s'') info3
                          (subst (λ i. Moved w loc i y) (sym same3) (Moved-Filled m filled3))))
                  (λ failed. failed))))
    where
      Q : Status × Info → World E → Type 0
      Q = Written w v loc info.table.index
