-- ===== src/Core/Invariant.antt =====
-- core.c: each swap of the list owns its block: the block is marked in the bitmap, and no other
-- swap has it.
use scsiswap.Base.{
  ℕ, ◌≡◌, ◌≢◌, refl, sym, ap, ◌∙◌, Bool, true, false, Option, some, List, [], ◌∷◌, ◌++◌, get_or,
}
use mathlib.Core.Bool.{false≢true}
use mathlib.Core.Path.{subst}
use scsiswap.State.{World, Info, on_core}
use scsiswap.Io.Effects.{HasLog, IsCalm}
use scsiswap.Core.Bitmap.Laws.{Grows-refl, Grows-trans, Grows}
use scsiswap.Core.Quiet.{IsQuiet, IsQuiet-of_calm}
use scsiswap.Core.Alloc.Fresh.{Allocated, bits_of}

abbrev pub NotIn : ℕ → List ℕ → Type 0
NotIn i [] = Unit
NotIn i (j ∷ js) = (i ≢ j) × NotIn i js

-- The numbers are different, and each one's bit is set.
abbrev pub Owned : List Bool → List ℕ → Type 0
Owned bits [] = Unit
Owned bits (i ∷ is) = (get_or bits i false ≡ true) × NotIn i is × Owned bits is

abbrev pub indexes : List Info → List ℕ
indexes [] = []
indexes (info ∷ infos) = info.table.index ∷ indexes infos

abbrev pub IsSound : {E : Type 0} → World E → Type 0
IsSound w = Owned (bits_of w) (indexes w.core.info_list)

pub Owned-Grows : {a b : List Bool} (is : List ℕ) → Grows a b → Owned a is → Owned b is
Owned-Grows [] g h = tt
Owned-Grows (i ∷ is) g (h, n, r) = (g.stays i h, n, Owned-Grows is g r)

pub clear-NotIn :
    (bits : List Bool) (i : ℕ) (is : List ℕ)
    → get_or bits i false ≡ false
    → Owned bits is
    → NotIn i is
clear-NotIn bits i [] clear h = tt
clear-NotIn bits i (j ∷ js) clear (h, n, r) =
    ((λ same. false≢true (sym clear ∙ rw same h)), clear-NotIn bits i js clear r)

NotIn-append : (i j : ℕ) (is : List ℕ) → NotIn j is → j ≢ i → NotIn j (is ++ i ∷ [])
NotIn-append i j [] n ne = (ne, tt)
NotIn-append i j (x ∷ is) n ne = (n.0, NotIn-append i j is n.1 ne)

Owned-append :
    (bits : List Bool) (i : ℕ) (is : List ℕ)
    → get_or bits i false ≡ true
    → NotIn i is
    → Owned bits is
    → Owned bits (is ++ i ∷ [])
Owned-append bits i [] set n h = (set, tt, tt)
Owned-append bits i (j ∷ js) set n (h, m, r) =
    (h, NotIn-append i j js m (λ same. n.0 (sym same)), Owned-append bits i js set n.1 r)

indexes-append :
    (infos : List Info) (info : Info)
    → indexes (infos ++ info ∷ []) ≡ indexes infos ++ info.table.index ∷ []
indexes-append [] info = refl
indexes-append (x ∷ infos) info = ap (λ t. x.table.index ∷ t) (indexes-append infos info)

-- What an operation keeps that gives no block away: the users, the blocks of the swaps, the bits
-- that are set, and a log that can be pushed to.
pub record Grown {E : Type 0} (w v : World E) : Type 0 where
  pub user : v.core.user ≡ w.core.user
  pub blocks : indexes v.core.info_list ≡ indexes w.core.info_list
  pub grows : Grows (bits_of w) (bits_of v)
  pub logs : HasLog w.log → HasLog v.log

-- What reads, writes and their parts keep: the count of users, and soundness.
pub record Keeps {E : Type 0} (w v : World E) : Type 0 where
  pub user : v.core.user ≡ w.core.user
  pub sound : IsSound w → IsSound v

module _ {E : Type 0} where
  pub Grown-trans : {u v w : World E} → Grown u v → Grown v w → Grown u w
  Grown-trans p q = record {
    user = q.user ∙ p.user;
    blocks = q.blocks ∙ p.blocks;
    grows = Grows-trans p.grows q.grows;
    logs = λ h. q.logs (p.logs h);
  }

  pub Grown-of_quiet : {w v : World E} → IsQuiet w v → Grown w v
  Grown-of_quiet {w} q = record {
    user = q.steady.user;
    blocks = ap indexes q.steady.infos;
    grows = rw q.bits (Grows-refl (bits_of w));
    logs = q.steady.logs;
  }

  pub Grown-of_calm : {w v : World E} → IsCalm w v → Grown w v
  Grown-of_calm c = Grown-of_quiet (IsQuiet-of_calm c)

  pub Grown-of_Allocated : {w v : World E} {o : Option ℕ} → Allocated w (o, v) → Grown w v
  Grown-of_Allocated a = record {
    user = a.steady.user;
    blocks = ap indexes a.steady.infos;
    grows = a.grows;
    logs = a.steady.logs;
  }

  pub Keeps-trans : {u v w : World E} → Keeps u v → Keeps v w → Keeps u w
  Keeps-trans p q = record { user = q.user ∙ p.user; sound = λ h. q.sound (p.sound h) }

  pub Keeps-of_Grown : {w v : World E} → Grown w v → Keeps w v
  Keeps-of_Grown {w} g = record {
    user = g.user;
    sound = λ h. rw g.blocks (Owned-Grows (indexes w.core.info_list) g.grows h);
  }

  pub Keeps-of_calm : {w v : World E} → IsCalm w v → Keeps w v
  Keeps-of_calm c = Keeps-of_Grown (Grown-of_calm c)

  pub Keeps-of_Allocated : {w v : World E} {o : Option ℕ} → Allocated w (o, v) → Keeps w v
  Keeps-of_Allocated a = Keeps-of_Grown (Grown-of_Allocated a)

  -- Block `i` was free in `w`, and is marked in `v` without being anyone's.
  pub record Placed (w : World E) (i : ℕ) (v : World E) : Type 0 where
    pub grown : Grown w v
    pub clear : get_or (bits_of w) i false ≡ false
    pub marked : get_or (bits_of v) i false ≡ true

  pub Placed-of_Allocated : {w v : World E} {i : ℕ} → Allocated w (some i, v) → Placed w i v
  Placed-of_Allocated {w} {v} {i} a = record {
    grown = Grown-of_Allocated a;
    clear = (a.fresh i refl).1;
    marked = (a.fresh i refl).2;
  }

  pub Placed-then : {w u v : World E} {i : ℕ} → Placed w i u → Grown u v → Placed w i v
  Placed-then {i = i} p g = record {
    grown = Grown-trans p.grown g;
    clear = p.clear;
    marked = g.grows.stays i p.marked;
  }

  -- A swap with a placed block goes to the end of the list.
  pub Keeps-append :
      {w v : World E} (info : Info)
      → Placed w info.table.index v
      → Keeps w (on_core (λ c. record c { info_list = c.info_list ++ info ∷ [] }) v)
  Keeps-append {w} {v} info p = record {
    user = p.grown.user;
    sound = λ h.
        let i = info.table.index in
        let is = indexes w.core.info_list in
        subst (Owned (bits_of v))
          (sym (indexes-append v.core.info_list info ∙ ap (λ js. js ++ i ∷ []) p.grown.blocks))
          (Owned-append (bits_of v) i is p.marked (clear-NotIn (bits_of w) i is p.clear h)
            (Owned-Grows is p.grown.grows h));
  }
