-- ===== src/Core/Transfer/Rounds.antt =====
-- core.c: how a round of a write through the swaps, and the whole, may end.
use scsiswap.Base.{ℕ, ◌≡◌, refl, ◌∙◌, Bool, true, false, Option, none, some}
use scsiswap.State.{World, Info, Status, ok, fail, eio, enodev, may_dirty, is_ok, M}
use scsiswap.Ensures.{Ensures}
use scsiswap.Core.Bitmap.{set_bit}
use scsiswap.Core.Bitmap.Laws.{Grows-unmark}
use scsiswap.Core.Alloc.Fresh.{bits_of}
use scsiswap.Core.Create.Moves.{Moved, Failed, Owned-set}
use scsiswap.Core.Invariant.{
  indexes, IsSound, clear-NotIn, Owned-Grows, Grown, Keeps, Keeps-trans, Keeps-of_Grown,
}
use scsiswap.Core.Transfer.{Outcome, proceed, dirtied, broken}
use scsiswap.Core.Transfer.Renewals.{Written, Failed-of_Moved}

module _ {E : Type 0} where
  -- A block that was free at first is given back.
  pub give_back : {w v : World E} {i : ℕ} → Failed w none i v → Keeps w (set_bit i false v)
  give_back {w} {v} {i} f =
      let (same, grows, clear) = f.unlisted refl in
      record {
        user = f.user;
        sound =
            λ h. rw same (Owned-Grows (indexes w.core.info_list) (Grows-unmark i grows clear) h);
      }

  -- A swap of the list moved to a block that was free.
  pub Keeps-of_Moved : {w v : World E} {n i : ℕ} → Moved w (some n) i v → Keeps w v
  Keeps-of_Moved {w} {v} {n} {i} m = record {
    user = m.user;
    sound = λ h. rw m.blocks (
        Owned-set (bits_of v) i n (indexes w.core.info_list) m.marked
          (clear-NotIn (bits_of w) i (indexes w.core.info_list) m.clear h)
          (Owned-Grows (indexes w.core.info_list) m.grows h));
  }

  -- How a round ends: where the loop goes on, what `Keeps` says; where it stops, the users alone.
  abbrev pub Round : World E → Outcome → World E → Type 0
  Round w broken v = v.core.user ≡ w.core.user
  Round w _ v = Keeps w v

  -- The same of the whole.
  abbrev pub Ended : World E → Status → World E → Type 0
  Ended w ok v = Keeps w v
  Ended w may_dirty v = Keeps w v
  Ended w _ v = v.core.user ≡ w.core.user

  pub Round-of_Keeps : {w v : World E} (o : Outcome) → Keeps w v → Round w o v
  Round-of_Keeps proceed k = k
  Round-of_Keeps dirtied k = k
  Round-of_Keeps broken k = k.user

  -- Soundness behind a success.
  abbrev pub IsSoundIf : Status → World E → Type 0
  IsSoundIf ok v = IsSound v
  IsSoundIf may_dirty v = IsSound v
  IsSoundIf _ v = Unit

  pub Ended-of_Keeps : {w v : World E} (s : Status) → Keeps w v → Ended w s v
  Ended-of_Keeps ok k = k
  Ended-of_Keeps may_dirty k = k
  Ended-of_Keeps fail k = k.user
  Ended-of_Keeps eio k = k.user
  Ended-of_Keeps enodev k = k.user

  pub Round-elim :
      {w : World E} (o : Outcome) (x y z : Option (Status × World E))
      (Q : Status → World E → Type 0) (v : World E)
      → Round w o v
      → (Keeps w v → Ensures Q x)
      → (Keeps w v → Ensures Q y)
      → (v.core.user ≡ w.core.user → Ensures Q z)
      → Ensures Q (
          let r : Option (Status × World E) = elim o [ proceed ↦ x | dirtied ↦ y | broken ↦ z ] in
          r)
  Round-elim proceed x y z Q v r a b c = a r
  Round-elim dirtied x y z Q v r a b c = b r
  Round-elim broken x y z Q v r a b c = c r

  pub Round-after :
      {w u : World E} (o : Outcome) (v : World E) → Keeps w u → Round u o v → Round w o v
  Round-after proceed v p q = Keeps-trans p q
  Round-after dirtied v p q = Keeps-trans p q
  Round-after broken v p q = q ∙ p.user

  pub Ended-after :
      {w u : World E} (s : Status) (v : World E) → Keeps w u → Ended u s v → Ended w s v
  Ended-after ok v p q = Keeps-trans p q
  Ended-after may_dirty v p q = Keeps-trans p q
  Ended-after fail v p q = q ∙ p.user
  Ended-after eio v p q = q ∙ p.user
  Ended-after enodev v p q = q ∙ p.user

-- What `swap_write` leaves of a swap that is not in the list, by its test.
abbrev pub NewBy : {E : Type 0} → World E → World E → ℕ → Bool → ℕ → World E → Type 0
NewBy w v i true j u = Grown v u × (j ≡ i)
NewBy w v i false j u = Failed w none j u

pub NewBy-test :
    {E : Type 0} (w v : World E) (i : ℕ) (s : Status) (info : Info) (u : World E)
    → Written w v none i (s, info) u
    → NewBy w v i (is_ok s) info.table.index u
NewBy-test w v i ok info u h = h
NewBy-test w v i may_dirty info u h = Failed-of_Moved h
NewBy-test w v i fail info u h = h
NewBy-test w v i eio info u h = h
NewBy-test w v i enodev info u h = h

-- The three ways on behind a write to a swap of the list.
pub listed_rule :
    {E : Type 0} {w : World E} (n i : ℕ) (s : Status) (info : Info) (x y z : M E Outcome)
    (u : World E)
    → Written w w (some n) i (s, info) u
    → (Keeps w u → Ensures (Round w) (x u))
    → (Keeps w u → Ensures (Round w) (y u))
    → (u.core.user ≡ w.core.user → Ensures (Round w) (z u))
    → Ensures (Round w) ((let r : M E Outcome = elim s [ ok ↦ x | may_dirty ↦ y | _ ↦ z ] in r) u)
listed_rule n i ok info x y z u h a b c = a (Keeps-of_Grown h.0)
listed_rule n i may_dirty info x y z u h a b c = b (Keeps-of_Moved h)
listed_rule n i fail info x y z u h a b c = c h.user
listed_rule n i eio info x y z u h a b c = c h.user
listed_rule n i enodev info x y z u h a b c = c h.user
