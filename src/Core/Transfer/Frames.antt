-- ===== src/Core/Transfer/Frames.antt =====
-- core.c: what reads and writes through the swaps have in common keeps, and the rules of their
-- loops.
use scsiswap.Base.{ℕ, ◌++◌, [], ◌∷◌, ◌≡◌, refl, arith, Option, ◌==◌, ◌<◌}
use scsiswap.Kernel.{Kernel}
use scsiswap.State.{World, Info, is_ok, on_core, mark_dead}
use scsiswap.Ensures.{Ensures, if_rule}
use scsiswap.Io.{hd_test_unit_ready}
use scsiswap.Io.Effects.{
  IsCalm, IsCalm-refl, IsCalm-trans, on_if, mark_dead-IsCalm, hd_test_unit_ready-IsCalm,
}
use scsiswap.Core.Flush.{flush_swap_info_table}
use scsiswap.Core.Invariant.{
  Keeps, Keeps-trans, Keeps-of_calm, Keeps-append, Keeps-of_Grown, Placed,
}
use scsiswap.Core.Flush.Tables.{flush_swap_info_table-Grown}
use scsiswap.Core.Transfer.{
  Outcome, proceed, dirtied, broken, swap_repair_successive_sectors, add_to_list, add_user,
  drop_user,
}

pub outcome_rule :
    {E A : Type 0} (o : Outcome) (x y z : Option (A × World E)) (Q : A → World E → Type 0)
    → Ensures Q x
    → Ensures Q y
    → Ensures Q z
    → Ensures Q
        (let r : Option (A × World E) = elim o [ proceed ↦ x | dirtied ↦ y | broken ↦ z ] in r)
outcome_rule proceed x y z Q a b c = a
outcome_rule dirtied x y z Q a b c = b
outcome_rule broken x y z Q a b c = c

module _ {E : Type 0} where
  pub Keeps-refl : (w : World E) → Keeps w w
  Keeps-refl w = Keeps-of_calm (IsCalm-refl w)

  pub users_back :
      (w v : World E)
      → w.core.user < 4294967296
      → v.core.user ≡ (add_user w).core.user
      → (drop_user v).core.user ≡ w.core.user
  users_back w v h same = rw same (omega (arith, h))

module _ {E : Type 0} (k : Kernel E) where
  pub repair-IsCalm : (w : World E) → IsCalm w (swap_repair_successive_sectors k w).1
  unfolding swap_repair_successive_sectors
  repair-IsCalm w =
      let (r, w') = hd_test_unit_ready k w in
      on_if w (r == 0) (_, w') (_, mark_dead w') (hd_test_unit_ready-IsCalm k w)
        (IsCalm-trans (hd_test_unit_ready-IsCalm k w) (mark_dead-IsCalm w'))

  counted-Keeps : (n : ℕ) (w : World E) → Keeps w (on_core (λ c. record c { info_num = n }) w)
  counted-Keeps n w = record { user = refl; sound = λ h. h }

  pub add_to_list-Keeps :
      (info : Info) {w v : World E}
      → Placed w info.table.index v
      → Ensures (λ _ u. Keeps w u) (add_to_list k info v)
  unfolding add_to_list
  add_to_list-Keeps info {w} {v} a =
      let added = on_core (λ c. record c { info_list = c.info_list ++ info ∷ [] }) v in
      let (s, u) = flush_swap_info_table k added in
      let kept =
        Keeps-trans (Keeps-append info a) (Keeps-of_Grown (flush_swap_info_table-Grown k added)) in
      if_rule (is_ok s) _ _ (λ _ x. Keeps w x) u (Keeps-trans kept (counted-Keeps _ u)) tt
