-- ===== src/Sim/Hits.antt =====
-- What a simulated bad sector hits.
use scsiswap.Base.{
  extend, ℕ, ◌+◌, ◌≤◌, ◌<◌, ◌≡◌, refl, sym, arith, ◌↔◌, ◌⊎◌, inl, inr, Bool, true, false, ◌||◌,
  List, [], ◌∷◌,
}
use mathlib.Core.Bool.{true≢false}
use scsiswap.State.{SimNode, World}
use scsiswap.Sim.{sector_a_hit_sector_b, any_hit, last_sector, scsi_swap_sim_hit}

-- Two ranges of sectors, each from its start and by its count, have a sector in common.
abbrev pub Overlap : ℕ → ℕ → ℕ → ℕ → Type 0
Overlap a n b m = (a < b + m) × (b < a + n)

-- One of the nodes does.
abbrev pub AnyOverlap : ℕ → ℕ → List SimNode → Type 0
AnyOverlap sector num [] = ⊥
AnyOverlap sector num (node ∷ nodes) =
    Overlap sector num node.start node.num ⊎ AnyOverlap sector num nodes

-- A range is not empty and ends within 64 bits.
abbrev pub IsRange : ℕ → ℕ → Type 0
IsRange start num = (1 ≤ num) × (start + num ≤ 18446744073709551616)

abbrev pub AreRanges : List SimNode → Type 0
AreRanges [] = Unit
AreRanges (node ∷ nodes) = IsRange node.start node.num × AreRanges nodes

last_sector_lem : (start num : ℕ) → IsRange start num → last_sector start num + 1 ≡ start + num
last_sector_lem start num h = omega (arith, h.0, h.1)

hit_iff :
    (a n b m e f : ℕ)
    → 1 ≤ n
    → 1 ≤ m
    → e + 1 ≡ a + n
    → f + 1 ≡ b + m
    → (sector_a_hit_sector_b a e b f ≡ true) ↔ Overlap a n b m
unfolding sector_a_hit_sector_b
hit_iff a n b m e f p q x y = ground arith

or_iff :
    {P Q : Type 0} (b c : Bool) → ((b ≡ true) ↔ P) → ((c ≡ true) ↔ Q) → ((b || c) ≡ true) ↔ (P ⊎ Q)
or_iff true c f g = (λ _. inl (f.0 refl), λ _. refl)
or_iff false c f g = (
  (λ h. inr (g.0 h)),
  (λ s. elim s [ inl p ↦ absurd (true≢false (sym (f.1 p))) | inr q ↦ g.1 q ]),
)

any_hit_iff :
    (sector num : ℕ) (nodes : List SimNode)
    → num < 2147483648
    → IsRange sector num
    → AreRanges nodes
    → (any_hit sector num nodes ≡ true) ↔ AnyOverlap sector num nodes
unfolding any_hit
any_hit_iff sector num [] small r h = ((λ e. true≢false (sym e)), (λ x. absurd x))
any_hit_iff sector num (node ∷ nodes) small r h =
    let ext : extend num ≡ num = ground arith in
    or_iff _ _
      (hit_iff sector num node.start node.num (last_sector sector (extend num))
        (last_sector node.start node.num) r.0 h.0.0 (rw ext (last_sector_lem sector num r))
        (last_sector_lem node.start node.num h.0))
      (any_hit_iff sector num nodes small r h.1)

-- `scsi_swap_sim_hit` answers yes exactly when the range asked for and the range of one of the
-- simulated bad sectors have a sector in common; the ranges are not empty and end within 64 bits,
-- and the count asked for is a positive `int`.
pub scsi_swap_sim_hit_iff :
    {E : Type 0} (sector num : ℕ) (w : World E)
    → num < 2147483648
    → IsRange sector num
    → AreRanges w.sim
    → (scsi_swap_sim_hit sector num w ≡ true) ↔ AnyOverlap sector num w.sim
unfolding scsi_swap_sim_hit
scsi_swap_sim_hit_iff sector num w small r h = any_hit_iff sector num w.sim small r h
