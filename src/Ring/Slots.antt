-- ===== src/Ring/Slots.antt =====
-- drivers/scsi/swap/ring.h: the slot arithmetic of the ring, on its counters alone.
use scsiswap.Base.{
  ℕ, ◌+◌, ◌-◌, ◌%◌, ◌≤◌, ◌<◌, ◌≡◌, ◌≢◌, ap, ◌∙◌, sym, if◌then◌else◌, ◌==◌, ==_iff, ne→==_false,
  arith,
}
use native.Mathlib.Nat.{mod-eq_of_lt, mod-eq-sub-mod}
use native.Mathlib.Decide.{ℕ_discrete}

module _ (c m x i : ℕ) where
  slot_new : m < c → x < c → ((x + c - m) % c + m) % c ≡ x
  slot_new h k = grind arith

  -- The next place, one item more: the slots of the older items stay.
  slot_kept_room :
      m < c → x + 1 < c → ((x + 1 + c - (m + 1)) % c + i) % c ≡ ((x + c - m) % c + i) % c
  slot_kept_room h k = ap (λ t. (t % c + i) % c) (omega arith)

  slot_kept_turn : m < c → x + 1 ≡ c → ((0 + c - (m + 1)) % c + i) % c ≡ ((x + c - m) % c + i) % c
  slot_kept_turn h k = ap (λ t. (t + i) % c) (low ∙ sym high)
    where
      low : (0 + c - (m + 1)) % c ≡ x - m
      low = mod-eq_of_lt (omega arith) ∙ omega arith

      high : (x + c - m) % c ≡ x - m
      high =
          mod-eq-sub-mod {n = x + c - m} {m = c} (omega arith)
          ∙ (mod-eq_of_lt {n = x + c - m - c} {m = c} (omega arith) ∙ omega arith)

  slot_kept_full : x + 1 < c → ((x + 1 + c - c) % c + i) % c ≡ ((x + c - c) % c + (i + 1)) % c
  slot_kept_full k =
      rw
        (
          mod-eq_of_lt {n = x + 1 + c - c} {m = c} (omega arith),
          mod-eq_of_lt {n = x + c - c} {m = c} (omega arith),
        )
        (ap (λ t. t % c) (omega arith))

  slot_kept_full_turn : x + 1 ≡ c → ((0 + c - c) % c + i) % c ≡ ((x + c - c) % c + (i + 1)) % c
  slot_kept_full_turn k =
      rw
        (
          mod-eq_of_lt {n = 0 + c - c} {m = c} (omega arith),
          mod-eq_of_lt {n = x + c - c} {m = c} (omega arith),
        )
        (ap (λ t. t % c) {x = 0 + c - c + i} {y = x + c - c + (i + 1) - c} (omega arith)
          ∙ sym (mod-eq-sub-mod {n = x + c - c + (i + 1)} {m = c} (omega arith)))

  slot_other : m ≤ c → x < c → i < m → m < c → ((x + c - m) % c + i) % c ≢ x
  slot_other h k l n = grind arith

  slot_other_full : x < c → i + 1 < c → ((x + c - c) % c + (i + 1)) % c ≢ x
  slot_other_full k l = grind arith

-- `slot` on the counters, and the counters behind a push.
abbrev pub slot_of : ℕ → ℕ → ℕ → ℕ → ℕ
slot_of c m x i = ((x + c - m) % c + i) % c

abbrev pub num_after : ℕ → ℕ → ℕ
num_after c m = if m == c then m else m + 1

abbrev pub next_after : ℕ → ℕ → ℕ
next_after c x = if x + 1 == c then 0 else x + 1

wrap_once : (c x : ℕ) → x < c → ((x + c - c) % c + (c - 1 + 1)) % c ≡ x
wrap_once c x h =
    ap (λ t. (t + (c - 1 + 1)) % c) (mod-eq_of_lt {n = x + c - c} {m = c} (omega arith) ∙ start)
    ∙ (mod-eq-sub-mod {n = x + (c - 1 + 1)} {m = c} (omega arith)
        ∙ (mod-eq_of_lt {n = x + (c - 1 + 1) - c} {m = c} (omega arith) ∙ omega arith))
  where
    start : x + c - c ≡ x
    start = omega arith

pub slot_of_new :
    (c m x : ℕ) → m ≤ c → x < c → slot_of c (num_after c m) (next_after c x) (num_after c m - 1) ≡ x
slot_of_new c m x h k = elim (ℕ_discrete m c) [
  | yes full ↦ elim (ℕ_discrete (x + 1) c) [
    | yes turn ↦
        rw ((==_iff m c).1 full, (==_iff (x + 1) c).1 turn)
          (ap (λ t. slot_of c t 0 (t - 1)) full
            ∙ (slot_kept_full_turn c m x (c - 1) turn ∙ wrap_once c x k))
    | no more ↦
        rw ((==_iff m c).1 full, ne→==_false (x + 1) c more)
          (ap (λ t. slot_of c t (x + 1) (t - 1)) full
            ∙ (slot_kept_full c m x (c - 1) (omega arith) ∙ wrap_once c x k))
  ]
  | no room ↦ elim (ℕ_discrete (x + 1) c) [
    | yes turn ↦
        rw (ne→==_false m c room, (==_iff (x + 1) c).1 turn)
          (ap (slot_of c (m + 1) 0) step
            ∙ (slot_kept_turn c m x m (omega arith) turn ∙ slot_new c m x m (omega arith) k))
    | no more ↦
        rw (ne→==_false m c room, ne→==_false (x + 1) c more)
          (ap (slot_of c (m + 1) (x + 1)) step
            ∙ (slot_kept_room c m x m (omega arith) (omega arith)
                ∙ slot_new c m x m (omega arith) k))
  ]
]
  where
    step : m + 1 - 1 ≡ m
    step = omega arith

-- An older item: its slot is the one that it had, and another one than the new item's.
pub slot_of_old :
    (c m x i : ℕ)
    → m ≤ c
    → x < c
    → i + 1 < num_after c m
    → (slot_of c (num_after c m) (next_after c x) i ≡ slot_of c m x (if m == c then i + 1 else i))
      × (slot_of c m x (if m == c then i + 1 else i) ≢ x)
slot_of_old c m x i h k lt = elim (ℕ_discrete m c) [
  | yes full ↦ old_full full
  | no room ↦ old_room room
]
  where
    old_full :
        m ≡ c
        → (slot_of c (num_after c m) (next_after c x) i
            ≡ slot_of c m x (if m == c then i + 1 else i))
          × (slot_of c m x (if m == c then i + 1 else i) ≢ x)
    old_full full =
        rw ((==_iff m c).1 full, full)
          (
            elim (ℕ_discrete (x + 1) c) [
              | yes turn ↦ rw ((==_iff (x + 1) c).1 turn) (slot_kept_full_turn c m x i turn)
              | no more ↦ rw (ne→==_false (x + 1) c more) (slot_kept_full c m x i (omega arith))
            ],
            slot_other_full c m x i k (ground arith),
          )

    old_room :
        m ≢ c
        → (slot_of c (num_after c m) (next_after c x) i
            ≡ slot_of c m x (if m == c then i + 1 else i))
          × (slot_of c m x (if m == c then i + 1 else i) ≢ x)
    old_room room = rw (ne→==_false m c room) (
      elim (ℕ_discrete (x + 1) c) [
        | yes turn ↦ rw ((==_iff (x + 1) c).1 turn) (slot_kept_turn c m x i (omega arith) turn)
        | no more ↦
            rw (ne→==_false (x + 1) c more) (slot_kept_room c m x i (omega arith) (omega arith))
      ],
      slot_other c m x i h k (ground arith) (omega arith),
    )
