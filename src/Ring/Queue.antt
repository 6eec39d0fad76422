-- ===== src/Ring/Queue.antt =====
-- The ring of ring.h refines a queue that keeps the last items.
use scsiswap.Base.{
  ℕ, zero, suc, ◌+◌, ◌-◌, ◌<◌, ◌≡◌, ◌≢◌, refl, ap, ◌∙◌, sym, Option, some, List, [], ◌∷◌, ◌++◌,
  Bytes, length, if◌then◌else◌, ◌==◌, ==_iff, ne→==_false, arith,
}
use mathlib.Core.Path.{ap₂}
use native.Mathlib.Decide.{ℕ_discrete}
use scsiswap.Ring.{Ring, cspring_push, put_item, cspring_peek}
use scsiswap.Ring.Refine.{IsValid, push_counters, push_whole, peek-push_new, peek-push_old}

-- The items of the ring, `n` of them from index `i` on; all of them.
pub items_from : Ring → ℕ → ℕ → List (Option Bytes)
items_from r i zero = []
items_from r i (suc n) = cspring_peek r i ∷ items_from r (i + 1) n

unfoldable pub contents : Ring → List (Option Bytes)
contents r = items_from r 0 r.item_num

-- The queue that keeps the last `cap` items.
unfoldable pub keep_last : ℕ → List (Option Bytes) → Bytes → List (Option Bytes)
keep_last cap [] x = some x ∷ []
keep_last cap (q ∷ qs) x =
    if length (q ∷ qs) == cap then qs ++ (some x ∷ []) else (q ∷ qs) ++ (some x ∷ [])

length-items_from : (r : Ring) (i n : ℕ) → length (items_from r i n) ≡ n
unfolding items_from
length-items_from r i zero = refl
length-items_from r i (suc n) = ap suc (length-items_from r (i + 1) n)

items_from_snoc :
    (r : Ring) (i n : ℕ)
    → items_from r i (suc n) ≡ items_from r i n ++ (cspring_peek r (i + n) ∷ [])
unfolding items_from
items_from_snoc r i zero = ap (λ t. cspring_peek r t ∷ []) (omega arith)
items_from_snoc r i (suc n) =
    ap (λ t. cspring_peek r i ∷ t)
      (items_from_snoc r (i + 1) n
        ∙ ap (λ t. items_from r (i + 1) n ++ (cspring_peek r t ∷ [])) (omega arith))

items_from_same :
    (r s : Ring) (i j n : ℕ)
    → ((k : ℕ) → k < n → cspring_peek r (i + k) ≡ cspring_peek s (j + k))
    → items_from r i n ≡ items_from s j n
unfolding items_from
items_from_same r s i j zero h = refl
items_from_same r s i j (suc n) h =
    ap₂ ◌∷◌
      (ap (cspring_peek r) (omega arith) ∙ (h 0 (omega arith) ∙ ap (cspring_peek s) (omega arith)))
      (items_from_same r s (i + 1) (j + 1) n (λ k lt.
        ap (cspring_peek r) (omega arith)
        ∙ (h (suc k) (omega arith) ∙ ap (cspring_peek s) (omega arith))))

keep_last_room :
    (cap : ℕ) (q : List (Option Bytes)) (x : Bytes)
    → length q ≢ cap
    → keep_last cap q x ≡ q ++ (some x ∷ [])
unfolding keep_last
keep_last_room cap [] x h = refl
keep_last_room cap (q ∷ qs) x h = rw (ne→==_false _ cap h)

keep_last_full :
    (cap : ℕ) (q : Option Bytes) (qs : List (Option Bytes)) (x : Bytes)
    → length (q ∷ qs) ≡ cap
    → keep_last cap (q ∷ qs) x ≡ qs ++ (some x ∷ [])
unfolding keep_last
keep_last_full cap q qs x h = rw ((==_iff (length (q ∷ qs)) cap).1 h)

module _ {r : Ring} (x : Bytes) (v : IsValid r) (h : length x ≡ r.item_size) where
  abbrev after : Ring
  after = (put_item r x).1

  -- All items but the new one, for the number of them and where they stood.
  contents-after :
      (n off : ℕ)
      → after.item_num ≡ suc n
      → ((k : ℕ) → k < n → cspring_peek after (0 + k) ≡ cspring_peek r (off + k))
      → contents after ≡ items_from r off n ++ (some x ∷ [])
  unfolding contents
  contents-after n off e same =
      ap (items_from after 0) e
      ∙ (items_from_snoc after 0 n
          ∙ ap₂ (λ a b. a ++ (b ∷ [])) (items_from_same after r 0 off n same)
              (ap (cspring_peek after) (omega arith) ∙ peek-push_new x v h))

  full_case : r.item_num ≡ r.item_cap → contents after ≡ keep_last r.item_cap (contents r) x
  unfolding items_from
  full_case full =
      contents-after n 1 (counted ∙ one_more) older
      ∙ sym (
          ap (λ t. keep_last r.item_cap t x) split
          ∙ keep_last_full r.item_cap (cspring_peek r 0) (items_from r 1 n) x
              (ap suc (length-items_from r 1 n) ∙ (sym one_more ∙ full)))
    where
      n : ℕ
      n = r.item_num - 1

      one_more : r.item_num ≡ suc n
      one_more = omega (arith, v.some_cap, full)

      counted : after.item_num ≡ r.item_num
      counted = (push_counters x v).0 ∙ rw ((==_iff r.item_num r.item_cap).1 full)

      split : contents r ≡ cspring_peek r 0 ∷ items_from r 1 n
      split = unfold contents in ap (items_from r 0) one_more

      older : (k : ℕ) → k < n → cspring_peek after (0 + k) ≡ cspring_peek r (1 + k)
      older k lt =
          ap (cspring_peek after) (omega arith)
          ∙ (peek-push_old x v h k (omega (arith, counted))
              ∙ rw ((==_iff r.item_num r.item_cap).1 full) (ap (cspring_peek r) (omega arith)))

  room_case : r.item_num ≢ r.item_cap → contents after ≡ keep_last r.item_cap (contents r) x
  room_case room =
      contents-after r.item_num 0 counted older
      ∙ sym (
          unfold contents in
          keep_last_room r.item_cap (items_from r 0 r.item_num) x (rw (length-items_from) room))
    where
      counted : after.item_num ≡ suc r.item_num
      counted = (push_counters x v).0 ∙ rw (ne→==_false r.item_num r.item_cap room) (omega arith)

      older : (k : ℕ) → k < r.item_num → cspring_peek after (0 + k) ≡ cspring_peek r (0 + k)
      older k lt =
          ap (cspring_peek after) (omega arith)
          ∙ (peek-push_old x v h k (omega (arith, counted))
              ∙ rw (ne→==_false r.item_num r.item_cap room) (ap (cspring_peek r) (omega arith)))

  contents-put_item : contents after ≡ keep_last r.item_cap (contents r) x
  contents-put_item = elim (ℕ_discrete r.item_num r.item_cap) [
    | yes full ↦ full_case full
    | no room ↦ room_case room
  ]

  -- Pushing an item of the slots' size onto a valid ring does not fault, appends it, and drops the
  -- oldest if the ring was full.
  pub contents-push :
      (p : ℕ × Ring) × (cspring_push r x ≡ some p)
      × (contents p.1 ≡ keep_last r.item_cap (contents r) x)
  contents-push = (put_item r x, push_whole x v h, contents-put_item)
