-- ===== src/Ring/Refine.antt =====
-- The ring holds the last items pushed, oldest first.
use scsiswap.Base.{
  le→leb, ℕ, ◌+◌, ◌-◌, ◌*◌, ◌%◌, ◌≤◌, ◌<◌, ◌≡◌, ◌≢◌, refl, ap, ◌∙◌, sym, some, Bytes, length, slice,
  overwrite, if◌then◌else◌, ◌==◌, arith, slice-overwrite, take, [], ◌∷◌, slice-overwrite_before,
  slice-overwrite_after, length-overwrite,
}
use native.Mathlib.Decide.{dec_lt}
use scsiswap.Ring.Slots.{slot_of, num_after, next_after, slot_of_new, slot_of_old}
use scsiswap.Ring.{
  Ring, cspring_push, put_item, cspring_peek, cspring_update, cspring_get_data, peek_index,
}

-- What `cspring_create` sets up and `cspring_push` keeps.
pub record IsValid (r : Ring) : Type 0 where
  pub some_cap : 0 < r.item_cap
  pub num_in : r.item_num ≤ r.item_cap
  pub next_in : r.item_next < r.item_cap
  pub memory : length r.buffer ≡ r.item_cap * r.item_size

-- The slot of item `i`, counted from the oldest.
abbrev pub slot : Ring → ℕ → ℕ
slot r i = ((r.item_next + r.item_cap - r.item_num) % r.item_cap + i) % r.item_cap

abbrev item_at : Ring → ℕ → Bytes
item_at r n = slice r.buffer (n * r.item_size) r.item_size

pub cspring_peek_lem :
    {r : Ring} (i : ℕ) → IsValid r → cspring_peek r i ≡ some (item_at r (slot r i))
unfolding cspring_peek peek_index cspring_get_data
cspring_peek_lem {r} i v = ground arith

slots_apart : (a b size : ℕ) → a < b → a * size + size ≤ b * size
slots_apart a b size h = grind arith

put_item-IsValid : {r : Ring} (x : Bytes) → IsValid r → IsValid (put_item r x).1
unfolding put_item cspring_update
put_item-IsValid {r} x v =
    ground (arith, length-overwrite r.buffer (cspring_get_data r r.item_next) x)

-- The slots of a valid ring lie in its buffer.
slot_inside :
    {r : Ring} → IsValid r → cspring_get_data r r.item_next + r.item_size ≤ length r.buffer
unfolding cspring_get_data
slot_inside {r} v = rw v.memory (slots_apart r.item_next r.item_cap r.item_size v.next_in)

push_runs :
    {r : Ring} (x : Bytes)
    → IsValid r
    → r.item_size ≤ length x
    → cspring_push r x ≡ some (put_item r (take r.item_size x))
unfolding cspring_push
push_runs {r} x v enough =
    rw
      (
        le→leb (cspring_get_data r r.item_next + r.item_size) (length r.buffer) (slot_inside v),
        le→leb r.item_size (length x) enough,
      )
      refl

-- `cspring_push` of an item that has the slots' size or more does not fault on a valid ring, and
-- keeps it valid: the capacity is positive, the number of items at most the capacity, the next slot
-- inside, and the memory that of all slots.
pub push-IsValid :
    {r : Ring} (x : Bytes)
    → IsValid r
    → r.item_size ≤ length x
    → (p : ℕ × Ring) × (cspring_push r x ≡ some p) × IsValid p.1
push-IsValid {r} x v enough =
    (put_item r (take r.item_size x), push_runs x v enough, put_item-IsValid (take r.item_size x) v)

take_all : (x : Bytes) → take (length x) x ≡ x
unfolding take
take_all [] = refl
take_all (b ∷ x) = ap (λ t. b ∷ t) (take_all x)

-- An item of the slots' size is pushed whole.
pub push_whole :
    {r : Ring} (x : Bytes)
    → IsValid r
    → length x ≡ r.item_size
    → cspring_push r x ≡ some (put_item r x)
push_whole {r} x v h =
    push_runs x v (omega (arith, h))
    ∙ ap (λ t. some (put_item r t)) (ap (λ n. take n x) (sym h) ∙ take_all x)

-- The counters after a push.
pub push_counters :
    {r : Ring} (x : Bytes)
    → IsValid r
    → let r' = (put_item r x).1 in
      (r'.item_num ≡ (if r.item_num == r.item_cap then r.item_num else r.item_num + 1))
      × (r'.item_next ≡ (if r.item_next + 1 == r.item_cap then 0 else r.item_next + 1))
      × (r'.item_cap ≡ r.item_cap)
      × (r'.item_size ≡ r.item_size)
      × (r'.buffer ≡ overwrite r.buffer (r.item_next * r.item_size) x)
unfolding put_item cspring_update cspring_get_data
push_counters {r} x v = ground arith

slot-lt : {r : Ring} (i : ℕ) → IsValid r → slot r i < r.item_cap
slot-lt i v = omega arith

-- Slots are disjoint.
slice-overwrite_slot :
    (buf : Bytes) (n j size : ℕ) (x : Bytes)
    → length x ≡ size
    → j ≢ n
    → slice (overwrite buf (n * size) x) (j * size) size ≡ slice buf (j * size) size
slice-overwrite_slot buf n j size x h ne = elim (dec_lt j n) [
  | yes less ↦ slice-overwrite_before buf (n * size) (j * size) size x (slots_apart j n size less)
  | no more ↦
      slice-overwrite_after buf (n * size) (j * size) size x
        (rw h (slots_apart n j size (omega arith)))
]

module _ {r : Ring} (x : Bytes) (v : IsValid r) (h : length x ≡ r.item_size) where
  abbrev pushed : Ring
  pushed = (put_item r x).1

  peek-pushed : (i : ℕ) → cspring_peek pushed i ≡ some (item_at pushed (slot pushed i))
  peek-pushed i = cspring_peek_lem i (put_item-IsValid x v)

  item_at-pushed :
      (n : ℕ)
      → item_at pushed n
        ≡ slice (overwrite r.buffer (r.item_next * r.item_size) x) (n * r.item_size) r.item_size
  item_at-pushed n = let c = push_counters x v in rw (c.4, c.3) refl

  slot-pushed :
      (i : ℕ)
      → slot pushed i
        ≡ slot_of r.item_cap (num_after r.item_cap r.item_num) (next_after r.item_cap r.item_next) i
  slot-pushed i = let c = push_counters x v in rw (c.0, c.1, c.2) refl

  newest : slot pushed (pushed.item_num - 1) ≡ r.item_next
  newest =
      slot-pushed (pushed.item_num - 1)
      ∙ (ap
            (λ t.
              slot_of r.item_cap (num_after r.item_cap r.item_num)
                (next_after r.item_cap r.item_next) (t - 1))
            (push_counters x v).0
          ∙ slot_of_new r.item_cap r.item_num r.item_next v.num_in v.next_in)

  written :
      slice
        (overwrite r.buffer (r.item_next * r.item_size) x)
        (r.item_next * r.item_size)
        r.item_size
      ≡ x
  written =
      ap (slice (overwrite r.buffer (r.item_next * r.item_size) x) (r.item_next * r.item_size))
        (sym h)
      ∙ slice-overwrite r.buffer (r.item_next * r.item_size) x
          (omega (arith, v.memory, slots_apart r.item_next r.item_cap r.item_size v.next_in))

  -- The item pushed is the last of the ring.
  pub peek-push_new : cspring_peek pushed (pushed.item_num - 1) ≡ some x
  peek-push_new =
      peek-pushed (pushed.item_num - 1)
      ∙ ap some (ap (item_at pushed) newest ∙ (item_at-pushed r.item_next ∙ written))

  -- The others move up by one where the ring was full, and stay where it was not.
  pub peek-push_old :
      (i : ℕ)
      → i + 1 < pushed.item_num
      → cspring_peek pushed i ≡ cspring_peek r (if r.item_num == r.item_cap then i + 1 else i)
  peek-push_old i lt =
      peek-pushed i
      ∙ (ap some (
            ap (item_at pushed) (slot-pushed i ∙ old.0)
            ∙ (item_at-pushed (slot r j)
                ∙ slice-overwrite_slot r.buffer r.item_next (slot r j) r.item_size x h old.1))
          ∙ sym (cspring_peek_lem j v))
    where
      j : ℕ
      j = if r.item_num == r.item_cap then i + 1 else i

      old :
          (slot_of r.item_cap
              (num_after r.item_cap r.item_num)
              (next_after r.item_cap r.item_next)
              i
            ≡ slot r j)
          × (slot r j ≢ r.item_next)
      old =
          slot_of_old r.item_cap r.item_num r.item_next i v.num_in v.next_in
            (rw (← (push_counters x v).0) lt)
