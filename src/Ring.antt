-- ===== src/Ring.antt =====
-- drivers/scsi/swap/ring.h: the ring buffer of the log, as bytes in one buffer.
pub mod Slots
pub mod Refine
pub mod Queue
use scsiswap.Base.{
  ℕ, suc, ◌+◌, ◌-◌, ◌*◌, ◌%◌, Bool, Option, none, some, Bytes, ◌&&◌, length, take, ltb, leb, ◌==◌,
  if◌then◌else◌, slice, overwrite, replicate,
}

-- `struct cspring`. The buffer's bytes stand for `void *buffer`; its size is kept by `Ring.buffer`.
pub record Ring : Type 0 where
  pub item_cap : ℕ
  pub item_size : ℕ
  pub item_num : ℕ
  pub item_next : ℕ
  pub buffer : Bytes

unfoldable pub cspring_size : Ring → ℕ
cspring_size r = r.item_cap * r.item_size

-- `cspring_get_data(r, index)`, an offset into the buffer
unfoldable pub cspring_get_data : Ring → ℕ → ℕ
cspring_get_data r index = index * r.item_size

-- The three tests in their order; the last sees the counter that the first has cut.
unfoldable pub cspring_update : Ring → Ring
cspring_update r =
    let num = if ltb r.item_cap r.item_num then r.item_cap else r.item_num in
    let next = if leb r.item_cap r.item_next then 0 else r.item_next in
    record r { item_num = num; item_next = if num == 0 then 0 else next }

-- `cspring_create`, with the answers of its two calls of `cspring_malloc`. The memory that the
-- second one hands out is not cleared: its contents are a parameter.
unfoldable pub cspring_create : ℕ → ℕ → Bool → Bool → Bytes → Option Ring
cspring_create item_size item_cap got_ring got_buffer garbage =
    if got_ring
    then (if got_buffer
        then some (record {
          item_cap = item_cap;
          item_size = item_size;
          item_num = 0;
          item_next = 0;
          buffer = garbage;
        })
        else none)
    else none

-- An item's bytes copied to the next slot, and the counters behind it: the offset, and the ring.
unfoldable pub put_item : Ring → Bytes → ℕ × Ring
unfolding cspring_get_data cspring_update
put_item r item =
    let ret = cspring_get_data r r.item_next in
    let r' = record r {
      buffer = overwrite r.buffer ret item;
      item_num = r.item_num + 1;
      item_next = r.item_next + 1;
    } in
    (ret, cspring_update r')

-- `cspring_push`: none where `memcpy` runs past the end of the buffer or of the data.
unfoldable pub cspring_push : Ring → Bytes → Option (ℕ × Ring)
unfolding cspring_get_data
cspring_push r item =
    if leb (cspring_get_data r r.item_next + r.item_size) (length r.buffer)
      && leb r.item_size (length item)
    then some (put_item r (take r.item_size item))
    else none

-- `cspring_peek`: the index of the slot, none where C's signed remainder is negative and the
-- pointer stands before the buffer.
unfoldable pub peek_index : Ring → ℕ → Option ℕ
peek_index r index =
    if leb r.item_num (r.item_next + r.item_cap)
    then some (((r.item_next + r.item_cap - r.item_num) % r.item_cap + index) % r.item_cap)
    else (let back = (r.item_num - r.item_next - r.item_cap) % r.item_cap in
        if leb back index then some ((index - back) % r.item_cap) else none)

-- The item's bytes.
unfoldable pub cspring_peek : Ring → ℕ → Option Bytes
unfolding peek_index cspring_get_data
cspring_peek r index = elim (peek_index r index) [
  | none ↦ none
  | some i ↦ some (slice r.buffer (cspring_get_data r i) r.item_size)
]
