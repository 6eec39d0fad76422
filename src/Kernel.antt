-- ===== src/Kernel.antt =====
-- What the driver calls and does not implement: the SCSI mid layer, `kmalloc`, the clock, the
-- search of a bitmap, with what the kernel documents of that search. They
-- are the operations of a record over a state `E` of the outside world; the modules take the
-- record as a parameter.
use scsiswap.Base.{ℕ, Bool, true, false, List, Bytes, length, get_or, ◌<◌, ◌≤◌, ◌≡◌}

-- The opcodes of the SCSI standard that the driver names.
abbrev pub test_unit_ready : ℕ
test_unit_ready = 0x00

abbrev pub reassign_blocks : ℕ
reassign_blocks = 0x07

abbrev pub read_6 : ℕ
read_6 = 0x08

abbrev pub write_6 : ℕ
write_6 = 0x0a

abbrev pub read_10 : ℕ
read_10 = 0x28

abbrev pub write_10 : ℕ
write_10 = 0x2a

abbrev pub synchronize_cache : ℕ
synchronize_cache = 0x35

abbrev pub read_16 : ℕ
read_16 = 0x88

abbrev pub write_16 : ℕ
write_16 = 0x8a

abbrev pub read_12 : ℕ
read_12 = 0xa8

abbrev pub write_12 : ℕ
write_12 = 0xaa

-- Sense keys, and the parts of a result word (driver byte, host byte, status byte).
abbrev pub not_ready : ℕ
not_ready = 0x02

abbrev pub unit_attention : ℕ
unit_attention = 0x06

abbrev pub driver_sense : ℕ
driver_sense = 0x08

abbrev pub did_no_connect : ℕ
did_no_connect = 0x01

abbrev pub did_bad_target : ℕ
did_bad_target = 0x04

abbrev pub sam_stat_check_condition : ℕ
sam_stat_check_condition = 0x02

-- `enum dma_data_direction`
pub data Direction : Type 0 where
  from_device to_device no_data : Direction

-- The arguments of `scsi_execute`; `timeout` in seconds.
pub record Command : Type 0 where
  pub cdb : Bytes
  pub direction : Direction
  pub buf : Bytes
  pub len : ℕ
  pub timeout : ℕ
  pub retries : ℕ

-- What `scsi_execute` hands back: the result word, the sense data as `scsi_normalize_sense` reads
-- it (valid or not), and the buffer's contents after the call.
pub record Reply : Type 0 where
  pub result : ℕ
  pub sense_valid : Bool
  pub sense_key : ℕ
  pub asc : ℕ
  pub ascq : ℕ
  pub buf : Bytes

-- What the kernel documents of a search for the first clear bit that returns `n`: the bits below it
-- are set, and it is a clear bit, or the size where there is none.
pub record IsSearched (bits : List Bool) (n : ℕ) : Type 0 where
  pub inside : n ≤ length bits
  pub below : (j : ℕ) → j < n → get_or bits j false ≡ true
  pub clear : n < length bits → get_or bits n false ≡ false

pub record Kernel (E : Type 0) : Type 0 where
  pub scsi_execute : Command → E → Reply × E
  -- false where the allocation fails
  pub kmalloc : ℕ → E → Bool × E
  -- what the memory that `kmalloc` hands out holds
  pub fresh_memory : ℕ → E → Bytes
  -- `now.tv_sec`
  pub getnstimeofday : E → ℕ × E
  pub scsi_device_online : E → Bool
  -- `snprintf` of a line: the numbers in decimal, spaces between them, a newline
  pub format_line : List ℕ → Bytes
  -- `sscanf` of a text by a format: the numbers that it stores, as many as it returns
  pub sscanf : Bytes → Bytes → List ℕ
  -- what other tasks do to the count of users while this one sleeps
  pub msleep : ℕ → E → ℕ × E
  -- the place of the first clear bit of a map, or its size
  pub find_first_zero_bit : List Bool → ℕ
  pub searches : (bits : List Bool) → IsSearched bits (find_first_zero_bit bits)
