-- ===== src/State.antt =====
-- The state of one disk's swap handler (drivers/scsi/swap/swap.h, core.h, log.h, sim.c) together
-- with the outside world, and the monad of the functions that work on it.
use scsiswap.Base.{ℕ, ◌+◌, Bool, true, false, Option, none, some, List, Bytes, u32}
use scsiswap.Format.{Head, Table, LogHead}
use scsiswap.Ring.{Ring}

-- `swap_info_t`; `data` is none for a null pointer. The list links are the list that holds it.
pub record Info : Type 0 where
  pub table : Table
  pub buf : Option Bytes

-- `struct scsi_swap_core`. The locks have no part in a sequential run; `sdev` is never read.
pub record Core : Type 0 where
  pub device_dead : ℕ
  pub info_num : ℕ
  pub user : ℕ
  pub head : Head
  pub info_list : List Info
  pub sector_reserve_start : ℕ
  pub sector_head : ℕ
  pub sector_table : ℕ
  pub sector_data : ℕ

-- `struct scsi_swap_log`; `ring` is none for a null pointer.
pub record Log : Type 0 where
  pub head : LogHead
  pub ring : Option Ring
  pub sector_head : ℕ
  pub sector_data : ℕ

-- `struct sim_node`
pub record SimNode : Type 0 where
  pub start : ℕ
  pub num : ℕ

-- What the driver reads and writes of its `scsi_device`, the handler's parts, and the world.
pub record World (E : Type 0) : Type 0 where
  pub removable : Bool
  pub changed : Bool
  pub enable : Bool
  pub core : Core
  pub log : Log
  pub sim : List SimNode
  pub env : E

-- The results that the driver's functions return: 0, -1, -EIO, -ENODEV and -DATA_MAY_DIRTY.
pub data Status : Type 0 where
  ok fail eio enodev may_dirty : Status

abbrev pub is_ok : Status → Bool
is_ok ok = true
is_ok _ = false

-- `atomic_inc`, `atomic_dec`
abbrev pub atomic_inc : ℕ → ℕ
atomic_inc n = u32 (n + 1)

abbrev pub atomic_dec : ℕ → ℕ
atomic_dec n = u32 (n + 4294967295)

-- A function that cannot fault, and one that can: none is a kernel oops.
abbrev pub S : Type 0 → Type 0 → Type 0
S E A = World E → A × World E

abbrev pub M : Type 0 → Type 0 → Type 0
M E A = World E → Option (A × World E)

module _ {E : Type 0} where
  abbrev pub pure : {A : Type 0} → A → M E A
  pure a w = some (a, w)

  abbrev pub oops : {A : Type 0} → M E A
  oops w = none

  abbrev pub lift : {A : Type 0} → S E A → M E A
  lift f w = some (f w)

  abbrev pub gets : {A : Type 0} → (World E → A) → M E A
  gets f w = some (f w, w)

  abbrev pub modify : (World E → World E) → M E (Unit {0})
  modify f w = some (tt, f w)

  -- A pointer is followed.
  abbrev pub deref : {A : Type 0} → Option A → M E A
  deref none w = none
  deref (some a) w = some (a, w)

infixl 5 ◌>>=◌ ◌>>◌
abbrev pub ◌>>=◌ : {E A B : Type 0} → M E A → (A → M E B) → M E B
◌>>=◌ m f w = elim (m w) [ none ↦ none | some (a, w') ↦ f a w' ]

abbrev pub ◌>>◌ : {E B : Type 0} → M E (Unit {0}) → M E B → M E B
m >> k = m >>= λ _. k

module _ {E : Type 0} where
  abbrev pub on_core : (Core → Core) → World E → World E
  on_core f w = record w { core = f w.core }

  abbrev pub mark_dead : World E → World E
  mark_dead w = on_core (λ c. record c { device_dead = atomic_inc c.device_dead }) w
