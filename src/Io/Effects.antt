-- ===== src/Io/Effects.antt =====
-- What a command changes: the outside world, and the count of a device's deaths.
use scsiswap.Base.{
  ℕ, zero, suc, ◌≡◌, ◌∙◌, Bool, true, false, Option, none, some, Bytes, arith, ◌&&◌, ◌!=◌,
  if◌then◌else◌,
}
use scsiswap.Kernel.{Kernel, Command, Reply}
use scsiswap.Ring.{Ring}
use scsiswap.Ring.Refine.{IsValid}
use scsiswap.State.{World, Log, mark_dead}
use scsiswap.Io.{
  execute, finish, hd_read_sector, hd_write_sector, test_unit_round, test_unit_loop,
  hd_test_unit_ready, test_unit_end,
}

-- The log has a valid ring of 32-byte items.
pub record HasLog (l : Log) : Type 0 where
  pub ring : Ring
  pub held : l.ring ≡ some ring
  pub valid : IsValid ring
  pub sized : ring.item_size ≡ 32

-- All but the environment, `device_dead`, `changed` and the log's contents is as it was.
pub record IsCalm {E : Type 0} (w w' : World E) : Type 0 where
  pub infos : w'.core.info_list ≡ w.core.info_list
  pub head : w'.core.head ≡ w.core.head
  pub num : w'.core.info_num ≡ w.core.info_num
  pub user : w'.core.user ≡ w.core.user
  pub reserve : w'.core.sector_reserve_start ≡ w.core.sector_reserve_start
  pub head_at : w'.core.sector_head ≡ w.core.sector_head
  pub table_at : w'.core.sector_table ≡ w.core.sector_table
  pub data_at : w'.core.sector_data ≡ w.core.sector_data
  pub sim : w'.sim ≡ w.sim
  pub enable : w'.enable ≡ w.enable
  pub removable : w'.removable ≡ w.removable
  pub logs : HasLog w.log → HasLog w'.log

module _ {E : Type 0} where
  pub IsCalm-refl : (w : World E) → IsCalm w w
  IsCalm-refl w = ground arith

  pub IsCalm-trans : {u v w : World E} → IsCalm u v → IsCalm v w → IsCalm u w
  IsCalm-trans p q = record {
    infos = q.infos ∙ p.infos;
    head = q.head ∙ p.head;
    num = q.num ∙ p.num;
    user = q.user ∙ p.user;
    reserve = q.reserve ∙ p.reserve;
    head_at = q.head_at ∙ p.head_at;
    table_at = q.table_at ∙ p.table_at;
    data_at = q.data_at ∙ p.data_at;
    sim = q.sim ∙ p.sim;
    enable = q.enable ∙ p.enable;
    removable = q.removable ∙ p.removable;
    logs = λ h. q.logs (p.logs h);
  }

  -- The two cases of a test.
  pub on_elim :
      {A : Type 0} (w : World E) (b : Bool) (x y : A × World E)
      → IsCalm w x.1
      → IsCalm w y.1
      → IsCalm w (let r : A × World E = elim b [ true ↦ x | false ↦ y ] in r).1
  on_elim w true x y p q = p
  on_elim w false x y p q = q

  pub on_if :
      {A : Type 0} (w : World E) (b : Bool) (x y : A × World E)
      → IsCalm w x.1
      → IsCalm w y.1
      → IsCalm w (if b then x else y).1
  on_if w true x y p q = p
  on_if w false x y p q = q

  changed-IsCalm : (w : World E) → IsCalm w (record w { changed = true })
  changed-IsCalm w = ground arith

  pub mark_dead-IsCalm : (w : World E) → IsCalm w (mark_dead w)
  mark_dead-IsCalm w = ground arith

  finish-IsCalm : (r : Reply) (w : World E) → IsCalm w (finish r w).1
  unfolding finish
  finish-IsCalm r w = ground arith

module _ {E : Type 0} (k : Kernel E) where
  pub env-IsCalm : (w : World E) (e : E) → IsCalm w (record w { env = e })
  env-IsCalm w e = ground arith

  execute-IsCalm : (c : Command) (w : World E) → IsCalm w (execute k c w).1
  unfolding execute
  execute-IsCalm c w = env-IsCalm w _

  pub hd_read_sector-IsCalm :
      (sector num : ℕ) (buf : Option Bytes) (len timeout retries : ℕ) (w : World E)
      → IsCalm w (hd_read_sector k sector num buf len timeout retries w).1
  unfolding hd_read_sector
  hd_read_sector-IsCalm sector num none len timeout retries w = IsCalm-refl w
  hd_read_sector-IsCalm sector num (some buf) len timeout retries w = ground arith

  pub hd_write_sector-IsCalm :
      (sector num : ℕ) (buf : Option Bytes) (len timeout retries : ℕ) (w : World E)
      → IsCalm w (hd_write_sector k sector num buf len timeout retries w).1
  unfolding hd_write_sector
  hd_write_sector-IsCalm sector num none len timeout retries w = IsCalm-refl w
  hd_write_sector-IsCalm sector num (some buf) len timeout retries w = ground arith

  test_unit_round-IsCalm : (got : Bool) (w : World E) → IsCalm w (test_unit_round k got w).2
  unfolding test_unit_round
  test_unit_round-IsCalm got w = ground arith

  pub test_unit_loop-IsCalm :
      (got : Bool) (n : ℕ) (w : World E) → IsCalm w (test_unit_loop k got n w).1
  unfolding test_unit_loop
  test_unit_loop-IsCalm got zero w = test_unit_round-IsCalm got w
  test_unit_loop-IsCalm got (suc n) w =
      let (attention, r, w') = test_unit_round k got w in
      on_elim w (attention && (n != 0)) (test_unit_loop k got n w') (r, w')
        (IsCalm-trans (test_unit_round-IsCalm got w) (test_unit_loop-IsCalm got n w'))
        (test_unit_round-IsCalm got w)

  test_unit_end-IsCalm :
      (got : Bool) (r : Reply) (w : World E) → IsCalm w (test_unit_end k got r w).1
  unfolding test_unit_end
  test_unit_end-IsCalm got r w = ground arith

  pub hd_test_unit_ready-IsCalm : (w : World E) → IsCalm w (hd_test_unit_ready k w).1
  unfolding hd_test_unit_ready
  hd_test_unit_ready-IsCalm w =
      let (got, e) = k.kmalloc 8 w.env in
      let (r, w') = test_unit_loop k got 3 (record w { env = e }) in
      IsCalm-trans (env-IsCalm w e) (
        IsCalm-trans (test_unit_loop-IsCalm got 3 (record w { env = e }))
          (test_unit_end-IsCalm got r w'))
