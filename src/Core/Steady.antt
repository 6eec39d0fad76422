-- ===== src/Core/Steady.antt =====
-- What an operation of the core leaves alone when it may change the head: the list of swaps, the
-- counters, the layout.
use scsiswap.Base.{◌≡◌, ◌∙◌}
use scsiswap.State.{World}
use scsiswap.Io.Effects.{HasLog, IsCalm}

pub record IsSteady {E : Type 0} (w w' : World E) : Type 0 where
  pub infos : w'.core.info_list ≡ w.core.info_list
  pub num : w'.core.info_num ≡ w.core.info_num
  pub user : w'.core.user ≡ w.core.user
  pub reserve : w'.core.sector_reserve_start ≡ w.core.sector_reserve_start
  pub data_at : w'.core.sector_data ≡ w.core.sector_data
  pub logs : HasLog w.log → HasLog w'.log

module _ {E : Type 0} where
  pub IsSteady-of_calm : {w w' : World E} → IsCalm w w' → IsSteady w w'
  IsSteady-of_calm c = record {
    infos = c.infos;
    num = c.num;
    user = c.user;
    reserve = c.reserve;
    data_at = c.data_at;
    logs = c.logs;
  }

  pub IsSteady-trans : {u v w : World E} → IsSteady u v → IsSteady v w → IsSteady u w
  IsSteady-trans p q = record {
    infos = q.infos ∙ p.infos;
    num = q.num ∙ p.num;
    user = q.user ∙ p.user;
    reserve = q.reserve ∙ p.reserve;
    data_at = q.data_at ∙ p.data_at;
    logs = λ h. q.logs (p.logs h);
  }
