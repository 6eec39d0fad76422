-- ===== src/Core/Ready.antt =====
-- core.c: a world whose log has its ring, and whose swaps have their 64 KB buffers.
use scsiswap.Core.Steady.{IsSteady, IsSteady-of_calm}
use scsiswap.Layout.{sector_size, swap_block_size}
use scsiswap.Io.Effects.{HasLog, IsCalm}
use scsiswap.Core.Create.{Loc, reload, store}
use scsiswap.Format.{table_bytes}
use scsiswap.Core.Flush.Tables.{flush_swap_info_table-Grown, on_cases}
use mathlib.Core.Path.{subst}
use scsiswap.Core.Flush.{flush_entries, flush_swap_info_table, write_copies}
use scsiswap.State.{Info, World}
use scsiswap.Base.{
  [], Bytes, List, Option, get_elem?, if◌then◌else◌, length, none, overwrite, refl, replicate, set,
  some, suc, sym, zero, ℕ, ◌*◌, ◌++◌, ◌+◌, ◌==◌, ◌∙◌, ◌∷◌, ◌≡◌,
}
use scsiswap.Kernel.{Kernel}

-- The swap has a buffer of 64 KB.
pub record HasBuffer (info : Info) : Type 0 where
  pub buffer : Bytes
  pub held : info.buf ≡ some buffer
  pub full : length buffer ≡ swap_block_size

abbrev pub AllFull : List Info → Type 0
AllFull [] = Unit
AllFull (info ∷ infos) = HasBuffer info × AllFull infos

-- What init sets up and reads and writes rely on: a log that can be pushed to, and buffers.
pub record IsReady {E : Type 0} (w : World E) : Type 0 where
  pub log : HasLog w.log
  pub buffers : AllFull w.core.info_list

pub same_buf-HasBuffer : {a b : Info} → b.buf ≡ a.buf → HasBuffer a → HasBuffer b
same_buf-HasBuffer same h = record { buffer = h.buffer; held = same ∙ h.held; full = h.full }

pub AllFull-append :
    (infos : List Info) (info : Info)
    → AllFull infos
    → HasBuffer info
    → AllFull (infos ++ info ∷ [])
AllFull-append [] info h b = (b, tt)
AllFull-append (x ∷ infos) info h b = (h.0, AllFull-append infos info h.1 b)

pub AllFull-set :
    (infos : List Info) (n : ℕ) (info : Info)
    → AllFull infos
    → HasBuffer info
    → AllFull (set infos n info)
AllFull-set [] n info h b = tt
AllFull-set (x ∷ infos) zero info h b = (b, h.1)
AllFull-set (x ∷ infos) (suc n) info h b = (h.0, AllFull-set infos n info h.1 b)

pub AllFull-get :
    (infos : List Info) (n : ℕ) (info : Info)
    → AllFull infos
    → get_elem? infos n ≡ some info
    → HasBuffer info
AllFull-get [] n info h found = cc
AllFull-get (x ∷ infos) zero info h found = let same : x ≡ info = cc in subst HasBuffer same h.0
AllFull-get (x ∷ infos) (suc n) info h found = AllFull-get infos n info h.1 found

module _ {E : Type 0} where
  pub IsReady-then : {w v : World E} → IsSteady w v → IsReady w → IsReady v
  IsReady-then s r = record { log = s.logs r.log; buffers = rw s.infos r.buffers }

  pub IsReady-after : {w v : World E} → IsCalm w v → IsReady w → IsReady v
  IsReady-after c r = IsReady-then (IsSteady-of_calm c) r

  -- A change of the core that leaves the list.
  pub IsReady-on_core :
      {w v : World E} → v.core.info_list ≡ w.core.info_list → v.log ≡ w.log → IsReady w → IsReady v
  IsReady-on_core same same_log r = record {
    log = subst HasLog (sym same_log) r.log;
    buffers = rw same r.buffers;
  }

  pub store-IsReady :
      (loc : Loc) (info : Info) {w : World E}
      → HasBuffer info
      → IsReady w
      → IsReady (store loc info w)
  unfolding store
  store-IsReady none info b r = r
  store-IsReady (some n) info {w} b r = record {
    log = r.log;
    buffers = AllFull-set w.core.info_list n info r.buffers b;
  }

  pub reload-HasBuffer :
      (loc : Loc) (info : Info) (w : World E)
      → HasBuffer info
      → IsReady w
      → HasBuffer (reload loc info w)
  unfolding reload
  reload-HasBuffer none info w b r = b
  reload-HasBuffer (some n) info w b r = by_entry (get_elem? w.core.info_list n) refl
    where
      by_entry :
          (o : Option Info)
          → get_elem? w.core.info_list n ≡ o
          → HasBuffer (let r : Info = elim o [ none ↦ info | some info' ↦ info' ] in r)
      by_entry none e = b
      by_entry (some x) e = AllFull-get w.core.info_list n x r.buffers e

module _ {E : Type 0} (k : Kernel E) where
  flush_entries-AllFull :
      (infos : List Info) (at back i : ℕ) (buffer : Bytes) (w : World E)
      → AllFull infos
      → AllFull (flush_entries k infos at back i buffer w).0
  unfolding flush_entries
  flush_entries-AllFull [] at back i buffer w h = tt
  flush_entries-AllFull (info ∷ infos) at back i buffer w h =
      let fresh = if i == 0 then replicate sector_size 0 else buffer in
      let t' = record info.table { save_sec = at } in
      let filled = overwrite fresh (i * 64) (table_bytes t') in
      let (at', back', w') = write_copies k at back filled w in
      let kept = same_buf-HasBuffer {a = info} {b = record info { table = t' }} refl h.0 in
      on_cases (λ (r : List Info × World E). AllFull r.0) (i == 7) _ _
        (kept, flush_entries-AllFull infos at' back' 0 filled w' h.1)
        (kept, flush_entries-AllFull infos at back (i + 1) filled w h.1)

  table-AllFull :
      (w : World E)
      → AllFull w.core.info_list
      → AllFull (flush_swap_info_table k w).1.core.info_list
  unfolding flush_swap_info_table
  table-AllFull w h = flush_entries-AllFull w.core.info_list _ _ _ _ w h

  pub flush_swap_info_table-IsReady :
      (w : World E) → IsReady w → IsReady (flush_swap_info_table k w).1
  flush_swap_info_table-IsReady w r = record {
    log = (flush_swap_info_table-Grown k w).logs r.log;
    buffers = table-AllFull w r.buffers;
  }
