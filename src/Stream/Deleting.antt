-- ===== src/Stream/Deleting.antt =====
-- dbfs_truncateblocks as it is: the test of its loop is `size <= 0` on an unsigned size.
use mangoo.Base.{ℕ, zero, suc, ◌+◌, ◌-◌, ◌^◌, ◌<◌, ◌≡◌, refl, ◌⊎◌, inl, inr, arith}
use mangoo.Types.{Key, ok, err, not_found, Code, success, db, block}
use mangoo.System.{System, World, returns, running}
use mangoo.System.Laws.{IsReliable}
use mangoo.Stream.{block_start, size_in_block}
use mangoo.Stream.Truncate.{truncate_loop, dbfs_truncateblocks, sub_size}

module _ (os : System) where
  -- With something to remove, the loop is never entered: no block goes away.
  pub dbfs_truncateblocks-lt :
      (fuel ino offset end : ℕ) (w : World os.State)
      → offset < end
      → end < 2 ^ 64
      → dbfs_truncateblocks os (suc fuel) ino offset end w ≡ returns (success, w)
  unfolding dbfs_truncateblocks truncate_loop sub_size
  dbfs_truncateblocks-lt fuel ino offset end w h m = ground arith

  module _ (reliable : IsReliable os.berkeley) where
    del_answers :
        (s : os.State) (k : Key) → ((os.del s k).0 ≡ ok tt) ⊎ ((os.del s k).0 ≡ err not_found)
    del_answers s k = elim (reliable.get_answers s k) [
      | inl (v, e) ↦ inl (reliable.del_present s k v e)
      | inr e ↦ inr (reliable.del_absent s k e)
    ]

    truncate_loop-running :
        (fuel ino offset dbk : ℕ) (error : Code) (w : World os.State)
        → truncate_loop os fuel ino offset dbk 0 error w ≡ running
    unfolding truncate_loop
    truncate_loop-running zero ino offset dbk error w = refl
    truncate_loop-running (suc fuel) ino offset dbk error w =
        let part = size_in_block (offset - dbk) 0 in
        let w' : World os.State = record w { base = (os.del w.base (block ino dbk)).1 } in
        let e : 0 - part ≡ 0 = omega arith in
        elim (del_answers w.base (block ino dbk)) [
          | inl d ↦
              rw (d, e) (truncate_loop-running fuel ino (offset + part) (offset + part) success w')
          | inr d ↦
              rw (d, e)
                (truncate_loop-running fuel ino (offset + part) (offset + part) (db not_found) w')
        ]

    -- With nothing to remove, the loop goes round for ever: whatever the fuel, it is used up.
    pub dbfs_truncateblocks-empty :
        (fuel ino offset : ℕ) (w : World os.State)
        → dbfs_truncateblocks os fuel ino offset offset w ≡ running
    unfolding dbfs_truncateblocks
    dbfs_truncateblocks-empty fuel ino offset w =
        let e : sub_size offset offset ≡ 0 = (unfold sub_size in omega arith) in
        rw e (truncate_loop-running fuel ino offset (block_start offset) success w)
