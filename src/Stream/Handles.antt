-- ===== src/Stream/Handles.antt =====
-- Two handles on one file: each writes back the size that it knows.
use mangoo.Base.{ℕ, ◌+◌, ◌≤◌, ◌<◌, ◌≡◌, List, arith, length}
use mangoo.Types.{Text, dentry, ok, success, Handle, DentryData, holds}
use mangoo.System.{System, World, returns, overwrite}
use mangoo.System.Laws.{IsReliable, IsStore, HasMemory}
use mangoo.Stream.Interface.{dbfs_write, grown}
use mangoo.Stream.Blocks.{max_transfer}
use mangoo.Stream.Content.{HasBlocks}
use mangoo.Stream.RoundTrip.{dbfs_write_lem, saved, grown_size}

module _ (os : System) (store : IsStore os.berkeley) (reliable : IsReliable os.berkeley)
    (memory : HasMemory os.platform) where
  get-saved_self :
      (s : os.State) (path : Text) (ddd : DentryData)
      → os.get (saved os store reliable memory s path ddd) (dentry path) ≡ ok ddd
  get-saved_self s path ddd =
      store.get-put_self s (dentry path) ddd overwrite (reliable.put_overwrite s (dentry path) ddd)

  grown_le :
      (dh : Handle) (end limit : ℕ)
      → dh.attr_ddd.ddd_size < limit
      → end < limit
      → (grown dh end).attr_ddd.ddd_size < limit
  unfolding grown
  grown_le dh end limit a b = ground arith

  -- Two handles on one path write, one after the other. The first write ends behind both the size
  -- that the second handle knows and the end of the second write. Both writes return 0 with every
  -- byte counted, and after the first the record's size covers it; after the second it does not:
  -- the end of the first write lies behind the end of the file.
  pub dbfs_write-stale_handle :
      (dh1 dh2 : Handle) (path : Text) (buf1 buf2 : List ℕ) (offset1 offset2 : ℕ)
      (w : World os.State)
      → dh1.attr_ddk ≡ holds (dentry path)
      → dh2.attr_ddk ≡ holds (dentry path)
      → HasBlocks os w.base
      → offset1 + length buf1 ≤ max_transfer
      → dh2.attr_ddd.ddd_size < offset1 + length buf1
      → offset2 + length buf2 < offset1 + length buf1
      → (dh1' dh2' : Handle) × (u v : World os.State) × (d e : DentryData) × (dbfs_write os dh1 buf1
            (length buf1)
            offset1
            w
          ≡ returns ((success, length buf1, dh1'), u))
        × (os.get u.base (dentry path) ≡ ok d)
        × (offset1 + length buf1 ≤ d.ddd_size)
        × (dbfs_write os dh2 buf2 (length buf2) offset2 u
            ≡ returns ((success, length buf2, dh2'), v))
        × (os.get v.base (dentry path) ≡ ok e)
        × (e.ddd_size < offset1 + length buf1)
  dbfs_write-stale_handle dh1 dh2 path buf1 buf2 offset1 offset2 w k1 k2 h m stale short =
      let g1 = grown dh1 (offset1 + length buf1) in
      let g2 = grown dh2 (offset2 + length buf2) in
      let (s, run, _, whole) =
        dbfs_write_lem os store reliable memory dh1 path buf1 offset1 w k1 h m in
      let u : World os.State = record w {
        base = saved os store reliable memory s path g1.attr_ddd;
      } in
      let (t, run', _, _) =
        dbfs_write_lem os store reliable memory dh2 path buf2 offset2 u k2 whole (omega arith) in
      (
        g1,
        g2,
        u,
        record w { base = saved os store reliable memory t path g2.attr_ddd },
        g1.attr_ddd,
        g2.attr_ddd,
        run,
        get-saved_self s path g1.attr_ddd,
        (grown_size os store reliable memory dh1 (offset1 + length buf1)).0,
        run',
        get-saved_self t path g2.attr_ddd,
        grown_le dh2 (offset2 + length buf2) (offset1 + length buf1) stale short,
      )
