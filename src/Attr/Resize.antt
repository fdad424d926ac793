-- ===== src/Attr/Resize.antt =====
-- dbfs_setsize: the recorded size changes, the data does not.
use mangoo.Base.{ℕ, suc, ◌^◌, ◌<◌, ◌≡◌, arith}
use mangoo.Types.{ok, success, block, dentry, holds, Handle, Text}
use mangoo.System.{System, World, returns, overwrite}
use mangoo.System.Laws.{IsReliable, IsStore}
use mangoo.Stream.Content.{bytes_from}
use mangoo.Stream.ReadBack.{bytes_from-same}
use mangoo.Stream.Deleting.{dbfs_truncateblocks-lt}
use mangoo.Attr.{dbfs_write_attr}
use mangoo.Attr.Interface.{dbfs_setsize, save}

-- The handle with another size.
abbrev pub resized : Handle → ℕ → Handle
resized dh size = record dh { attr_ddd = record dh.attr_ddd { ddd_size = size } }

module _ (os : System) (store : IsStore os.berkeley) (reliable : IsReliable os.berkeley) where
  dbfs_setsize-run :
      (fuel : ℕ) (dh : Handle) (path : Text) (size : ℕ) (w : World os.State)
      → dh.attr_ddk ≡ holds (dentry path)
      → dh.attr_ddd.ddd_size < 2 ^ 64
      → dbfs_setsize os (suc fuel) dh size w
        ≡ returns (
          (success, resized dh size),
          record w { base = (os.put w.base (dentry path) (resized dh size).attr_ddd overwrite).1 },
        )
  unfolding dbfs_setsize save dbfs_write_attr
  dbfs_setsize-run fuel dh path size w k a = ground (
    arith,
    k,
    dbfs_truncateblocks-lt os fuel dh.attr_ddd.ddd_ino size dh.attr_ddd.ddd_size w,
    reliable.put_overwrite w.base (dentry path) (resized dh size).attr_ddd,
  )

  -- Setting a size, smaller or larger, through a handle whose size is below 2^64, where the
  -- database does not fail, returns 0 after one round of fuel. The record under the handle's path
  -- is the handle's copy with the new size, and the bytes of every file at every offset are what
  -- they were, those behind the new end too.
  pub dbfs_setsize-keeps_bytes :
      (fuel : ℕ) (dh : Handle) (path : Text) (size : ℕ) (w : World os.State)
      → dh.attr_ddk ≡ holds (dentry path)
      → dh.attr_ddd.ddd_size < 2 ^ 64
      → (s : os.State) × (dbfs_setsize os (suc fuel) dh size w
          ≡ returns ((success, resized dh size), record w { base = s }))
        × (os.get s (dentry path) ≡ ok (resized dh size).attr_ddd)
        × ((ino offset n : ℕ) → bytes_from os s ino offset n ≡ bytes_from os w.base ino offset n)
  dbfs_setsize-keeps_bytes fuel dh path size w k a =
      let ddd = (resized dh size).attr_ddd in
      (
        (os.put w.base (dentry path) ddd overwrite).1,
        dbfs_setsize-run fuel dh path size w k a,
        store.get-put_self w.base (dentry path) ddd overwrite
            (reliable.put_overwrite w.base (dentry path) ddd),
        λ ino offset n.
            bytes_from-same os
              (λ o. store.get-put_ne w.base (dentry path) (block ino o) ddd overwrite (λ q. cc q))
              offset n,
      )
