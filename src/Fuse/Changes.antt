-- ===== src/Fuse/Changes.antt =====
-- Changes that are read back over the FUSE file system: mf_truncate and mf_utime, then mf_getattr.
use mangoo.Base.{ℕ, suc, ◌^◌, ◌<◌, ◌≡◌, refl, ◌∙◌, ◌≢◌, some}
use mangoo.Types.{Text, Key, dentry, ok, success, DentryData}
use mangoo.System.{System, World, returns, overwrite}
use mangoo.System.Laws.{IsStore, IsReliable, HasMemory}
use mangoo.Handle.Life.{leaked}
use mangoo.Attr.{dbfs_write_attr}
use mangoo.Attr.Interface.{save, dbfs_setmtime, dbfs_setatime}
use mangoo.Attr.Resize.{dbfs_setsize-keeps_bytes}
use mangoo.Stream.Content.{bytes_from}
use mangoo.Api.{as_attr, dbfs_attr_ops}
use mangoo.Api.Attr.{set_attr, attr_call, mattr_setsize, mattr_setmtime, mattr_setatime}
use mangoo.Api.Store.{dbfs_store}
use mangoo.Fuse.{minus, mf_truncate, mf_utime, mf_getattr, with_open}
use mangoo.Fuse.Attributes.{
  attr_handle, mangoo_open_attr, mangoo_close_attr, mf_getattr_lem, by_type, stat_of,
}

module _ (os : System) (store : IsStore os.berkeley) (reliable : IsReliable os.berkeley)
    (memory : HasMemory os.platform) where
  -- mf_truncate of a path with a record, to a smaller or a larger size, where the recorded size is
  -- below 2^64 and the machine does not fail, answers 0 after one round of fuel with the heap as
  -- before. mf_getattr of the path then answers as before but for the new size, and the bytes of
  -- every file at every offset are what they were.
  pub mf_truncate-mf_getattr :
      (fuel : ℕ) (path : Text) (size : ℕ) (ddd : DentryData) (w : World os.State)
      → os.get w.base (dentry path) ≡ ok ddd
      → ddd.ddd_size < 2 ^ 64
      → (s : os.State) × (mf_truncate os (some (dbfs_store os)) (suc fuel) path size w
          ≡ returns (minus success, record w { base = s }))
        × (mf_getattr os (some (dbfs_store os)) path (record w { base = s })
            ≡ returns (
              by_type ddd.ddd_type (record (stat_of ddd) { st_size = size }),
              record w { base = s },
            ))
        × ((ino offset n : ℕ) → bytes_from os s ino offset n ≡ bytes_from os w.base ino offset n)
  unfolding mf_truncate with_open mattr_setsize attr_call as_attr dbfs_attr_ops
  mf_truncate-mf_getattr fuel path size ddd w g bound =
      let dh = attr_handle path ddd in
      let changed = record ddd { ddd_size = size } in
      let (s, run, stored, kept) =
        dbfs_setsize-keeps_bytes os store reliable fuel dh path size (leaked w) refl bound in
      (
        s,
        rw (mangoo_open_attr os memory path ddd w g)
            (rw run (rw (mangoo_close_attr os memory path changed (record w { base = s })))),
        mf_getattr_lem os memory path changed (record w { base = s }) stored,
        kept,
      )

  -- mf_utime of a path with a record, on a machine that does not fail, answers 0 with the heap as
  -- before. mf_getattr of the path then answers as before but for the two times, and for the time of
  -- the last change, which follows that of the modification. No other record changes.
  pub mf_utime-mf_getattr :
      (path : Text) (modtime actime : ℕ) (ddd : DentryData) (w : World os.State)
      → os.get w.base (dentry path) ≡ ok ddd
      → (s : os.State) × (mf_utime os (some (dbfs_store os)) path modtime actime w
          ≡ returns (minus success, record w { base = s }))
        × (mf_getattr os (some (dbfs_store os)) path (record w { base = s })
            ≡ returns (
              by_type ddd.ddd_type (record (stat_of ddd) {
                st_mtime = modtime;
                st_ctime = modtime;
                st_atime = actime;
              }),
              record w { base = s },
            ))
        × ((k : Key) → dentry path ≢ k → os.get s k ≡ os.get w.base k)
  unfolding mf_utime with_open mattr_setmtime mattr_setatime set_attr attr_call as_attr
      dbfs_attr_ops dbfs_setmtime dbfs_setatime save dbfs_write_attr
  mf_utime-mf_getattr path modtime actime ddd w g =
      let first = record ddd { ddd_mtime = modtime } in
      let second = record ddd { ddd_mtime = modtime; ddd_atime = actime } in
      let t = (os.put w.base (dentry path) first overwrite).1 in
      let s = (os.put t (dentry path) second overwrite).1 in
      (
        s,
        rw (mangoo_open_attr os memory path ddd w g) (
            rw
              (
                reliable.put_overwrite w.base (dentry path) first,
                reliable.put_overwrite t (dentry path) second,
              )
              (rw (mangoo_close_attr os memory path second (record w { base = s })))),
        mf_getattr_lem os memory path second (record w { base = s })
            (store.get-put_self t (dentry path) second overwrite
              (reliable.put_overwrite t (dentry path) second)),
        λ k n.
            store.get-put_ne t (dentry path) k second overwrite n
            ∙ store.get-put_ne w.base (dentry path) k first overwrite n,
      )
