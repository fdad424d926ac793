-- ===== src/Dbfs.antt =====
-- The operations of the dbfs store, dbfs_msops: stores/dbfs/dbfs.c. Locators are the paths of files;
-- last_inode of struct dbfs_store is a field of the world.
pub mod Create
pub mod Mount
pub mod Inodes
pub mod Session
pub mod Delete
pub mod Container
use mangoo.Base.{ℕ, ◌+◌, ◌%◌, ◌^◌, Option, none, some, ◌==◌, if◌then◌else◌}
use mangoo.Types.{
  Text, ok, err, Code, success, enomem, einval, db, Handle, FsinfoData, dbfs_ddk_size,
  mangoo_container, mangoo_data, MangooTypes, MangooInterfaces, mangoo_stream_interface,
  mangoo_directory_interface, mangoo_attr_interface,
}
use mangoo.System.{System, M, returns, pure, gets, ◌>>=◌, ◌>>◌}
use mangoo.Handle.{dbfs_createhandle}
use mangoo.Fsinfo.{dbfs_fetch_fsinfo, dbfs_update_fsinfo}
use mangoo.Attr.{dbfs_create_attr, dbfs_read_attr}
use mangoo.Attr.Interface.{dbfs_aopen, dbfs_dela}
use mangoo.Stream.Truncate.{dbfs_dels}
use mangoo.Stream.Interface.{dbfs_sopen}
use mangoo.Dir.{dbfs_dopen, dbfs_deld, is_root}

-- sizeof(struct dbfs_store)
abbrev pub store_size : ℕ
store_size = 32

module _ (os : System) where
  -- dsp->last_inode++ : the old value, and the counter moves on, modulo its 64 bits
  unfoldable pub next_inode : M os ℕ
  next_inode w = returns (w.last_inode, record w { last_inode = (w.last_inode + 1) % 2 ^ 64 })

  unfoldable pub dbfs_create : Text → ℕ → MangooTypes → M os Code
  dbfs_create locator mode mt =
      if os.malloc (dbfs_ddk_size locator)
      then (do ino ← next_inode; dbfs_create_attr os locator mt mode ino)
      else pure enomem

  -- The part of dbfs_delete behind the attributes: the contents first, then the record.
  unfoldable pub delete_by_type : ℕ → Handle → M os Code
  delete_by_type fuel dh =
      if dh.attr_ddd.ddd_type == mangoo_container
      then (do
        (error, dh') ← dbfs_deld os dh
        elim error [ success ↦ dbfs_dela os dh' | e ↦ pure e ])
      else if dh.attr_ddd.ddd_type == mangoo_data
      then (do error ← dbfs_dels os fuel dh; elim error [ success ↦ dbfs_dela os dh | e ↦ pure e ])
      else pure einval

  unfoldable pub dbfs_delete : ℕ → Text → M os Code
  dbfs_delete fuel locator = if is_root locator then pure einval else (do
    created ← dbfs_createhandle os locator
    elim created [
      | none ↦ pure enomem
      | some dh ↦ (do
        (error, ddd) ← dbfs_read_attr os dh.attr_ddk dh.attr_ddd
        elim error [ success ↦ delete_by_type fuel (record dh { attr_ddd = ddd }) | e ↦ pure e ])
    ])

  unfoldable pub dbfs_open : Text → MangooInterfaces → M os (Code × Option Handle)
  dbfs_open locator mi =
      if mi == mangoo_stream_interface
      then dbfs_sopen os locator
      else if mi == mangoo_directory_interface
      then dbfs_dopen os locator
      else if mi == mangoo_attr_interface
      then dbfs_aopen os locator
      else pure (einval, none)

  unfoldable pub dbfs_closestore : M os Code
  dbfs_closestore = do
    reply ← gets (λ w. os.close_db w.base)
    elim reply [ ok _ ↦ pure success | err e ↦ pure (db e) ]

  -- The inode numbers of this mount start at the stored counter, which is put 1000 further.
  unfoldable pub mount : FsinfoData → M os Code
  mount dfd = do
    error ← dbfs_update_fsinfo os (record { dfd_lastino = (dfd.dfd_lastino + 1000) % 2 ^ 64 })
    elim error [
      | success ↦ λ w. returns (success, record w { last_inode = dfd.dfd_lastino })
      | e ↦ pure e
    ]

  -- The errors of the database before the first read are returned unchanged. The store is handed
  -- out, *mspp, exactly if the int is 0; its structure is freed on every error.
  unfoldable pub dbfs_initstore : Text → M os Code
  dbfs_initstore rl =
      if os.malloc store_size
      then elim (os.db_create) [
        | err e ↦ pure (db e)
        | ok _ ↦ (do
          compared ← gets (λ w. os.set_bt_compare w.base)
          elim compared [
            | err e ↦ pure (db e)
            | ok _ ↦ (do
              opened ← gets (λ w. os.open_db rl w.base)
              elim opened [
                | err e ↦ pure (db e)
                | ok _ ↦ (do
                  (error, dfd) ← dbfs_fetch_fsinfo os (record { dfd_lastino = 0 })
                  elim error [ success ↦ mount dfd | e ↦ pure e ])
              ])
          ])
      ]
      else pure enomem
