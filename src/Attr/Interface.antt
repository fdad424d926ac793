-- ===== src/Attr/Interface.antt =====
-- The attribute interface of stores/dbfs/attr.c: the handlers of dbfs_attr_ops, dbfs_aopen and
-- dbfs_dela. A handler that sets returns the int and the handle; one that gets returns the int
-- and the value. mode_t, uid_t and gid_t have the 32 bits of the fields they are kept in.
use mangoo.Base.{ℕ, Option, none, some, ltb, if◌then◌else◌}
use mangoo.Types.{
  Text, ok, err, not_found, Code, success, enoent, eio, enomem, DentryData, holds, Handle,
  dbfs_attr_vector, mangoo_attr_interface, MangooTypes,
}
use mangoo.System.{System, M, pure, undefined_behaviour, db_call, ◌>>=◌, ◌>>◌}
use mangoo.Handle.{dbfs_createhandle, dbfs_freehandle}
use mangoo.Attr.{dbfs_read_attr, dbfs_write_attr}
use mangoo.Stream.Truncate.{dbfs_truncateblocks}

module _ (os : System) where
  unfoldable pub dbfs_gettype : Handle → M os (Code × MangooTypes)
  dbfs_gettype dh = pure (success, dh.attr_ddd.ddd_type)

  unfoldable pub dbfs_getsize : Handle → M os (Code × ℕ)
  dbfs_getsize dh = pure (success, dh.attr_ddd.ddd_size)

  unfoldable pub dbfs_getmtime : Handle → M os (Code × ℕ)
  dbfs_getmtime dh = pure (success, dh.attr_ddd.ddd_mtime)

  unfoldable pub dbfs_getatime : Handle → M os (Code × ℕ)
  dbfs_getatime dh = pure (success, dh.attr_ddd.ddd_atime)

  unfoldable pub dbfs_getmode : Handle → M os (Code × ℕ)
  dbfs_getmode dh = pure (success, dh.attr_ddd.ddd_mode)

  unfoldable pub dbfs_getuid : Handle → M os (Code × ℕ)
  dbfs_getuid dh = pure (success, dh.attr_ddd.ddd_uid)

  unfoldable pub dbfs_getgid : Handle → M os (Code × ℕ)
  dbfs_getgid dh = pure (success, dh.attr_ddd.ddd_gid)

  -- A setter changes the handle's copy first, and keeps it changed if the record is not written.
  unfoldable pub save : Handle → DentryData → M os (Code × Handle)
  save dh ddd = do
    let dh' = record dh { attr_ddd = ddd }
    error ← dbfs_write_attr os dh'.attr_ddk dh'.attr_ddd
    pure (error, dh')

  unfoldable pub dbfs_setmtime : Handle → ℕ → M os (Code × Handle)
  dbfs_setmtime dh mtime = save dh (record dh.attr_ddd { ddd_mtime = mtime })

  unfoldable pub dbfs_setatime : Handle → ℕ → M os (Code × Handle)
  dbfs_setatime dh atime = save dh (record dh.attr_ddd { ddd_atime = atime })

  unfoldable pub dbfs_chmod : Handle → ℕ → M os (Code × Handle)
  dbfs_chmod dh mode = save dh (record dh.attr_ddd { ddd_mode = mode })

  unfoldable pub dbfs_chown : Handle → ℕ → ℕ → M os (Code × Handle)
  dbfs_chown dh newuid newgid = save dh (record dh.attr_ddd { ddd_uid = newuid; ddd_gid = newgid })

  unfoldable pub dbfs_setsize : ℕ → Handle → ℕ → M os (Code × Handle)
  dbfs_setsize fuel dh size =
      let set_size = save dh (record dh.attr_ddd { ddd_size = size }) in
      if ltb size dh.attr_ddd.ddd_size
      then (do
        error ← dbfs_truncateblocks os fuel dh.attr_ddd.ddd_ino size dh.attr_ddd.ddd_size
        elim error [ success ↦ set_size | e ↦ pure (e, dh) ])
      else set_size

  unfoldable pub dbfs_close : Handle → M os Code
  unfolding dbfs_freehandle
  dbfs_close dh = do dbfs_freehandle os dh; pure success

  -- The handle is not freed if the attributes cannot be read.
  unfoldable pub dbfs_aopen : Text → M os (Code × Option Handle)
  dbfs_aopen locator = do
    created ← dbfs_createhandle os locator
    elim created [
      | none ↦ pure (enomem, none)
      | some dh ↦ (do
        (error, ddd) ← dbfs_read_attr os dh.attr_ddk dh.attr_ddd
        elim error [
          | success ↦ pure (
            success,
            some (record dh {
              mh_interface = mangoo_attr_interface;
              mh_fvector = dbfs_attr_vector;
              attr_ddd = ddd;
            }),
          )
          | e ↦ pure (e, none)
        ])
    ]

  -- The record under whatever key the buffer holds is deleted.
  unfoldable pub dbfs_dela : Handle → M os Code
  dbfs_dela dh = elim (dh.attr_ddk) [
    | holds k ↦ (do
      reply ← db_call (λ s. os.del s k)
      elim reply [
        | ok _ ↦ pure success
        | err e ↦ elim e [ not_found ↦ pure enoent | _ ↦ pure eio ]
      ])
    | _ ↦ undefined_behaviour
  ]
