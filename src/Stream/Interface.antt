-- ===== src/Stream/Interface.antt =====
-- The stream interface of stores/dbfs/stream.c: dbfs_sopen, dbfs_read, dbfs_write, dbfs_close.
use mangoo.Base.{ℕ, ◌-◌, true, false, Option, none, some, List, [], ltb, if◌then◌else◌}
use mangoo.Types.{Text, Code, success, enomem, Handle, dbfs_stream_vector, mangoo_stream_interface}
use mangoo.System.{System, M, pure, ◌>>=◌, ◌>>◌}
use mangoo.Handle.{dbfs_createhandle, free_struct}
use mangoo.Attr.{dbfs_read_attr, dbfs_write_attr}
use mangoo.Stream.{add_size, Transfer, dbfs_readwrite}

-- The handle's size after a write that ends there.
unfoldable pub grown : Handle → ℕ → Handle
grown dh end =
    if ltb dh.attr_ddd.ddd_size end
    then record dh { attr_ddd = record dh.attr_ddd { ddd_size = end } }
    else dh

module _ (os : System) where
  -- The handle is not freed if the attributes cannot be read.
  unfoldable pub dbfs_sopen : Text → M os (Code × Option Handle)
  dbfs_sopen locator = do
    created ← dbfs_createhandle os locator
    elim created [
      | none ↦ pure (enomem, none)
      | some dh ↦ (do
        (error, ddd) ← dbfs_read_attr os dh.attr_ddk dh.attr_ddd
        elim error [
          | success ↦ pure (
            success,
            some (record dh {
              mh_interface = mangoo_stream_interface;
              mh_fvector = dbfs_stream_vector;
              attr_ddd = ddd;
            }),
          )
          | e ↦ pure (e, none)
        ])
    ]

  -- Past the end nothing is read and *size is left as it is.
  unfoldable pub dbfs_read : Handle → ℕ → ℕ → M os Transfer
  dbfs_read dh size offset =
      let file_size = dh.attr_ddd.ddd_size in
      if ltb file_size offset
      then pure (record { error = success; bytes = []; count = size })
      else let clamped =
          if ltb file_size (add_size offset size) then file_size - offset else size in
        dbfs_readwrite os dh.attr_ddd.ddd_ino [] clamped offset true

  -- The int, *size and the handle.
  unfoldable pub dbfs_write : Handle → List ℕ → ℕ → ℕ → M os (Code × ℕ × Handle)
  dbfs_write dh buf size offset = do
    done ← dbfs_readwrite os dh.attr_ddd.ddd_ino buf size offset false
    elim (done.error) [
      | success ↦ (do
        let dh' = grown dh (add_size offset done.count)
        error ← dbfs_write_attr os dh'.attr_ddk dh'.attr_ddd
        pure (error, done.count, dh'))
      | e ↦ pure (e, done.count, dh)
    ]

  -- Only the structure itself is freed.
  unfoldable pub dbfs_close : Handle → M os Code
  unfolding free_struct
  dbfs_close dh = do free_struct os; pure success
