-- ===== src/Handle.antt =====
-- dbfs_createhandle and dbfs_freehandle of stores/dbfs/fsinfo.c: the handles of the dbfs store.
pub mod Life
use mangoo.Base.{ℕ, ◌+◌, ◌-◌, Option, none, some, if◌then◌else◌, length}
use mangoo.Types.{
  Text, Key, dbfs_ddk_size, dbfs_init_dentry_key, zero_dentry, null_vector, KeyBuffer, null_buffer,
  holds, dangling, Handle, mangoo_stream_interface,
}
use mangoo.System.{System, M, pure, undefined_behaviour, modify_mem, ◌>>◌}

-- sizeof(struct dbfs_handle), for 8-byte pointers
abbrev pub handle_size : ℕ
handle_size = 104

-- What calloc returns.
abbrev pub blank : Handle
blank = record {
  mh_interface = mangoo_stream_interface;
  mh_fvector = null_vector;
  dbc = none;
  locator = none;
  attr_ddk = null_buffer;
  ddk_size = 0;
  attr_ddd = zero_dentry;
}

module _ (os : System) where
  unfoldable pub close_cursor : Option (Option Key) → M os (Unit {0})
  close_cursor none = pure tt
  close_cursor (some position) = modify_mem (λ m. record m { cursors = m.cursors - 1 })

  unfoldable pub free_key : KeyBuffer → M os (Unit {0})
  free_key null_buffer = pure tt
  free_key (holds k) = modify_mem (λ m. record m { keys = m.keys - 1 })
  free_key dangling = undefined_behaviour

  unfoldable pub free_locator : Option Text → M os (Unit {0})
  free_locator none = pure tt
  free_locator (some text) = modify_mem (λ m. record m { locators = m.locators - 1 })

  -- free(dh)
  unfoldable pub free_struct : M os (Unit {0})
  free_struct = modify_mem (λ m. record m { handles = m.handles - 1 })

  unfoldable pub dbfs_freehandle : Handle → M os (Unit {0})
  unfolding close_cursor free_key free_locator free_struct
  dbfs_freehandle dh = do
    close_cursor dh.dbc
    free_key dh.attr_ddk
    free_locator dh.locator
    free_struct

  -- The allocations in the order of the condition; after a failure those before it are freed.
  unfoldable pub dbfs_createhandle : Text → M os (Option Handle)
  unfolding dbfs_freehandle dbfs_ddk_size dbfs_init_dentry_key
  dbfs_createhandle locator =
      if os.malloc handle_size
      then (do
        modify_mem (λ m. record m { handles = m.handles + 1 })
        if os.malloc (dbfs_ddk_size locator)
            then (do
              modify_mem (λ m. record m { keys = m.keys + 1 })
              let buffer = holds (dbfs_init_dentry_key locator)
              if os.malloc (length locator + 1)
                  then (do
                    modify_mem (λ m. record m { locators = m.locators + 1 })
                    pure (
                        some (record blank {
                          locator = some locator;
                          attr_ddk = buffer;
                          ddk_size = dbfs_ddk_size locator;
                        })))
                  else (do dbfs_freehandle (record blank { attr_ddk = buffer }); pure none))
            else (do dbfs_freehandle blank; pure none))
      else pure none
