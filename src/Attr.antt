-- ===== src/Attr.antt =====
-- The attribute records and the attribute interface of the dbfs store: stores/dbfs/attr.c.
pub mod Interface
pub mod Resize
use mangoo.Base.{ℕ}
use mangoo.Types.{
  Text, ok, err, not_found, Code, success, enoent, eio, einval, dentry, DentryData, KeyBuffer,
  holds,
}
use mangoo.System.{
  System, M, pure, gets, undefined_behaviour, db_call, overwrite, no_overwrite, ◌>>=◌, ◌>>◌,
}

module _ (os : System) where
  -- attr_ddk->ddk_path; the bytes of another key are no path.
  unfoldable pub buffer_path : KeyBuffer → M os Text
  buffer_path (holds (dentry path)) = pure path
  buffer_path _ = undefined_behaviour

  -- The record of a new file.
  unfoldable pub new_dentry : ℕ → ℕ → ℕ → DentryData
  new_dentry type mode ino = record {
    ddd_type = type;
    ddd_mode = mode;
    ddd_ino = ino;
    ddd_size = 0;
    ddd_mtime = os.time;
    ddd_atime = os.time;
    ddd_uid = os.geteuid;
    ddd_gid = os.getegid;
  }

  -- The key is made a dentry key first; the record is stored only where there is none.
  unfoldable pub dbfs_create_attr : Text → ℕ → ℕ → ℕ → M os Code
  unfolding new_dentry
  dbfs_create_attr path type mode ino = do
    reply ← db_call (λ s. os.put s (dentry path) (new_dentry type mode ino) no_overwrite)
    elim reply [ ok _ ↦ pure success | err e ↦ pure einval ]

  unfoldable pub dbfs_write_attr : KeyBuffer → DentryData → M os Code
  unfolding buffer_path
  dbfs_write_attr attr_ddk attr_ddd = do
    path ← buffer_path attr_ddk
    reply ← db_call (λ s. os.put s (dentry path) attr_ddd overwrite)
    elim reply [ ok _ ↦ pure success | err e ↦ pure einval ]

  -- The structure that is passed in is filled only if the record was found.
  unfoldable pub dbfs_read_attr : KeyBuffer → DentryData → M os (Code × DentryData)
  unfolding buffer_path
  dbfs_read_attr attr_ddk attr_ddd = do
    path ← buffer_path attr_ddk
    reply ← gets (λ w. os.get w.base (dentry path))
    elim reply [
      | ok stored ↦ pure (success, stored)
      | err e ↦ elim e [ not_found ↦ pure (enoent, attr_ddd) | _ ↦ pure (eio, attr_ddd) ]
    ]
