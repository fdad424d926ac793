-- ===== src/Dbfs/Delete.antt =====
-- dbfs_delete: files, and the errors.
use mangoo.Base.{ℕ, suc, ◌^◌, ◌<◌, ◌≡◌, refl, ◌∙◌, ◌≢◌, [], ◌∷◌, arith}
use mangoo.Types.{
  Text, slash, Key, ok, err, not_found, success, enoent, einval, dentry, Handle, DentryData,
  mangoo_data,
}
use mangoo.System.{System, World, returns, running}
use mangoo.System.Laws.{IsReliable, IsStore, HasMemory}
use mangoo.Handle.Life.{fresh_handle, plus_handle, dbfs_createhandle_lem, leaked}
use mangoo.Stream.Truncate.{dbfs_dels}
use mangoo.Stream.Deleting.{dbfs_truncateblocks-lt, dbfs_truncateblocks-empty}
use mangoo.Attr.{dbfs_read_attr}
use mangoo.Attr.Interface.{dbfs_dela}
use mangoo.Dir.{is_root, same_text}
use mangoo.Dir.Paths.{is_root-ne}
use mangoo.Compare.{strcmp}
use mangoo.Dbfs.{dbfs_delete, delete_by_type}

abbrev pub opened : Text → DentryData → Handle
opened path ddd = record (fresh_handle path) { attr_ddd = ddd }

module _ (os : System) (memory : HasMemory os.platform) where
  pub dbfs_delete-run :
      (fuel : ℕ) (path : Text) (ddd : DentryData) (w : World os.State)
      → path ≢ slash ∷ []
      → os.get w.base (dentry path) ≡ ok ddd
      → dbfs_delete os fuel path w ≡ delete_by_type os fuel (opened path ddd) (leaked w)
  unfolding dbfs_delete dbfs_read_attr
  dbfs_delete-run fuel path ddd w n g =
      rw (is_root-ne path n, dbfs_createhandle_lem os path w memory) (rw g)

  -- Deleting the root is refused with EINVAL, and deleting a path without a record with ENOENT;
  -- neither changes the database.
  pub dbfs_delete_errors :
      (fuel : ℕ) (path : Text) (w : World os.State)
      → path ≢ slash ∷ []
      → os.get w.base (dentry path) ≡ err not_found
      → (dbfs_delete os fuel (slash ∷ []) w ≡ returns (einval, w))
        × (dbfs_delete os fuel path w ≡ returns (enoent, leaked w))
  unfolding dbfs_delete dbfs_read_attr
  dbfs_delete_errors fuel path w n g = (
    unfold is_root same_text strcmp in refl,
    rw (is_root-ne path n, dbfs_createhandle_lem os path w memory) (rw g),
  )

  module _ (store : IsStore os.berkeley) (reliable : IsReliable os.berkeley) where
    abbrev removed : os.State → Text → os.State
    removed s path = (os.del s (dentry path)).1

    dbfs_dela_lem :
        (path : Text) (ddd ddd' : DentryData) (w : World os.State)
        → os.get w.base (dentry path) ≡ ok ddd'
        → dbfs_dela os (opened path ddd) w
          ≡ returns (success, record w { base = removed w.base path })
    unfolding dbfs_dela
    dbfs_dela_lem path ddd ddd' w g =
        ground (arith, reliable.del_present w.base (dentry path) ddd' g)

    delete_file-run :
        (fuel : ℕ) (path : Text) (ddd : DentryData) (w : World os.State)
        → os.get w.base (dentry path) ≡ ok ddd
        → ddd.ddd_type ≡ mangoo_data
        → 0 < ddd.ddd_size
        → ddd.ddd_size < 2 ^ 64
        → delete_by_type os (suc fuel) (opened path ddd) w
          ≡ returns (success, record w { base = removed w.base path })
    unfolding delete_by_type dbfs_dels
    delete_file-run fuel path ddd w g t a b = rw t (
        rw (dbfs_truncateblocks-lt os fuel ddd.ddd_ino 0 ddd.ddd_size w a b)
          (dbfs_dela_lem path ddd ddd w g))

    -- Deleting a file of a positive size below 2^64, on a machine that does not fail, returns 0 and
    -- removes the file's record, and no other record: every block of the file stays in the
    -- database, and the handle, its key and its locator stay allocated.
    pub dbfs_delete_file :
        (fuel : ℕ) (path : Text) (ddd : DentryData) (w : World os.State)
        → path ≢ slash ∷ []
        → os.get w.base (dentry path) ≡ ok ddd
        → ddd.ddd_type ≡ mangoo_data
        → 0 < ddd.ddd_size
        → ddd.ddd_size < 2 ^ 64
        → (s : os.State) × (dbfs_delete os (suc fuel) path w
            ≡ returns (success, record w { base = s; mem = plus_handle w.mem 0 }))
          × (os.get s (dentry path) ≡ err not_found)
          × ((k : Key) → dentry path ≢ k → os.get s k ≡ os.get w.base k)
    dbfs_delete_file fuel path ddd w n g t a b = (
      removed w.base path,
      dbfs_delete-run (suc fuel) path ddd w n g ∙ delete_file-run fuel path ddd (leaked w) g t a b,
      store.get-del_self w.base (dentry path) (reliable.del_present w.base (dentry path) ddd g),
      store.get-del_ne w.base (dentry path),
    )

    -- Deleting a file of size 0, on a machine that does not fail, never returns: it is still
    -- running whatever the fuel.
    pub dbfs_delete_empty_file :
        (fuel : ℕ) (path : Text) (ddd : DentryData) (w : World os.State)
        → path ≢ slash ∷ []
        → os.get w.base (dentry path) ≡ ok ddd
        → ddd.ddd_type ≡ mangoo_data
        → ddd.ddd_size ≡ 0
        → dbfs_delete os fuel path w ≡ running
    unfolding delete_by_type dbfs_dels
    dbfs_delete_empty_file fuel path ddd w n g t a =
        dbfs_delete-run fuel path ddd w n g
        ∙ rw t (rw a (rw (dbfs_truncateblocks-empty os reliable fuel ddd.ddd_ino 0 (leaked w))))
