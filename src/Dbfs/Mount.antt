-- ===== src/Dbfs/Mount.antt =====
-- dbfs_initstore: the counter of inode numbers that a mount starts with.
use mangoo.Base.{ℕ, ◌+◌, ◌%◌, ◌^◌, ◌≡◌, sym, ◌∙◌, ◌≢◌, arith}
use mangoo.Types.{Text, Key, ok, err, not_found, success, fsinfo, dentry, FsinfoData, MangooTypes}
use mangoo.System.{System, World, returns, overwrite, no_overwrite}
use mangoo.System.Laws.{IsReliable, IsStore, IsOpenable, HasMemory}
use mangoo.Fsinfo.{dbfs_fetch_fsinfo, dbfs_update_fsinfo, dbfs_crupd_fsinfo}
use mangoo.Attr.{new_dentry}
use mangoo.Dbfs.{dbfs_initstore, mount, store_size, dbfs_create}
use mangoo.Dbfs.Create.{dbfs_create_lem, inode_taken, put_new, get-created, fsinfo_ne}

-- The file system information that a mount stores.
abbrev pub next_range : FsinfoData → FsinfoData
next_range dfd = record { dfd_lastino = (dfd.dfd_lastino + 1000) % 2 ^ 64 }

module _ (os : System) (store : IsStore os.berkeley) (reliable : IsReliable os.berkeley)
    (openable : IsOpenable os.berkeley) (memory : HasMemory os.platform) where
  -- The world of a mounted store.
  abbrev pub mounted : World os.State → FsinfoData → World os.State
  mounted w dfd = record w {
    base = (os.put w.base fsinfo (next_range dfd) overwrite).1;
    last_inode = dfd.dfd_lastino;
  }

  mount_lem :
      (w : World os.State) (dfd : FsinfoData) → mount os dfd w ≡ returns (success, mounted w dfd)
  unfolding mount dbfs_update_fsinfo dbfs_crupd_fsinfo
  mount_lem w dfd = ground (arith, reliable.put_overwrite w.base fsinfo (next_range dfd))

  pub dbfs_initstore_lem :
      (rl : Text) (w : World os.State) (dfd : FsinfoData)
      → os.get w.base fsinfo ≡ ok dfd
      → dbfs_initstore os rl w ≡ returns (success, mounted w dfd)
  unfolding dbfs_initstore dbfs_fetch_fsinfo
  dbfs_initstore_lem rl w dfd g =
      rw
        (
          memory.malloc_succeeds store_size,
          openable.db_created,
          openable.bt_compare_set w.base,
          openable.db_opened rl w.base,
        )
        (rw g (mount_lem w dfd))

  -- Other records than the file system information are left by a mount.
  pub get-mounted :
      (w : World os.State) (dfd : FsinfoData) (k : Key)
      → fsinfo ≢ k
      → os.get (mounted w dfd).base k ≡ os.get w.base k
  get-mounted w dfd k n = store.get-put_ne w.base fsinfo k (next_range dfd) overwrite n

  pub get-mounted_self :
      (w : World os.State) (dfd : FsinfoData)
      → os.get (mounted w dfd).base fsinfo ≡ ok (next_range dfd)
  get-mounted_self w dfd =
      store.get-put_self w.base fsinfo (next_range dfd) overwrite
        (reliable.put_overwrite w.base fsinfo (next_range dfd))

  -- The first file that is created after a mount has the inode number that the file system
  -- information held before the mount, whatever numbers are in use; the mount stores that number
  -- plus 1000, modulo 2 ^ 64, and creating the file leaves it so.
  pub dbfs_initstore-create :
      (rl path : Text) (mode : ℕ) (mt : MangooTypes) (w : World os.State) (dfd : FsinfoData)
      → os.get w.base fsinfo ≡ ok dfd
      → os.get w.base (dentry path) ≡ err not_found
      → (u v : World os.State) × (dbfs_initstore os rl w ≡ returns (success, u))
        × (dbfs_create os path mode mt u ≡ returns (success, v))
        × (os.get v.base (dentry path) ≡ ok (new_dentry os mt mode dfd.dfd_lastino))
        × (os.get v.base fsinfo ≡ ok (next_range dfd))
  dbfs_initstore-create rl path mode mt w dfd f g =
      let ddd = new_dentry os mt mode dfd.dfd_lastino in
      let u = mounted w dfd in
      let absent : os.get u.base (dentry path) ≡ err not_found =
        get-mounted w dfd (dentry path) (fsinfo_ne path) ∙ g in
      (
        u,
        record (inode_taken u) { base = put_new os u.base path ddd },
        dbfs_initstore_lem rl w dfd f,
        dbfs_create_lem os store reliable memory path mode mt u absent,
        get-created os store reliable memory path ddd u.base absent,
        store.get-put_ne u.base (dentry path) fsinfo ddd no_overwrite (λ e. fsinfo_ne path (sym e))
            ∙ store.get-put_self w.base fsinfo (next_range dfd) overwrite
                (reliable.put_overwrite w.base fsinfo (next_range dfd)),
      )
