-- ===== src/Mkdbfs/FirstFile.antt =====
-- The store that mkdbfs makes, and the first file in it.
use mangoo.Base.{ℕ, ◌≡◌, sym, ◌∙◌, ◌≢◌, arith}
use mangoo.Types.{
  Text, Key, ok, err, not_found, success, fsinfo, dentry, DentryData, FsinfoData, MangooTypes,
  mangoo_container, dbfs_root_ino, dbfs_ddk_size,
}
use mangoo.System.{System, World, returns, no_overwrite}
use mangoo.System.Laws.{IsReliable, IsStore, IsOpenable, HasMemory}
use mangoo.Attr.{new_dentry, dbfs_create_attr}
use mangoo.Fsinfo.{dbfs_create_fsinfo, dbfs_crupd_fsinfo}
use mangoo.Dbfs.{dbfs_initstore, dbfs_create}
use mangoo.Dbfs.Create.{put_new, get-created, fsinfo_ne, inode_taken, dbfs_create_lem}
use mangoo.Dbfs.Mount.{mounted, dbfs_initstore_lem, get-mounted}
use mangoo.Mkdbfs.{mkdbfs, make_root, root_path, root_mode}

-- The first file system information.
abbrev pub first_fsinfo : FsinfoData
first_fsinfo = record { dfd_lastino = dbfs_root_ino }

module _ (os : System) where
  abbrev pub root_dentry : DentryData
  root_dentry = new_dentry os mangoo_container root_mode dbfs_root_ino

  -- The database with the two records of mkdbfs.
  abbrev pub made : os.State → os.State
  made s = (os.put (put_new os s root_path root_dentry) fsinfo first_fsinfo no_overwrite).1

module _ (os : System) (store : IsStore os.berkeley) (reliable : IsReliable os.berkeley)
    (openable : IsOpenable os.berkeley) (memory : HasMemory os.platform) where
  module _ (w : World os.State) (empty : (k : Key) → os.get w.base k ≡ err not_found) where
    no_fsinfo : os.get (put_new os w.base root_path (root_dentry os)) fsinfo ≡ err not_found
    no_fsinfo =
        store.get-put_ne w.base (dentry root_path) fsinfo (root_dentry os) no_overwrite
          (λ e. fsinfo_ne root_path (sym e))
        ∙ empty fsinfo

    make_root_lem : make_root os w ≡ returns (tt, record w { base = made os w.base })
    unfolding make_root dbfs_create_attr dbfs_create_fsinfo dbfs_crupd_fsinfo
    make_root_lem = ground (
      arith,
      memory.malloc_succeeds (dbfs_ddk_size root_path),
      reliable.put_absent w.base (dentry root_path) (root_dentry os) (empty (dentry root_path)),
      reliable.put_absent (put_new os w.base root_path (root_dentry os)) fsinfo first_fsinfo
          no_fsinfo,
    )

    pub mkdbfs_lem :
        (name : Text) → mkdbfs os name w ≡ returns (0, record w { base = made os w.base })
    unfolding mkdbfs
    mkdbfs_lem name = rw (
      openable.db_created,
      openable.bt_compare_set w.base,
      openable.db_opened name w.base,
      make_root_lem,
    )

    pub get-made_fsinfo : os.get (made os w.base) fsinfo ≡ ok first_fsinfo
    get-made_fsinfo =
        store.get-put_self (put_new os w.base root_path (root_dentry os)) fsinfo first_fsinfo
          no_overwrite
          (reliable.put_absent (put_new os w.base root_path (root_dentry os)) fsinfo first_fsinfo
            no_fsinfo)

    pub get-made_root : os.get (made os w.base) (dentry root_path) ≡ ok (root_dentry os)
    get-made_root =
        store.get-put_ne (put_new os w.base root_path (root_dentry os)) fsinfo (dentry root_path)
          first_fsinfo no_overwrite (fsinfo_ne root_path)
        ∙ get-created os store reliable memory root_path (root_dentry os) w.base
            (empty (dentry root_path))

    get-made_file :
        (path : Text) → path ≢ root_path → os.get (made os w.base) (dentry path) ≡ err not_found
    get-made_file path n =
        store.get-put_ne (put_new os w.base root_path (root_dentry os)) fsinfo (dentry path)
          first_fsinfo no_overwrite (fsinfo_ne path)
        ∙ store.get-put_ne w.base (dentry root_path) (dentry path) (root_dentry os) no_overwrite
            (λ e. n (cc e))
        ∙ empty (dentry path)

  -- On an empty database and a machine that does not fail, mkdbfs returns 0 and makes a store that
  -- can be mounted; the first file that is created in it, at any path but the root's, has the inode
  -- number of the root directory.
  pub mkdbfs-dbfs_create :
      (name path : Text) (mode : ℕ) (mt : MangooTypes) (w : World os.State)
      → ((k : Key) → os.get w.base k ≡ err not_found)
      → path ≢ root_path
      → (s t u : World os.State) × (mkdbfs os name w ≡ returns (0, s))
        × (dbfs_initstore os name s ≡ returns (success, t))
        × (dbfs_create os path mode mt t ≡ returns (success, u))
        × (os.get u.base (dentry root_path)
            ≡ ok (new_dentry os mangoo_container root_mode dbfs_root_ino))
        × (os.get u.base (dentry path) ≡ ok (new_dentry os mt mode dbfs_root_ino))
  mkdbfs-dbfs_create name path mode mt w empty n =
      let s = record w { base = made os w.base } in
      let t = mounted os store reliable openable memory s first_fsinfo in
      let absent : os.get t.base (dentry path) ≡ err not_found =
        get-mounted os store reliable openable memory s first_fsinfo (dentry path) (fsinfo_ne path)
        ∙ get-made_file w empty path n in
      let root : os.get t.base (dentry root_path) ≡ ok (root_dentry os) =
        get-mounted os store reliable openable memory s first_fsinfo (dentry root_path)
          (fsinfo_ne root_path)
        ∙ get-made_root w empty in
      let new = new_dentry os mt mode dbfs_root_ino in
      (
        s,
        t,
        record (inode_taken t) { base = put_new os t.base path new },
        mkdbfs_lem w empty name,
        dbfs_initstore_lem os store reliable openable memory name s first_fsinfo
            (get-made_fsinfo w empty),
        dbfs_create_lem os store reliable memory path mode mt t absent,
        store.get-put_ne t.base (dentry path) (dentry root_path) new no_overwrite (λ e. n (cc e))
            ∙ root,
        get-created os store reliable memory path new t.base absent,
      )
