-- ===== src/Fuse/NewStore.antt =====
-- A store that mkdbfs has made, mounted by the FUSE program.
use mangoo.Base.{◌≡◌, refl, ◌∙◌, some, List, [], ◌∷◌, ◌++◌}
use mangoo.Types.{Text, Key, err, not_found, success, dbfs_root_ino}
use mangoo.System.{System, World, returns}
use mangoo.System.Laws.{IsStore, IsReliable, IsOpenable, HasMemory}
use mangoo.Api.Store.{dbfs_scheme, dbfs_store}
use mangoo.Dbfs.Mount.{mounted, get-mounted}
use mangoo.Dbfs.Create.{fsinfo_ne}
use mangoo.Mkdbfs.{root_path}
use mangoo.Mkdbfs
use mangoo.Mkdbfs.FirstFile.{made, first_fsinfo, mkdbfs_lem, get-made_fsinfo, get-made_root}
use mangoo.Fuse.{minus, mf_getattr}
use mangoo.Fuse.Attributes.{mf_getattr_lem, by_type}
use mangoo.Fuse.Start.{FuseMain, main, main_lem, colon}

module _ (os : System) (store : IsStore os.berkeley) (reliable : IsReliable os.berkeley)
    (openable : IsOpenable os.berkeley) (memory : HasMemory os.platform) where
  -- mkdbfs makes a store in an empty database, and the FUSE program is started on it, on a machine
  -- that does not fail: mkdbfs ends with 0, and the FUSE program does what fuse_main does in a world
  -- where mf_getattr of the root directory answers 0, with the user and the time of the call of
  -- mkdbfs, the size 0, the mode 0644 of a directory and two links, and changes nothing. The first
  -- inode number that will be given out is the root directory's.
  pub mkdbfs-mf_getattr :
      (fuse_main : FuseMain os) (progname rl mountpoint : Text) (rest : List Text)
      (w : World os.State)
      → ((k : Key) → os.get w.base k ≡ err not_found)
      → (s t : World os.State) × (Mkdbfs.main os (progname ∷ rl ∷ []) w ≡ returns (0, s))
        × (main os fuse_main (progname ∷ (dbfs_scheme ++ (colon ∷ rl)) ∷ mountpoint ∷ rest) s
            ≡ fuse_main (some (dbfs_store os)) (progname ∷ mountpoint ∷ rest) t)
        × (mf_getattr os (some (dbfs_store os)) root_path t
            ≡ returns (
              (
                minus success,
                some (record {
                  st_uid = os.geteuid;
                  st_gid = os.getegid;
                  st_mtime = os.time;
                  st_ctime = os.time;
                  st_atime = os.time;
                  st_size = 0;
                  st_mode = 0o040644;
                  st_nlink = 2;
                }),
              ),
              t,
            ))
        × (t.last_inode ≡ dbfs_root_ino)
  unfolding Mkdbfs.main by_type
  mkdbfs-mf_getattr fuse_main progname rl mountpoint rest w empty =
      let s = record w { base = made os w.base } in
      let t = mounted os store reliable openable memory s first_fsinfo in
      (
        s,
        t,
        mkdbfs_lem os store reliable openable memory w empty rl,
        main_lem os fuse_main store reliable openable memory progname rl mountpoint rest s
            first_fsinfo (get-made_fsinfo os store reliable openable memory w empty),
        mf_getattr_lem os memory root_path _ t (
            get-mounted os store reliable openable memory s first_fsinfo _ (fsinfo_ne root_path)
            ∙ get-made_root os store reliable openable memory w empty),
        refl,
      )
