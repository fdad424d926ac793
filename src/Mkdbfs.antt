-- ===== src/Mkdbfs.antt =====
-- The program that makes an empty store: main of stores/dbfs/mkdbfs.c, over the database file
-- that it creates.
pub mod FirstFile
use mangoo.Base.{ℕ, List, [], ◌∷◌, if◌then◌else◌}
use mangoo.Types.{Text, slash, ok, err, success, dbfs_root_ino, dbfs_ddk_size, mangoo_container}
use mangoo.System.{System, M, pure, undefined_behaviour, gets, ◌>>=◌, ◌>>◌}
use mangoo.Attr.{dbfs_create_attr}
use mangoo.Fsinfo.{dbfs_create_fsinfo}

-- S_IRUSR | S_IWUSR | S_IRGRP | S_IROTH
abbrev pub root_mode : ℕ
root_mode = 0o644

abbrev pub root_path : Text
root_path = slash ∷ []

module _ (os : System) where
  -- Between open and close: the root directory, then the file system information.
  unfoldable pub make_root : M os (Unit {0})
  unfolding dbfs_create_attr dbfs_create_fsinfo
  make_root =
      if os.malloc (dbfs_ddk_size root_path)
      then (do
        error ← dbfs_create_attr os root_path mangoo_container root_mode dbfs_root_ino
        elim error [
          | success ↦ (do dbfs_create_fsinfo os (record { dfd_lastino = dbfs_root_ino }); pure tt)
          | e ↦ pure tt
        ])
      else pure tt

  -- With one argument. The exit status is 0 on every path.
  unfoldable pub mkdbfs : Text → M os ℕ
  unfolding make_root
  mkdbfs dbname = elim (os.db_create) [
    | err e ↦ pure 0
    | ok _ ↦ (do
      compared ← gets (λ w. os.set_bt_compare w.base)
      elim compared [
        | err e ↦ pure 0
        | ok _ ↦ (do
          opened ← gets (λ w. os.open_db dbname w.base)
          elim opened [
            | err e ↦ pure 0
            | ok _ ↦ (do make_root; closed ← gets (λ w. os.close_db w.base); pure 0)
          ])
      ])
  ]

  -- argv[1] is read before the number of arguments is tested.
  unfoldable pub main : List Text → M os ℕ
  unfolding mkdbfs
  main [] = undefined_behaviour
  main (progname ∷ []) = pure 0
  main (progname ∷ dbname ∷ []) = mkdbfs dbname
  main (progname ∷ dbname ∷ extra ∷ rest) = pure 0
