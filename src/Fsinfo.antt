-- ===== src/Fsinfo.antt =====
-- The file system information record: stores/dbfs/fsinfo.c.
use mangoo.Base.{Bool, true, false, if◌then◌else◌}
use mangoo.Types.{ok, err, Code, success, eio, fsinfo, FsinfoData}
use mangoo.System.{System, M, pure, gets, db_call, overwrite, no_overwrite, ◌>>=◌}

module _ (os : System) where
  unfoldable pub dbfs_crupd_fsinfo : FsinfoData → Bool → M os Code
  dbfs_crupd_fsinfo dfd create = do
    reply ← db_call (λ s. os.put s fsinfo dfd (if create then no_overwrite else overwrite))
    elim reply [ ok _ ↦ pure success | err e ↦ pure eio ]

  unfoldable pub dbfs_update_fsinfo : FsinfoData → M os Code
  unfolding dbfs_crupd_fsinfo
  dbfs_update_fsinfo dfd = dbfs_crupd_fsinfo dfd false

  unfoldable pub dbfs_create_fsinfo : FsinfoData → M os Code
  unfolding dbfs_crupd_fsinfo
  dbfs_create_fsinfo dfd = dbfs_crupd_fsinfo dfd true

  -- The structure that is passed in is filled only if the record was found.
  unfoldable pub dbfs_fetch_fsinfo : FsinfoData → M os (Code × FsinfoData)
  dbfs_fetch_fsinfo dfd = do
    reply ← gets (λ w. os.get w.base fsinfo)
    elim reply [ ok stored ↦ pure (success, stored) | err e ↦ pure (eio, dfd) ]
