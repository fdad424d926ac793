-- ===== src/Api/Mounting.antt =====
-- mangoo_initstore and mangoo_closestore on the dbfs store, where the machine does not fail.
use mangoo.Base.{◌≡◌, some}
use mangoo.Types.{Text, FsinfoData, success, ok, fsinfo}
use mangoo.System.{System, World, returns}
use mangoo.System.Laws.{IsStore, IsReliable, IsOpenable, HasMemory}
use mangoo.Api.{dbfs_msops}
use mangoo.Api.Store.{mangoo_initstore, mangoo_closestore, dbfs_scheme, dbfs_store, call}
use mangoo.Dbfs.{dbfs_closestore}
use mangoo.Dbfs.Mount.{mounted, dbfs_initstore_lem}

module _ (os : System) (openable : IsOpenable os.berkeley) where
  pub mangoo_closestore_lem :
      (w : World os.State) → mangoo_closestore os (dbfs_store os) w ≡ returns (success, w)
  unfolding mangoo_closestore call dbfs_closestore dbfs_store dbfs_msops
  mangoo_closestore_lem w = rw (openable.db_closed w.base)

module _ (os : System) (store : IsStore os.berkeley) (reliable : IsReliable os.berkeley)
    (openable : IsOpenable os.berkeley) (memory : HasMemory os.platform) where
  pub mangoo_initstore_lem :
      (rl : Text) (w : World os.State) (dfd : FsinfoData)
      → os.get w.base fsinfo ≡ ok dfd
      → mangoo_initstore os dbfs_scheme rl w
        ≡ returns ((success, some (dbfs_store os)), mounted os store reliable openable memory w dfd)
  unfolding mangoo_initstore dbfs_msops call
  mangoo_initstore_lem rl w dfd g =
      rw (dbfs_initstore_lem os store reliable openable memory rl w dfd g)
