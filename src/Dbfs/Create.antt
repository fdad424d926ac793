-- ===== src/Dbfs/Create.antt =====
-- dbfs_create: the record of a new file, and the inode numbers.
use mangoo.Base.{ℕ, ◌+◌, ◌%◌, ◌^◌, ◌≡◌, refl, ◌≢◌, some, arith}
use mangoo.Types.{
  fsinfo, Text, Key, ok, err, not_found, success, einval, dentry, DentryData, dbfs_ddk_size,
  MangooTypes, mangoo_attr_interface, key_exist, dbfs_attr_vector,
}
use mangoo.System.{System, World, returns, no_overwrite}
use mangoo.System.Laws.{IsReliable, IsStore, HasMemory}
use mangoo.Attr.{dbfs_create_attr, new_dentry}
use mangoo.Handle.Life.{fresh_handle, plus_handle, dbfs_createhandle_lem}
use mangoo.Attr.{dbfs_read_attr}
use mangoo.Attr.Interface.{dbfs_aopen}
use mangoo.Dbfs.{dbfs_create, next_inode}

-- The world when an inode number has been taken.
abbrev pub inode_taken : {S : Type 0} → World S → World S
inode_taken w = record w { last_inode = (w.last_inode + 1) % 2 ^ 64 }

pub fsinfo_ne : (path : Text) → fsinfo ≢ dentry path
fsinfo_ne path e = absurd (cc)

module _ (os : System) where
  -- The database after a record has been put where there is none.
  abbrev pub put_new : os.State → Text → DentryData → os.State
  put_new s path ddd = (os.put s (dentry path) ddd no_overwrite).1

module _ (os : System) (store : IsStore os.berkeley) (reliable : IsReliable os.berkeley)
    (memory : HasMemory os.platform) where
  pub dbfs_create_lem :
      (path : Text) (mode : ℕ) (mt : MangooTypes) (w : World os.State)
      → os.get w.base (dentry path) ≡ err not_found
      → dbfs_create os path mode mt w
        ≡ returns (
          success,
          record (inode_taken w) {
            base = put_new os w.base path (new_dentry os mt mode w.last_inode);
          },
        )
  unfolding dbfs_create next_inode dbfs_create_attr
  dbfs_create_lem path mode mt w g = ground (
    arith,
    memory.malloc_succeeds (dbfs_ddk_size path),
    reliable.put_absent w.base (dentry path) (new_dentry os mt mode w.last_inode) g,
  )

  pub dbfs_create_exists :
      (path : Text) (mode : ℕ) (mt : MangooTypes) (w : World os.State) (ddd : DentryData)
      → os.get w.base (dentry path) ≡ ok ddd
      → dbfs_create os path mode mt w
        ≡ returns (
          einval,
          record (inode_taken w) {
            base = put_new os w.base path (new_dentry os mt mode w.last_inode);
          },
        )
  unfolding dbfs_create next_inode dbfs_create_attr
  dbfs_create_exists path mode mt w ddd g = ground (
    arith,
    memory.malloc_succeeds (dbfs_ddk_size path),
    store.put_exists w.base (dentry path) ddd (new_dentry os mt mode w.last_inode) g,
  )

  -- The record of a created file.
  pub get-created :
      (path : Text) (ddd : DentryData) (s : os.State)
      → os.get s (dentry path) ≡ err not_found
      → os.get (put_new os s path ddd) (dentry path) ≡ ok ddd
  get-created path ddd s g =
      store.get-put_self s (dentry path) ddd no_overwrite
        (reliable.put_absent s (dentry path) ddd g)

  -- Creating a path without a record, on a machine that does not fail, returns 0, takes the next
  -- inode number and stores a record of size 0 with that number, the mode and the type, and the
  -- time and the user of the call; opening the attributes of the path then returns a handle with
  -- that record. No other record changes.
  pub dbfs_create-aopen :
      (path : Text) (mode : ℕ) (mt : MangooTypes) (w : World os.State)
      → os.get w.base (dentry path) ≡ err not_found
      → let ddd : DentryData = record {
        ddd_type = mt;
        ddd_mode = mode;
        ddd_ino = w.last_inode;
        ddd_size = 0;
        ddd_mtime = os.time;
        ddd_atime = os.time;
        ddd_uid = os.geteuid;
        ddd_gid = os.getegid;
      } in
        (w' : World os.State) × (dbfs_create os path mode mt w ≡ returns (success, w'))
        × (dbfs_aopen os path w'
            ≡ returns (
              (
                success,
                some (record (fresh_handle path) {
                  mh_interface = mangoo_attr_interface;
                  mh_fvector = dbfs_attr_vector;
                  attr_ddd = ddd;
                }),
              ),
              record w' { mem = plus_handle w'.mem 0 },
            ))
        × (w'.last_inode ≡ (w.last_inode + 1) % 2 ^ 64)
        × ((k : Key) → dentry path ≢ k → os.get w'.base k ≡ os.get w.base k)
  unfolding dbfs_aopen dbfs_read_attr new_dentry
  dbfs_create-aopen path mode mt w g =
      let ddd = new_dentry os mt mode w.last_inode in
      (
        record (inode_taken w) { base = put_new os w.base path ddd },
        dbfs_create_lem path mode mt w g,
        rw
            (dbfs_createhandle_lem os path
              (record (inode_taken w) { base = put_new os w.base path ddd }) memory)
            (rw (get-created path ddd w.base g)),
        refl,
        λ k n. store.get-put_ne w.base (dentry path) k ddd no_overwrite n,
      )

  -- Creating a path that has a record returns EINVAL and changes no record, but takes an inode
  -- number.
  pub dbfs_create-existing :
      (path : Text) (mode : ℕ) (mt : MangooTypes) (w : World os.State) (ddd : DentryData)
      → os.get w.base (dentry path) ≡ ok ddd
      → (w' : World os.State) × (dbfs_create os path mode mt w ≡ returns (einval, w'))
        × (w'.last_inode ≡ (w.last_inode + 1) % 2 ^ 64)
        × ((k : Key) → os.get w'.base k ≡ os.get w.base k)
  dbfs_create-existing path mode mt w ddd g =
      let new = new_dentry os mt mode w.last_inode in
      (
        record (inode_taken w) { base = put_new os w.base path new },
        dbfs_create_exists path mode mt w ddd g,
        refl,
        λ k.
            store.get-put_failed w.base (dentry path) k new no_overwrite key_exist
              (store.put_exists w.base (dentry path) ddd new g),
      )
