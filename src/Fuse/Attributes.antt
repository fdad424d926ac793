-- ===== src/Fuse/Attributes.antt =====
-- The attribute handlers of the FUSE file system over the dbfs store: mf_getattr and mf_chmod.
use Prim.Native.Nat.{bit_or}
use mangoo.Base.{
  ℕ, ◌+◌, ◌-◌, ◌≡◌, ap, ◌≢◌, inl, inr, Option, none, some, arith, ◌==◌, if◌then◌else◌, Bool-cases,
}
use mangoo.Types.{
  DbError, not_found, enoent, MangooTypes, Text, Key, ok, err, success, einval, dentry, DentryData,
  Handle, mangoo_attr_interface, mangoo_data, mangoo_container, dbfs_attr_vector,
}
use mangoo.System.{System, World, Memory, returns, overwrite}
use mangoo.System.Laws.{IsStore, HasMemory}
use mangoo.Handle.{dbfs_freehandle, free_key, free_locator, free_struct, close_cursor}
use mangoo.Handle.Life.{fresh_handle, plus_handle, dbfs_createhandle_lem, leaked}
use mangoo.Attr.{dbfs_read_attr, dbfs_write_attr}
use mangoo.Attr.Interface.{
  dbfs_aopen, dbfs_close, save, dbfs_gettype, dbfs_getsize, dbfs_getmtime, dbfs_getatime,
  dbfs_getmode, dbfs_getuid, dbfs_getgid, dbfs_chmod,
}
use mangoo.Dbfs.{dbfs_open}
use mangoo.Api.{dbfs_msops, as_attr, dbfs_attr_ops}
use mangoo.Api.Attr.{
  set_attr, get_attr, attr_call, mattr_gettype, mattr_getsize, mattr_getmtime, mattr_getatime,
  mattr_getmode, mattr_getuid, mattr_getgid, mattr_chmod,
}
use mangoo.Fuse.{
  Answer, minus, Stat, s_ifreg, s_ifdir, mf_getattr, mf_chmod, finish_stat, close_with, get_field,
  close_stat, read_stat, with_open, change_attr,
}
use mangoo.Api.Store.{dbfs_store, mangoo_open, mangoo_close, through, call}

-- The handle that dbfs_aopen returns.
abbrev pub attr_handle : Text → DentryData → Handle
attr_handle path ddd = record (fresh_handle path) {
  mh_interface = mangoo_attr_interface;
  mh_fvector = dbfs_attr_vector;
  attr_ddd = ddd;
}

-- What dbfs_createhandle allocates and dbfs_freehandle frees.
memory_balance :
    (m : Memory)
    → record {
      handles = m.handles + 1 - 1;
      keys = m.keys + 1 - 1;
      locators = m.locators + 1 - 1;
      cursors = m.cursors + 0;
    }
      ≡ m
memory_balance m = ground arith

-- What a record says of its file, before the type is looked at.
abbrev pub stat_of : DentryData → Stat
stat_of ddd = record {
  st_uid = ddd.ddd_uid;
  st_gid = ddd.ddd_gid;
  st_mtime = ddd.ddd_mtime;
  st_ctime = ddd.ddd_mtime;
  st_atime = ddd.ddd_atime;
  st_size = ddd.ddd_size;
  st_mode = ddd.ddd_mode;
  st_nlink = 0;
}

-- The answer for a type: a file has one link, a directory two, and nothing else is known.
unfoldable pub by_type : MangooTypes → Stat → Answer × Option Stat
by_type mt st =
    if mt == mangoo_data
    then (minus success, some (record st { st_nlink = 1; st_mode = bit_or st.st_mode s_ifreg }))
    else if mt == mangoo_container
    then (minus success, some (record st { st_nlink = 2; st_mode = bit_or st.st_mode s_ifdir }))
    else (minus einval, none)

module _ (os : System) (memory : HasMemory os.platform) where
  pub mangoo_open_attr :
      (path : Text) (ddd : DentryData) (w : World os.State)
      → os.get w.base (dentry path) ≡ ok ddd
      → mangoo_open os (some (dbfs_store os)) path mangoo_attr_interface w
        ≡ returns ((success, some (attr_handle path ddd)), leaked w)
  unfolding mangoo_open through dbfs_store dbfs_msops dbfs_open dbfs_aopen dbfs_read_attr
  mangoo_open_attr path ddd w g = rw (dbfs_createhandle_lem os path w memory) (rw g)

  -- Closing an attribute handle frees what opening it has allocated.
  pub mangoo_close_attr :
      (path : Text) (ddd : DentryData) (w : World os.State)
      → mangoo_close os (some (attr_handle path ddd)) (leaked w) ≡ returns (success, w)
  unfolding mangoo_close as_attr dbfs_attr_ops call dbfs_close dbfs_freehandle close_cursor free_key
      free_locator free_struct
  mangoo_close_attr path ddd w =
      ap (λ m. returns (success, record w { mem = m })) (memory_balance w.mem)

  finish_stat_lem :
      (path : Text) (ddd : DentryData) (st : Stat) (w : World os.State)
      → finish_stat os (attr_handle path ddd) st ddd.ddd_type (leaked w)
        ≡ returns (by_type ddd.ddd_type st, w)
  unfolding finish_stat close_stat close_with by_type
  finish_stat_lem path ddd st w = elim (Bool-cases (ddd.ddd_type == mangoo_data)) [
    | inl a ↦ rw a (rw (mangoo_close_attr path ddd w))
    | inr a ↦ elim (Bool-cases (ddd.ddd_type == mangoo_container)) [
      | inl b ↦ rw (a, b) (rw (mangoo_close_attr path ddd w))
      | inr b ↦ rw (a, b) (rw (mangoo_close_attr path ddd w))
    ]
  ]

  -- mf_getattr of a path with a record answers from that record alone: 0 with its owner, times,
  -- size and mode, and the link count and the file type bit of a file or of a directory, or EINVAL
  -- if its type is neither. The database and the heap are as before.
  pub mf_getattr_lem :
      (path : Text) (ddd : DentryData) (w : World os.State)
      → os.get w.base (dentry path) ≡ ok ddd
      → mf_getattr os (some (dbfs_store os)) path w
        ≡ returns (by_type ddd.ddd_type (stat_of ddd), w)
  unfolding mf_getattr with_open read_stat get_field mattr_getuid mattr_getgid mattr_getmtime
      mattr_getatime mattr_getsize mattr_getmode mattr_gettype get_attr attr_call as_attr
      dbfs_attr_ops dbfs_getuid dbfs_getgid dbfs_getmtime dbfs_getatime dbfs_getsize dbfs_getmode
      dbfs_gettype
  mf_getattr_lem path ddd w g =
      rw (mangoo_open_attr path ddd w g) (finish_stat_lem path ddd (stat_of ddd) w)

  -- mf_getattr of a path without a record answers ENOENT and leaves a handle, its key and its
  -- locator allocated.
  pub mf_getattr_missing :
      (path : Text) (w : World os.State)
      → os.get w.base (dentry path) ≡ err not_found
      → mf_getattr os (some (dbfs_store os)) path w ≡ returns ((minus enoent, none), leaked w)
  unfolding mf_getattr with_open mangoo_open through dbfs_store dbfs_msops dbfs_open dbfs_aopen
      dbfs_read_attr
  mf_getattr_missing path w g = rw (dbfs_createhandle_lem os path w memory) (rw g)

  -- mf_chmod of a path with a record, when the database takes the write: 0 is answered and the
  -- record has the new mode, all else in the database being as before; the handle that was opened
  -- stays allocated, with its key and its locator.
  pub mf_chmod_lem :
      (path : Text) (mode : ℕ) (ddd : DentryData) (w : World os.State)
      → IsStore os.berkeley
      → os.get w.base (dentry path) ≡ ok ddd
      → (os.put w.base (dentry path) (record ddd { ddd_mode = mode }) overwrite).0 ≡ ok tt
      → (s : os.State) × (mf_chmod os (some (dbfs_store os)) path mode w
          ≡ returns (minus success, record w { base = s; mem = plus_handle w.mem 0 }))
        × (os.get s (dentry path) ≡ ok (record ddd { ddd_mode = mode }))
        × ((k : Key) → dentry path ≢ k → os.get s k ≡ os.get w.base k)
  unfolding mf_chmod change_attr with_open mattr_chmod set_attr attr_call as_attr dbfs_attr_ops
      dbfs_chmod save dbfs_write_attr
  mf_chmod_lem path mode ddd w store g stored =
      let changed = record ddd { ddd_mode = mode } in
      (
        (os.put w.base (dentry path) changed overwrite).1,
        rw (mangoo_open_attr path ddd w g) (rw stored),
        store.get-put_self w.base (dentry path) changed overwrite stored,
        λ k n. store.get-put_ne w.base (dentry path) k changed overwrite n,
      )

  -- mf_chmod of a path with a record, when the database refuses the write: 0 is answered although
  -- no record has changed; the heap is as before.
  pub mf_chmod_refused :
      (path : Text) (mode : ℕ) (ddd : DentryData) (e : DbError) (w : World os.State)
      → IsStore os.berkeley
      → os.get w.base (dentry path) ≡ ok ddd
      → (os.put w.base (dentry path) (record ddd { ddd_mode = mode }) overwrite).0 ≡ err e
      → (s : os.State) × (mf_chmod os (some (dbfs_store os)) path mode w
          ≡ returns (minus success, record w { base = s }))
        × ((k : Key) → os.get s k ≡ os.get w.base k)
  unfolding mf_chmod change_attr with_open mattr_chmod set_attr attr_call as_attr dbfs_attr_ops
      dbfs_chmod save dbfs_write_attr
  mf_chmod_refused path mode ddd e w store g refused =
      let changed = record ddd { ddd_mode = mode } in
      let s = (os.put w.base (dentry path) changed overwrite).1 in
      (
        s,
        rw (mangoo_open_attr path ddd w g)
            (rw refused (rw (mangoo_close_attr path changed (record w { base = s })))),
        λ k. store.get-put_failed w.base (dentry path) k changed overwrite e refused,
      )
