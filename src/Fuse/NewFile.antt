-- ===== src/Fuse/NewFile.antt =====
-- A file or a directory that the FUSE file system has just made: mf_create and mf_mkdir, then
-- mf_write, mf_read and mf_getattr.
use Prim.Native.Nat.{bit_or}
use mangoo.Base.{ℕ, ◌+◌, ◌^◌, ◌≤◌, ◌<◌, ◌≡◌, refl, ap, ◌∙◌, some, List, arith, length}
use mangoo.Types.{
  Text, dentry, ok, err, not_found, success, DentryData, Handle, mangoo_data, mangoo_container,
  MangooTypes,
}
use mangoo.Whole.{put-HasBlocks}
use mangoo.Stream.RoundTrip.{dbfs_read-write, dbfs_write_lem}
use mangoo.System.{no_overwrite, System, World, returns}
use mangoo.System.Laws.{IsStore, IsReliable, HasMemory}
use mangoo.Handle.Life.{leaked}
use mangoo.Attr.{new_dentry}
use mangoo.Stream.Interface.{grown}
use mangoo.Stream.Content.{HasBlocks}
use mangoo.Stream.Blocks.{max_transfer}
use mangoo.Dbfs.Create.{put_new, inode_taken, dbfs_create_lem, get-created}
use mangoo.Api.{dbfs_msops}
use mangoo.Api.Store.{dbfs_store, mangoo_create, through}
use mangoo.Fuse.{
  minus, counted, s_ifreg, s_ifdir, mf_create, mf_mkdir, mf_write, mf_read, mf_getattr,
}
use mangoo.Fuse.Attributes.{mf_getattr_lem, by_type}
use mangoo.Fuse.Data.{HasEnvironment, mf_write_run, mf_read_run, mf_open_lem, stream_handle}

module _ (os : System) (store : IsStore os.berkeley) (reliable : IsReliable os.berkeley)
    (memory : HasMemory os.platform) where
  -- The world after a file has been made.
  abbrev after_create : Text → ℕ → MangooTypes → World os.State → World os.State
  after_create path mode mt w = record (inode_taken w) {
    base = put_new os w.base path (new_dentry os mt mode w.last_inode);
  }

  mangoo_create_lem :
      (path : Text) (mode : ℕ) (mt : MangooTypes) (w : World os.State)
      → os.get w.base (dentry path) ≡ err not_found
      → mangoo_create os (some (dbfs_store os)) path mode mt w
        ≡ returns (success, after_create path mode mt w)
  unfolding mangoo_create through dbfs_store dbfs_msops
  mangoo_create_lem path mode mt w g = dbfs_create_lem os store reliable memory path mode mt w g

  mf_create_lem :
      (path : Text) (mode : ℕ) (w : World os.State)
      → os.get w.base (dentry path) ≡ err not_found
      → mf_create os (some (dbfs_store os)) path mode w
        ≡ returns (
          (minus success, some (stream_handle path (new_dentry os mangoo_data mode w.last_inode))),
          leaked (after_create path mode mangoo_data w),
        )
  unfolding mf_create
  mf_create_lem path mode w g = rw (mangoo_create_lem path mode mangoo_data w g) (
      mf_open_lem os memory path (new_dentry os mangoo_data mode w.last_inode)
        (after_create path mode mangoo_data w)
        (get-created os store reliable memory path (new_dentry os mangoo_data mode w.last_inode)
          w.base g))

  mf_mkdir_lem :
      (path : Text) (mode : ℕ) (w : World os.State)
      → os.get w.base (dentry path) ≡ err not_found
      → mf_mkdir os (some (dbfs_store os)) path mode w
        ≡ returns (minus success, after_create path mode mangoo_container w)
  unfolding mf_mkdir
  mf_mkdir_lem path mode w g = rw (mangoo_create_lem path mode mangoo_container w g)

  -- mf_mkdir of a path without a record, on a machine that does not fail, answers 0, and mf_getattr
  -- of the path then answers 0, with the user and the time of the call, the size 0, the mode of the
  -- call as that of a directory and two links, and changes nothing.
  pub mf_mkdir-mf_getattr :
      (path : Text) (mode : ℕ) (w : World os.State)
      → os.get w.base (dentry path) ≡ err not_found
      → (w' : World os.State) × (mf_mkdir os (some (dbfs_store os)) path mode w
          ≡ returns (minus success, w'))
        × (mf_getattr os (some (dbfs_store os)) path w'
            ≡ returns (
              (
                minus success,
                some (record {
                  st_uid = os.geteuid;
                  st_gid = os.getegid;
                  st_mtime = os.time;
                  st_ctime = os.time;
                  st_atime = os.time;
                  st_size = 0;
                  st_mode = bit_or mode s_ifdir;
                  st_nlink = 2;
                }),
              ),
              w',
            ))
  unfolding by_type new_dentry
  mf_mkdir-mf_getattr path mode w g =
      let ddd = new_dentry os mangoo_container mode w.last_inode in
      let w' = after_create path mode mangoo_container w in
      (
        w',
        mf_mkdir_lem path mode w g,
        mf_getattr_lem os memory path ddd w'
            (get-created os store reliable memory path ddd w.base g),
      )

  -- The record of a new file when it has grown.
  abbrev sized : DentryData → ℕ → DentryData
  sized ddd size = record ddd { ddd_size = size }

  grown_new :
      (path : Text) (ddd : DentryData) (end : ℕ)
      → ddd.ddd_size ≡ 0
      → (grown (stream_handle path ddd) end).attr_ddd ≡ sized ddd end
  unfolding grown
  grown_new path ddd end e = ground arith

  module _ (env : HasEnvironment os) where
    -- For a path without a record, on a machine that does not fail and where the environment opens
    -- and every stored block is whole: mf_create answers 0 with a handle, mf_write of fewer than
    -- 2^31 bytes through it, up to the offset 2^63, answers their number, mf_read of the same range
    -- answers the same number with the bytes that were written, and mf_getattr of the path answers 0
    -- with the end of the range as the size, the mode of the call as that of a file, one link, and
    -- the user and the time of the call.
    pub mf_create-mf_write :
        (path : Text) (mode : ℕ) (buf : List ℕ) (offset : ℕ) (w : World os.State)
        → os.get w.base (dentry path) ≡ err not_found
        → HasBlocks os w.base
        → offset + length buf ≤ max_transfer
        → length buf < 2 ^ 31
        → (dh dh' : Handle) × (u v : World os.State) × (mf_create os
              (some (dbfs_store os))
              path
              mode
              w
            ≡ returns ((minus success, some dh), u))
          × (mf_write os (some dh) buf (length buf) offset u
              ≡ returns ((counted (length buf), some dh'), v))
          × (mf_read os (some dh') (length buf) offset v ≡ returns ((counted (length buf), buf), v))
          × (mf_getattr os (some (dbfs_store os)) path v
              ≡ returns (
                (
                  minus success,
                  some (record {
                    st_uid = os.geteuid;
                    st_gid = os.getegid;
                    st_mtime = os.time;
                    st_ctime = os.time;
                    st_atime = os.time;
                    st_size = offset + length buf;
                    st_mode = bit_or mode s_ifreg;
                    st_nlink = 1;
                  }),
                ),
                v,
              ))
    unfolding by_type new_dentry
    mf_create-mf_write path mode buf offset w g h m small =
        let ddd = new_dentry os mangoo_data mode w.last_inode in
        let dh = stream_handle path ddd in
        let u = leaked (after_create path mode mangoo_data w) in
        let whole : HasBlocks os u.base =
          put-HasBlocks os store w.base (dentry path) ddd no_overwrite (λ i o e. absurd (cc)) h in
        let (dh', v, written, read, stored, _, table) =
          dbfs_read-write os store reliable memory dh path buf offset u refl whole m in
        let (s, run, _, _) =
          dbfs_write_lem os store reliable memory dh path buf offset u refl whole m in
        let same : dh' ≡ grown dh (offset + length buf) = cc (written, run) in
        let attrs : dh'.attr_ddd ≡ sized ddd (offset + length buf) =
          ap (λ (d : Handle). d.attr_ddd) same ∙ grown_new path ddd (offset + length buf) refl in
        (
          dh,
          dh',
          u,
          v,
          mf_create_lem path mode w g,
          mf_write_run os memory store reliable env dh dh' buf (length buf) offset u v refl small
              written,
          mf_read_run os memory store reliable env dh' buf (length buf) offset v table small read,
          mf_getattr_lem os memory path (sized ddd (offset + length buf)) v (stored ∙ ap ok attrs),
        )
