-- ===== src/Fuse/Data.antt =====
-- The data handlers of the FUSE file system over the dbfs store: mf_open, mf_write and mf_read.
use mangoo.Base.{ℕ, ◌+◌, ◌%◌, ◌^◌, ◌≤◌, ◌<◌, ◌≡◌, refl, true, some, List, [], arith, ltb, length}
use mangoo.Types.{
  Text, ok, success, dentry, DentryData, Handle, mangoo_stream_interface, dbfs_stream_vector,
}
use mangoo.System.{System, World, returns}
use mangoo.System.Laws.{IsStore, IsReliable, HasMemory}
use mangoo.Handle.Life.{fresh_handle, dbfs_createhandle_lem, leaked}
use mangoo.Attr.{dbfs_read_attr}
use mangoo.Stream.Interface.{dbfs_sopen, dbfs_read, dbfs_write}
use mangoo.Stream.Content.{HasBlocks}
use mangoo.Stream.Blocks.{max_transfer}
use mangoo.Stream.RoundTrip.{dbfs_read-write}
use mangoo.Dbfs.{dbfs_open}
use mangoo.Api.{dbfs_msops, as_stream, dbfs_stream_ops}
use mangoo.Api.Store.{dbfs_store, mangoo_open, through}
use mangoo.Api.Stream.{mstream_read, mstream_write}
use mangoo.Fuse.{minus, counted, mf_open, mf_read, mf_write, env_open, with_open}

-- The handle that dbfs_sopen returns.
abbrev pub stream_handle : Text → DentryData → Handle
stream_handle path ddd = record (fresh_handle path) {
  mh_interface = mangoo_stream_interface;
  mh_fvector = dbfs_stream_vector;
  attr_ddd = ddd;
}

-- The database environment can be opened, which mf_read and mf_write do at each call.
pub record HasEnvironment (os : System) : Type 0 where
  pub env_created : os.env_create ≡ ok tt
  pub home_opened : os.env_open_home ≡ ok tt

module _ (os : System) where
  pub env_open_lem : (w : World os.State) → HasEnvironment os → env_open os w ≡ returns (tt, w)
  unfolding env_open
  env_open_lem w env = rw (env.env_created, env.home_opened)

  -- mf_read from an offset behind the end of the file, where the environment opens: no byte is put
  -- into the buffer, and yet the answer counts all that were asked for.
  pub mf_read_past_end :
      (dh : Handle) (size offset : ℕ) (w : World os.State)
      → HasEnvironment os
      → dh.mh_fvector ≡ dbfs_stream_vector
      → dh.attr_ddd.ddd_size < offset
      → size < 2 ^ 31
      → mf_read os (some dh) size offset w ≡ returns ((counted size, []), w)
  unfolding mf_read mstream_read as_stream dbfs_stream_ops dbfs_read
  mf_read_past_end dh size offset w env table past small =
      let whole : size % 2 ^ 32 ≡ size = omega arith in
      let behind : ltb dh.attr_ddd.ddd_size offset ≡ true = ground arith in
      rw (env_open_lem w env) (rw table (rw behind (rw whole)))

module _ (os : System) (memory : HasMemory os.platform) where
  pub mf_open_lem :
      (path : Text) (ddd : DentryData) (w : World os.State)
      → os.get w.base (dentry path) ≡ ok ddd
      → mf_open os (some (dbfs_store os)) path w
        ≡ returns ((minus success, some (stream_handle path ddd)), leaked w)
  unfolding mf_open with_open mangoo_open through dbfs_store dbfs_msops dbfs_open dbfs_sopen
      dbfs_read_attr
  mf_open_lem path ddd w g = rw (dbfs_createhandle_lem os path w memory) (rw g)

  module _ (store : IsStore os.berkeley) (reliable : IsReliable os.berkeley)
      (env : HasEnvironment os) where
    pub mf_write_run :
        (dh dh' : Handle) (buf : List ℕ) (n offset : ℕ) (w w' : World os.State)
        → dh.mh_fvector ≡ dbfs_stream_vector
        → n < 2 ^ 31
        → dbfs_write os dh buf n offset w ≡ returns ((success, n, dh'), w')
        → mf_write os (some dh) buf n offset w ≡ returns ((counted n, some dh'), w')
    unfolding mf_write mstream_write as_stream dbfs_stream_ops
    mf_write_run dh dh' buf n offset w w' table small run =
        let whole : n % 2 ^ 32 ≡ n = omega arith in
        rw (env_open_lem os w env) (rw table (rw run (rw whole)))

    pub mf_read_run :
        (dh : Handle) (bytes : List ℕ) (n offset : ℕ) (w : World os.State)
        → dh.mh_fvector ≡ dbfs_stream_vector
        → n < 2 ^ 31
        → dbfs_read os dh n offset w
          ≡ returns (record { error = success; bytes = bytes; count = n }, w)
        → mf_read os (some dh) n offset w ≡ returns ((counted n, bytes), w)
    unfolding mf_read mstream_read as_stream dbfs_stream_ops
    mf_read_run dh bytes n offset w table small run =
        let whole : n % 2 ^ 32 ≡ n = omega arith in
        rw (env_open_lem os w env) (rw table (rw run (rw whole)))

    -- For a path with a record, on a machine that does not fail and where the environment opens and
    -- every stored block is whole: mf_open answers 0 with a handle, mf_write of fewer than 2^31
    -- bytes through it, up to the offset 2^63, answers their number, and mf_read of the same range
    -- through the handle that the write leaves answers the same number, with the bytes that were
    -- written.
    pub mf_write-mf_read :
        (path : Text) (ddd : DentryData) (buf : List ℕ) (offset : ℕ) (w : World os.State)
        → os.get w.base (dentry path) ≡ ok ddd
        → HasBlocks os w.base
        → offset + length buf ≤ max_transfer
        → length buf < 2 ^ 31
        → (dh dh' : Handle) × (u v : World os.State) × (mf_open os (some (dbfs_store os)) path w
            ≡ returns ((minus success, some dh), u))
          × (mf_write os (some dh) buf (length buf) offset u
              ≡ returns ((counted (length buf), some dh'), v))
          × (mf_read os (some dh') (length buf) offset v ≡ returns ((counted (length buf), buf), v))
    mf_write-mf_read path ddd buf offset w g h m small =
        let dh = stream_handle path ddd in
        let (dh', v, written, read, _, _, table) =
          dbfs_read-write os store reliable memory dh path buf offset (leaked w) refl h m in
        (
          dh,
          dh',
          leaked w,
          v,
          mf_open_lem path ddd w g,
          mf_write_run dh dh' buf (length buf) offset (leaked w) v refl small written,
          mf_read_run dh' buf (length buf) offset v table small read,
        )
