-- ===== src/Samp/Buffer.antt =====
-- How much of a file sampread can take.
use mangoo.Base.{◌-◌, ◌≤◌, ◌<◌, min, ◌≡◌, ◌∙◌, true, some, arith, ltb, length}
use mangoo.Types.{
  Text, FsinfoData, DentryData, dentry, fsinfo, ok, success, mangoo_stream_interface,
}
use mangoo.System.{System, World, returns, undefined, overwrite}
use mangoo.System.Laws.{IsStore, IsReliable, IsOpenable, HasMemory}
use mangoo.Handle.Life.{leaked, dbfs_createhandle_lem}
use mangoo.Attr.{dbfs_read_attr}
use mangoo.Stream.Blocks.{max_transfer}
use mangoo.Stream.Content.{HasBlocks, bytes_from, length-bytes_from}
use mangoo.Stream.Interface.{dbfs_sopen}
use mangoo.Stream.Bounds.{dbfs_read_bounds}
use mangoo.Dbfs.{dbfs_open}
use mangoo.Dbfs.Create.{fsinfo_ne}
use mangoo.Dbfs.Mount.{mounted, next_range, get-mounted}
use mangoo.Api.{dbfs_msops, as_stream, dbfs_stream_ops}
use mangoo.Api.Mounting.{mangoo_initstore_lem}
use mangoo.Api.Store.{dbfs_store, mangoo_open, through}
use mangoo.Api.Stream.{mstream_read}
use mangoo.Fuse.Data.{HasEnvironment, env_open_lem, stream_handle}
use mangoo.Whole.{put-HasBlocks}
use mangoo.Samp.{dbfs_vol, sampread, read_opened, read_whole, newfile}

module _ (os : System) (store : IsStore os.berkeley) (reliable : IsReliable os.berkeley)
    (openable : IsOpenable os.berkeley) (memory : HasMemory os.platform)
    (env : HasEnvironment os) where
  pub open_stream :
      (path : Text) (ddd : DentryData) (w : World os.State)
      → os.get w.base (dentry path) ≡ ok ddd
      → mangoo_open os (some (dbfs_store os)) path mangoo_stream_interface w
        ≡ returns ((success, some (stream_handle path ddd)), leaked w)
  unfolding mangoo_open through dbfs_store dbfs_msops dbfs_open dbfs_sopen dbfs_read_attr
  open_stream path ddd w g = rw (dbfs_createhandle_lem os path w memory) (rw g)

  read_whole_long :
      (path : Text) (ddd : DentryData) (w : World os.State)
      → HasBlocks os w.base
      → 30 < ddd.ddd_size
      → ddd.ddd_size ≤ max_transfer
      → read_whole os (stream_handle path ddd) w ≡ undefined
  unfolding read_whole mstream_read as_stream dbfs_stream_ops
  read_whole_long path ddd w h long m =
      let n = min ddd.ddd_size (ddd.ddd_size - 0) in
      let (run, _, _) =
        dbfs_read_bounds os (stream_handle path ddd) ddd.ddd_size 0 w reliable h (omega arith)
          (omega arith) m in
      let over : ltb 30 (length (bytes_from os w.base ddd.ddd_ino 0 n)) ≡ true =
        ground (arith, length-bytes_from os w.base ddd.ddd_ino 0 n) in
      rw (env_open_lem os w env) (rw run (rw over))

  -- A store that holds /newfile with more than 30 bytes, at most 2^63, on a machine that does not
  -- fail, where the environment opens and every stored block is whole: sampread writes past the end
  -- of its buffer, which is undefined behaviour.
  pub sampread_overflows :
      (w : World os.State) (dfd : FsinfoData) (ddd : DentryData)
      → os.get w.base fsinfo ≡ ok dfd
      → os.get w.base (dentry newfile) ≡ ok ddd
      → HasBlocks os w.base
      → 30 < ddd.ddd_size
      → ddd.ddd_size ≤ max_transfer
      → sampread os w ≡ undefined
  unfolding sampread read_opened
  sampread_overflows w dfd ddd f g h long m =
      let u = mounted os store reliable openable memory w dfd in
      let stored : os.get u.base (dentry newfile) ≡ ok ddd =
        get-mounted os store reliable openable memory w dfd (dentry newfile) (fsinfo_ne newfile)
        ∙ g in
      let whole : HasBlocks os u.base =
        put-HasBlocks os store w.base fsinfo (next_range dfd) overwrite (λ i o e. absurd (cc)) h in
      rw (mangoo_initstore_lem os store reliable openable memory dbfs_vol w dfd f) (
        rw (open_stream newfile ddd u stored)
          (rw (read_whole_long newfile ddd (leaked u) whole long m)))
