-- ===== src/Samp/Session.antt =====
-- The offset that samp/myapp.c leaves in "/.newoffset" and takes up again.
use mathlib.Core.Path.{subst}
use mangoo.Base.{
  ℕ, suc, ◌+◌, ◌-◌, ◌%◌, ◌^◌, ◌≤◌, ◌<◌, min, ◌≡◌, refl, sym, ◌∙◌, true, false, some, [], ◌∷◌, ◌++◌,
  arith, ltb, length, length-append,
}
use mangoo.Types.{
  Text, ok, dentry, success, DentryData, Handle, mangoo_stream_interface, dbfs_stream_vector,
}
use mangoo.System.{System, World, returns, exits, overwrite}
use mangoo.System.Laws.{IsStore, IsReliable, IsOpenable, HasMemory}
use mangoo.Handle.{free_struct}
use mangoo.Handle.Life.{leaked}
use mangoo.Stream.Interface.{dbfs_read, dbfs_write, dbfs_close, grown}
use mangoo.Stream.Blocks.{max_transfer}
use mangoo.Stream.Content.{HasBlocks}
use mangoo.Stream.RoundTrip.{saved, get-saved, dbfs_write_lem, grown_size}
use mangoo.Stream.Written.{IsWritten}
use mangoo.Stream.Bounds.{dbfs_read_bounds}
use mangoo.Stream.ReadBack.{bytes_from-written, last_error-stored, bytes_from-same, last_error-same}
use mangoo.Api.{as_stream, dbfs_stream_ops}
use mangoo.Api.Mounting.{mangoo_closestore_lem}
use mangoo.Api.Store.{dbfs_store, mangoo_close, call}
use mangoo.Api.Stream.{mstream_read, mstream_write}
use mangoo.Fuse.{with_open}
use mangoo.Fuse.Data.{HasEnvironment, env_open_lem, stream_handle}
use mangoo.Samp.Buffer.{open_stream}
use mangoo.Samp.Scan.{print_offset, atoi}
use mangoo.Samp.Number.{atoi-print_offset, length-print_offset}
use mangoo.Samp.Shell.{
  newoffset, write_text, read_buffer, number_in, sampwrite, getdata, leave_shell, save_offset,
}

ltb_below : (a b : ℕ) → a < b → ltb a b ≡ true
ltb_below a b h = ground arith

module _ (os : System) (store : IsStore os.berkeley) (reliable : IsReliable os.berkeley)
    (openable : IsOpenable os.berkeley) (memory : HasMemory os.platform)
    (env : HasEnvironment os) where
  -- Closing a stream frees the structure.
  abbrev freed : World os.State → World os.State
  freed w = record w { mem = record w.mem { handles = w.mem.handles - 1 } }

  close_stream :
      (dh : Handle) (w : World os.State)
      → dh.mh_interface ≡ mangoo_stream_interface
      → dh.mh_fvector ≡ dbfs_stream_vector
      → mangoo_close os (some dh) w ≡ returns (success, freed w)
  unfolding mangoo_close as_stream dbfs_stream_ops call dbfs_close free_struct
  close_stream dh w e f = rw (e, f)

  write_text_lem :
      (dh dh' : Handle) (buf : Text) (offset k : ℕ) (w w' : World os.State)
      → dh.mh_fvector ≡ dbfs_stream_vector
      → dbfs_write os dh (buf ++ 0 ∷ []) (length buf + 1) offset w ≡ returns ((success, k, dh'), w')
      → dh'.mh_interface ≡ mangoo_stream_interface
      → dh'.mh_fvector ≡ dbfs_stream_vector
      → write_text os dh buf offset w ≡ returns ((offset + length buf) % 2 ^ 64, freed w')
  unfolding write_text mstream_write as_stream dbfs_stream_ops
  write_text_lem dh dh' buf offset k w w' table run interface table' =
      rw (env_open_lem os w env) (rw table (rw run (rw (close_stream dh' w' interface table'))))

  -- What was written from the start of a file is the whole file that a new handle reads.
  read_written :
      (path : Text) (ddd : DentryData) (buf : Text) (s s' : os.State) (x : World os.State)
      → IsWritten os s s' ddd.ddd_ino 0 buf
      → HasBlocks os (saved os store reliable memory s' path ddd)
      → ddd.ddd_size ≡ length buf
      → length buf ≤ max_transfer
      → let w = record x { base = saved os store reliable memory s' path ddd } in
        dbfs_read os (stream_handle path ddd) ddd.ddd_size 0 w
        ≡ returns (record { error = success; bytes = buf; count = length buf }, w)
  read_written path ddd buf s s' x v whole size m =
      let t = saved os store reliable memory s' path ddd in
      let w : World os.State = record x { base = t } in
      let ino = ddd.ddd_ino in
      let n = length buf in
      let same = get-saved os store reliable memory s' path ddd ino in
      let (run, _, _) =
        dbfs_read_bounds os (stream_handle path ddd) ddd.ddd_size 0 w reliable whole (omega arith)
          (omega arith) (omega arith) in
      let all : min ddd.ddd_size (ddd.ddd_size - 0) ≡ n = omega arith in
      (rw all at run) ∙ λ i. returns (
        record {
          error = (last_error-same os same 0 n ∙ last_error-stored os v n (omega arith)) i;
          bytes = (bytes_from-same os same 0 n ∙ bytes_from-written os v) i;
          count = n;
        },
        w,
      )

  read_buffer_lem :
      (path : Text) (ddd : DentryData) (buf : Text) (w : World os.State)
      → dbfs_read os (stream_handle path ddd) ddd.ddd_size 0 w
        ≡ returns (record { error = success; bytes = buf; count = length buf }, w)
      → length buf ≤ 30
      → read_buffer os (stream_handle path ddd) w
        ≡ returns (record { error = success; bytes = buf; count = length buf }, w)
  unfolding read_buffer mstream_read as_stream dbfs_stream_ops
  read_buffer_lem path ddd buf w run short =
      let room : ltb 30 (length buf) ≡ false = ground arith in
      rw (env_open_lem os w env) (rw run (rw room))

  number_in_lem :
      (buf : Text) (count n : ℕ) (w : World os.State)
      → atoi buf ≡ some n
      → number_in os (record { error = success; bytes = buf; count = count }) w ≡ returns (n, w)
  unfolding number_in
  number_in_lem buf count n w e = ground (arith, e)

  getdata_lem :
      (path : Text) (ddd : DentryData) (buf : Text) (n : ℕ) (w : World os.State)
      → os.get w.base (dentry path) ≡ ok ddd
      → dbfs_read os (stream_handle path ddd) ddd.ddd_size 0 (leaked w)
        ≡ returns (record { error = success; bytes = buf; count = length buf }, leaked w)
      → length buf ≤ 30
      → atoi buf ≡ some n
      → getdata os (some (dbfs_store os)) path w ≡ returns (n, freed (leaked w))
  unfolding getdata with_open
  getdata_lem path ddd buf n w g run short number =
      rw (open_stream os store reliable openable memory env path ddd w g) (
        rw (read_buffer_lem path ddd buf (leaked w) run short) (
          rw (number_in_lem buf (length buf) n (leaked w) number)
            (rw (close_stream (stream_handle path ddd) (leaked w) refl refl))))

  sampwrite_lem :
      (rounds : ℕ) (path : Text) (ddd : DentryData) (buf : Text) (offset n : ℕ)
      (w u : World os.State)
      → os.get w.base (dentry path) ≡ ok ddd
      → write_text os (stream_handle path ddd) buf offset (leaked w) ≡ returns (n, u)
      → sampwrite os (some (dbfs_store os)) (suc rounds) path buf offset w ≡ returns (n, u)
  unfolding sampwrite
  sampwrite_lem rounds path ddd buf offset n w u g run =
      rw (open_stream os store reliable openable memory env path ddd w g) run

  save_offset_lem :
      (rounds offset n : ℕ) (w u : World os.State)
      → length (print_offset offset) < 10
      → sampwrite os (some (dbfs_store os)) rounds newoffset (print_offset offset) 0 w
        ≡ returns (n, u)
      → save_offset os (some (dbfs_store os)) rounds offset w ≡ returns (tt, u)
  unfolding save_offset
  save_offset_lem rounds offset n w u short run =
      let fits = ltb_below (length (print_offset offset)) 10 short in
      rw fits (rw run (rw (mangoo_closestore_lem os openable u)))

  leave_shell_lem :
      (rounds offset : ℕ) (w u : World os.State)
      → save_offset os (some (dbfs_store os)) rounds offset w ≡ returns (tt, u)
      → leave_shell os (some (dbfs_store os)) rounds offset w ≡ exits 0
  unfolding leave_shell
  leave_shell_lem rounds offset w u run = rw run

  grown_exact :
      (dh : Handle) (n : ℕ)
      → dh.attr_ddd.ddd_size ≤ n
      → ((grown dh n).attr_ddd.ddd_size ≡ n)
        × ((grown dh n).mh_interface ≡ dh.mh_interface)
        × ((grown dh n).mh_fvector ≡ dh.mh_fvector)
  unfolding grown
  grown_exact dh n h = (ground arith, ground arith, ground arith)

  -- A shell is left with an offset below 10^9, where "/.newoffset" exists and is no longer than the
  -- text of the offset with its NUL, on a machine that does not fail, where the environment opens,
  -- the database closes and every stored block is whole. Then the process ends with 0. What it does
  -- before that returns, and a getdata of the file from the world that it leaves returns the same
  -- offset.
  pub getdata-leave_shell :
      (rounds offset : ℕ) (ddd : DentryData) (w : World os.State)
      → os.get w.base (dentry newoffset) ≡ ok ddd
      → HasBlocks os w.base
      → ddd.ddd_size ≤ length (print_offset offset) + 1
      → offset < 10 ^ 9
      → (u v : World os.State) × (leave_shell os (some (dbfs_store os)) (suc rounds) offset w
          ≡ exits 0)
        × (save_offset os (some (dbfs_store os)) (suc rounds) offset w ≡ returns (tt, u))
        × (getdata os (some (dbfs_store os)) newoffset u ≡ returns (offset, v))
  getdata-leave_shell rounds offset ddd w g h fits small =
      let text = print_offset offset in
      let buf = text ++ 0 ∷ [] in
      let dh = stream_handle newoffset ddd in
      let short : length text < 10 = length-print_offset offset small in
      let size : length buf ≡ length text + 1 = length-append text (0 ∷ []) in
      let (s, run, v, whole) =
        dbfs_write_lem os store reliable memory dh newoffset buf 0 (leaked w) refl h
          (omega arith) in
      let dh' = grown dh (0 + length buf) in
      let (exact, interface, table) = grown_exact dh (0 + length buf) (omega arith) in
      let (_, ino) = grown_size os store reliable memory dh (0 + length buf) in
      let written : World os.State = record (leaked w) {
        base = saved os store reliable memory s newoffset dh'.attr_ddd;
      } in
      let u = freed written in
      let run' =
        subst
          (λ m. dbfs_write os dh buf m 0 (leaked w) ≡ returns ((success, length buf, dh'), written))
          size run in
      let wrote =
        write_text_lem dh dh' text 0 (length buf) (leaked w) written refl run' interface table in
      let left =
        save_offset_lem (suc rounds) offset _ w u short
          (sampwrite_lem rounds newoffset ddd text 0 _ w u g wrote) in
      let stored : os.get u.base (dentry newoffset) ≡ ok dh'.attr_ddd =
        store.get-put_self s (dentry newoffset) dh'.attr_ddd overwrite
          (reliable.put_overwrite s (dentry newoffset) dh'.attr_ddd) in
      let end : 0 + length buf ≡ length buf = omega arith in
      let read =
        read_written newoffset dh'.attr_ddd buf w.base s (leaked u)
          (subst (λ i. IsWritten os w.base s i 0 buf) (sym ino) v) whole (exact ∙ end)
          (omega arith) in
      (
        u,
        freed (leaked u),
        leave_shell_lem (suc rounds) offset w u left,
        left,
        getdata_lem newoffset dh'.attr_ddd buf offset u stored read (omega arith)
            (atoi-print_offset offset [] (omega arith)),
      )
