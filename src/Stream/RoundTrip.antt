-- ===== src/Stream/RoundTrip.antt =====
-- Reading back through a handle what was written through it: dbfs_write and dbfs_read.
use mangoo.Base.{ℕ, ◌+◌, ◌≤◌, ◌≡◌, sym, ap, ◌∙◌, true, false, List, [], arith, length}
use mangoo.Types.{success, block, Text, DentryData, Handle, dentry, holds, ok}
use mangoo.System.{System, World, returns, overwrite}
use mangoo.System.Laws.{IsReliable, IsStore, HasMemory}
use mangoo.Stream.{dbfs_readwrite, add_size}
use mangoo.Attr.{dbfs_write_attr}
use mangoo.Stream.Interface.{dbfs_read, dbfs_write, grown}
use mangoo.Stream.Blocks.{max_transfer}
use mangoo.Stream.Content.{HasBlocks}
use mangoo.Stream.Read.{dbfs_readwrite-read}
use mangoo.Stream.Written.{IsWritten}
use mangoo.Stream.Write.{all_written, dbfs_readwrite-write}
use mangoo.Stream.ReadBack.{bytes_from-written, last_error-stored, bytes_from-same, last_error-same}

module _ (os : System) where
  module _ (store : IsStore os.berkeley) (reliable : IsReliable os.berkeley)
      (memory : HasMemory os.platform) where
    abbrev pub saved : os.State → Text → DentryData → os.State
    saved s path ddd = (os.put s (dentry path) ddd overwrite).1

    pub get-saved :
        (s : os.State) (path : Text) (ddd : DentryData) (ino o : ℕ)
        → os.get (saved s path ddd) (block ino o) ≡ os.get s (block ino o)
    get-saved s path ddd ino o =
        store.get-put_ne s (dentry path) (block ino o) ddd overwrite (λ q. cc q)

    HasBlocks-saved :
        (s : os.State) (path : Text) (ddd : DentryData)
        → HasBlocks os s
        → HasBlocks os (saved s path ddd)
    HasBlocks-saved s path ddd h = record {
      whole = λ ino o c e. h.whole ino o c (sym (get-saved s path ddd ino o) ∙ e);
    }

    pub dbfs_write_attr_lem :
        (path : Text) (ddd : DentryData) (w : World os.State)
        → dbfs_write_attr os (holds (dentry path)) ddd w
          ≡ returns (success, record w { base = saved w.base path ddd })
    unfolding dbfs_write_attr
    dbfs_write_attr_lem path ddd w = ground (arith, reliable.put_overwrite w.base (dentry path) ddd)

    pub grown-attr_ddk : (dh : Handle) (end : ℕ) → (grown dh end).attr_ddk ≡ dh.attr_ddk
    unfolding grown
    grown-attr_ddk dh end = ground arith

    -- The parts of a write through a handle, put together.
    dbfs_write-run :
        (dh : Handle) (path : Text) (buf : List ℕ) (offset n : ℕ) (s : os.State)
        (w : World os.State)
        → dh.attr_ddk ≡ holds (dentry path)
        → add_size offset n ≡ offset + n
        → dbfs_readwrite os dh.attr_ddd.ddd_ino buf n offset false w
          ≡ returns (all_written os n, record w { base = s })
        → dbfs_write os dh buf n offset w
          ≡ returns (
            (success, n, grown dh (offset + n)),
            record w { base = saved s path (grown dh (offset + n)).attr_ddd },
          )
    unfolding dbfs_write
    dbfs_write-run dh path buf offset n s w k a run = rw run (
        rw a (
          rw (grown-attr_ddk dh (offset + n) ∙ k) (
            rw
              (dbfs_write_attr_lem path (grown dh (offset + n)).attr_ddd (record w { base = s })))))

    dbfs_read-run :
        (dh : Handle) (n offset : ℕ) (w : World os.State)
        → offset + n ≤ dh.attr_ddd.ddd_size
        → add_size offset n ≡ offset + n
        → dbfs_read os dh n offset w ≡ dbfs_readwrite os dh.attr_ddd.ddd_ino [] n offset true w
    unfolding dbfs_read
    dbfs_read-run dh n offset w h a = rw a (ground arith)

    pub grown_size :
        (dh : Handle) (end : ℕ)
        → (end ≤ (grown dh end).attr_ddd.ddd_size)
          × ((grown dh end).attr_ddd.ddd_ino ≡ dh.attr_ddd.ddd_ino)
    unfolding grown
    grown_size dh end = ground arith

    grown_table : (dh : Handle) (end : ℕ) → (grown dh end).mh_fvector ≡ dh.mh_fvector
    unfolding grown
    grown_table dh end = ground arith

    -- A write through a handle, with the states behind its two parts.
    pub dbfs_write_lem :
        (dh : Handle) (path : Text) (buf : List ℕ) (offset : ℕ) (w : World os.State)
        → dh.attr_ddk ≡ holds (dentry path)
        → HasBlocks os w.base
        → offset + length buf ≤ max_transfer
        → let dh' = grown dh (offset + length buf) in
          (s : os.State) × (dbfs_write os dh buf (length buf) offset w
            ≡ returns ((success, length buf, dh'), record w { base = saved s path dh'.attr_ddd }))
          × IsWritten os w.base s dh.attr_ddd.ddd_ino offset buf
          × HasBlocks os (saved s path dh'.attr_ddd)
    dbfs_write_lem dh path buf offset w k h m =
        let n = length buf in
        let dh' = grown dh (offset + n) in
        let (s, run, v) =
          dbfs_readwrite-write os store reliable memory dh.attr_ddd.ddd_ino buf offset w h
            (omega arith) in
        let a : add_size offset n ≡ offset + n = (unfold add_size in omega arith) in
        (
          s,
          dbfs_write-run dh path buf offset n s w k a run,
          v,
          HasBlocks-saved s path dh'.attr_ddd v.whole,
        )

    -- A write through a handle of a file, of a range that ends below 2^63, where every stored block
    -- is whole and the machine does not fail, returns 0 with every byte counted, and leaves a
    -- handle and a store at which a read of the same range returns 0 and the bytes that were
    -- written, with the store unchanged; the record under the handle's path is then the handle's
    -- copy, which has the range inside the file's size, and the handle keeps its table of
    -- functions.
    pub dbfs_read-write :
        (dh : Handle) (path : Text) (buf : List ℕ) (offset : ℕ) (w : World os.State)
        → dh.attr_ddk ≡ holds (dentry path)
        → HasBlocks os w.base
        → offset + length buf ≤ max_transfer
        → (dh' : Handle) × (w' : World os.State) × (dbfs_write os dh buf (length buf) offset w
            ≡ returns ((success, length buf, dh'), w'))
          × (dbfs_read os dh' (length buf) offset w'
              ≡ returns (record { error = success; bytes = buf; count = length buf }, w'))
          × (os.get w'.base (dentry path) ≡ ok dh'.attr_ddd)
          × (offset + length buf ≤ dh'.attr_ddd.ddd_size)
          × (dh'.mh_fvector ≡ dh.mh_fvector)
    dbfs_read-write dh path buf offset w k h m =
        let n = length buf in
        let ino = dh.attr_ddd.ddd_ino in
        let dh' = grown dh (offset + n) in
        let (s, run, v) =
          dbfs_readwrite-write os store reliable memory ino buf offset w h (omega arith) in
        let s' = saved s path dh'.attr_ddd in
        let w' : World os.State = record w { base = s' } in
        let a : add_size offset n ≡ offset + n = (unfold add_size in omega arith) in
        let g = grown_size dh (offset + n) in
        let read : dbfs_readwrite os ino [] n offset true w'
            ≡ returns (record { error = success; bytes = buf; count = n }, w') =
          dbfs_readwrite-read os reliable ino [] n offset w'
            (HasBlocks-saved s path dh'.attr_ddd v.whole) (omega arith)
          ∙ λ i. returns (
            record {
              error =
                  (last_error-same os (get-saved s path dh'.attr_ddd ino) offset n
                      ∙ last_error-stored os v n (omega arith))
                    i;
              bytes =
                  (bytes_from-same os (get-saved s path dh'.attr_ddd ino) offset n
                      ∙ bytes_from-written os v)
                    i;
              count = n;
            },
            w',
          ) in
        (
          dh',
          w',
          dbfs_write-run dh path buf offset n s w k a run,
          dbfs_read-run dh' n offset w' g.0 a
              ∙ ap (λ (i : ℕ). dbfs_readwrite os i [] n offset true w') g.1
              ∙ read,
          store.get-put_self s (dentry path) dh'.attr_ddd overwrite
              (reliable.put_overwrite s (dentry path) dh'.attr_ddd),
          g.0,
          grown_table dh (offset + n),
        )
