-- ===== src/Whole/Files.antt =====
-- The operations on whole files, directories and stores keep the stored blocks whole.
use mangoo.Base.{
  ℕ, zero, suc, ◌-◌, ◌≤◌, Bool, true, false, Option, none, some, List, [], arith, ltb,
  if◌then◌else◌,
}
use mangoo.Attr.{buffer_path}
use mangoo.Types.{
  KeyBuffer, holds, dentry, fsinfo, block, null_buffer, dangling, einval, enomem, eio, not_found,
  mangoo_directory_interface, dbfs_directory_vector, Text, Handle, Code, success, einval,
}
use mangoo.System.{System, Run}
use mangoo.System.Laws.{IsStore, HasMemory}
use mangoo.System.Keeps.{
  Keeps, Keeps-pure, Keeps-undefined, Keeps-running, Keeps-if, Keeps-bind, Keeps-then,
}
use mangoo.Stream.{add_size}
use mangoo.Stream.Blocks.{max_transfer}
use mangoo.Stream.Content.{HasBlocks}
use mangoo.Stream.Interface.{dbfs_read, dbfs_write, grown}
use mangoo.Stream.Truncate.{dbfs_dels}
use mangoo.Attr.Interface.{dbfs_setsize}
use mangoo.Dir.{is_root, dbfs_deld, dbfs_dopen, dbfs_closedir, cursor_get_next}
use mangoo.Dir.Read.{
  take_entry, Filler, Search, Visit, leave, skip, emit, readdir_loop, dbfs_readdir, leave_search,
  visit_entry,
}
use mangoo.Dbfs.{delete_by_type, dbfs_delete}
use mangoo.Whole.Operations.{
  dbfs_write_attr-Keeps, save-Keeps, dbfs_dela-Keeps, dbfs_cursorset-Keeps, dbfs_read_attr-Keeps,
  dbfs_createhandle-Keeps, dbfs_freehandle-Keeps,
}
use mangoo.Whole.Streams.{
  Keeps-answer, dbfs_readwrite_reads-Keeps, dbfs_readwrite-Keeps, dbfs_truncateblocks-Keeps,
}

Keeps-success :
    {S A : Type 0} {P : S → Type 0} (c : Code) {m : Run S A} {n : Code → Run S A}
    → Keeps P m
    → ((e : Code) → Keeps P (n e))
    → Keeps P (elim c [ success ↦ m | e ↦ n e ])
Keeps-success success km kn = km
Keeps-success e km kn = kn e

Keeps-option :
    {S A B : Type 0} {P : S → Type 0} (o : Option B) {m : Run S A} {n : B → Run S A}
    → Keeps P m
    → ((b : B) → Keeps P (n b))
    → Keeps P (elim o [ none ↦ m | some b ↦ n b ])
Keeps-option none km kn = km
Keeps-option (some b) km kn = kn b

Keeps-visit :
    {S A : Type 0} {P : S → Type 0} (v : Visit) {l s : Run S A} {n : Text → Run S A}
    → Keeps P l
    → Keeps P s
    → ((t : Text) → Keeps P (n t))
    → Keeps P (elim v [ leave ↦ l | skip ↦ s | emit name ↦ n name ])
Keeps-visit leave kl ks kn = kl
Keeps-visit skip kl ks kn = ks
Keeps-visit (emit name) kl ks kn = kn name

module _ (os : System) (store : IsStore os.berkeley) (memory : HasMemory os.platform) where
  pub dbfs_setsize-Keeps :
      (fuel : ℕ) (dh : Handle) (size : ℕ) → Keeps (HasBlocks os) (dbfs_setsize os fuel dh size)
  unfolding dbfs_setsize
  dbfs_setsize-Keeps fuel dh size =
      let shrunk = record dh.attr_ddd { ddd_size = size } in
      Keeps-if (ltb size dh.attr_ddd.ddd_size)
        (Keeps-bind
          (dbfs_truncateblocks-Keeps os store memory fuel dh.attr_ddd.ddd_ino size
            dh.attr_ddd.ddd_size)
          (λ error. Keeps-success error (save-Keeps os store dh shrunk) (λ e. Keeps-pure (e, dh))))
        (save-Keeps os store dh shrunk)

  pub dbfs_read-Keeps :
      (dh : Handle) (size offset : ℕ) → Keeps (HasBlocks os) (dbfs_read os dh size offset)
  unfolding dbfs_read
  dbfs_read-Keeps dh size offset =
      Keeps-if (ltb dh.attr_ddd.ddd_size offset)
        (Keeps-pure (record { error = success; bytes = []; count = size }))
        (dbfs_readwrite_reads-Keeps os store memory dh.attr_ddd.ddd_ino []
          (if ltb dh.attr_ddd.ddd_size (add_size offset size)
            then dh.attr_ddd.ddd_size - offset
            else size)
          offset)

  pub dbfs_write-Keeps :
      (dh : Handle) (buf : List ℕ) (size offset : ℕ)
      → size ≤ max_transfer
      → Keeps (HasBlocks os) (dbfs_write os dh buf size offset)
  unfolding dbfs_write
  dbfs_write-Keeps dh buf size offset m =
      Keeps-bind (dbfs_readwrite-Keeps os store memory dh.attr_ddd.ddd_ino buf size offset false m)
        (λ done.
          let dh' = grown dh (add_size offset done.count) in
          Keeps-success done.error
            (Keeps-bind (dbfs_write_attr-Keeps os store dh'.attr_ddk dh'.attr_ddd)
              (λ error. Keeps-pure (error, done.count, dh')))
            (λ e. Keeps-pure (e, done.count, dh)))

  dbfs_deld-Keeps : (dh : Handle) → Keeps (HasBlocks os) (dbfs_deld os dh)
  unfolding dbfs_deld cursor_get_next
  dbfs_deld-Keeps dh =
      Keeps-bind (dbfs_cursorset-Keeps os store dh) (λ r. record { at = λ w h. ground arith })

  delete_by_type-Keeps : (fuel : ℕ) (dh : Handle) → Keeps (HasBlocks os) (delete_by_type os fuel dh)
  unfolding delete_by_type dbfs_dels
  delete_by_type-Keeps fuel dh =
      Keeps-if _
        (Keeps-bind (dbfs_deld-Keeps dh)
          (λ r. Keeps-success (r.0) (dbfs_dela-Keeps os store (r.1)) (λ e. Keeps-pure e)))
        (Keeps-if _
          (Keeps-bind
            (dbfs_truncateblocks-Keeps os store memory fuel dh.attr_ddd.ddd_ino 0
              dh.attr_ddd.ddd_size)
            (λ c. Keeps-success c (dbfs_dela-Keeps os store dh) (λ e. Keeps-pure e)))
          (Keeps-pure einval))

  pub dbfs_delete-Keeps : (fuel : ℕ) (l : Text) → Keeps (HasBlocks os) (dbfs_delete os fuel l)
  unfolding dbfs_delete
  dbfs_delete-Keeps fuel l = Keeps-if (is_root l) (Keeps-pure einval) (
      Keeps-bind (dbfs_createhandle-Keeps os store l) (λ created.
        Keeps-option created (Keeps-pure enomem) (λ dh.
          Keeps-bind (dbfs_read_attr-Keeps os store dh.attr_ddk dh.attr_ddd) (λ r.
            Keeps-success (r.0) (delete_by_type-Keeps fuel (record dh { attr_ddd = r.1 }))
              (λ e. Keeps-pure e)))))

  pub dbfs_closedir-Keeps : (dh : Handle) → Keeps (HasBlocks os) (dbfs_closedir os dh)
  unfolding dbfs_closedir
  dbfs_closedir-Keeps dh = Keeps-then (dbfs_freehandle-Keeps os store dh) (Keeps-pure success)

  pub dbfs_dopen-Keeps : (l : Text) → Keeps (HasBlocks os) (dbfs_dopen os l)
  unfolding dbfs_dopen
  dbfs_dopen-Keeps l = Keeps-bind (dbfs_createhandle-Keeps os store l) (λ created.
      Keeps-option created (Keeps-pure (enomem, none)) (λ dh.
        Keeps-bind
          (dbfs_cursorset-Keeps os store (record dh {
            mh_interface = mangoo_directory_interface;
            mh_fvector = dbfs_directory_vector;
          }))
          (λ r.
            Keeps-success (r.0) (Keeps-pure (success, some r.1))
              (λ e. Keeps-then (dbfs_freehandle-Keeps os store (r.1)) (Keeps-pure (e, none))))))

  cursor_get_next-Keeps : (dh : Handle) → Keeps (HasBlocks os) (cursor_get_next os dh)
  unfolding cursor_get_next
  cursor_get_next-Keeps dh = record { at = λ w h. ground arith }

  buffer_path-Keeps : (b : KeyBuffer) → Keeps (HasBlocks os) (buffer_path os b)
  unfolding buffer_path
  buffer_path-Keeps (holds (dentry path)) = Keeps-pure path
  buffer_path-Keeps (holds fsinfo) = Keeps-undefined
  buffer_path-Keeps (holds (block i o)) = Keeps-undefined
  buffer_path-Keeps null_buffer = Keeps-undefined
  buffer_path-Keeps dangling = Keeps-undefined

  module _ {F : Type 0} (filler : Filler F) where
    readdir_loop-Keeps :
        (fuel : ℕ) (locator : Text) (isroot : Bool) (s : Search) (finfo : F)
        → Keeps (HasBlocks os) (readdir_loop os filler fuel locator isroot s finfo)
    unfolding readdir_loop
    readdir_loop-Keeps zero locator isroot s finfo = Keeps-running
    readdir_loop-Keeps (suc fuel) locator isroot s finfo =
        Keeps-bind (cursor_get_next-Keeps s.dh) (λ reply.
          Keeps-answer reply
            (λ entry.
              let t = take_entry os s entry in
              Keeps-visit (visit_entry locator isroot entry)
                (Keeps-pure (leave_search os t success finfo))
                (readdir_loop-Keeps fuel locator isroot t finfo)
                (λ name.
                  let r = filler finfo name t.dh.attr_ddd.ddd_type in
                  Keeps-success (r.0) (readdir_loop-Keeps fuel locator isroot t (r.1))
                    (λ e. Keeps-pure (leave_search os t e (r.1)))))
            (λ e. Keeps-pure (leave_search os s (elim e [ not_found ↦ success | _ ↦ eio ]) finfo)))

    pub dbfs_readdir-Keeps :
        (fuel : ℕ) (dh : Handle) (finfo : F)
        → Keeps (HasBlocks os) (dbfs_readdir os filler fuel dh finfo)
    unfolding dbfs_readdir
    dbfs_readdir-Keeps fuel dh finfo = Keeps-bind (buffer_path-Keeps dh.attr_ddk) (λ path.
        Keeps-option dh.locator Keeps-undefined (λ locator.
          readdir_loop-Keeps fuel locator (is_root path)
            (record { dh = dh; aliased = true; room = dh.ddk_size; size = dh.ddk_size }) finfo))
