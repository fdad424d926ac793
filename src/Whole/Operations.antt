-- ===== src/Whole/Operations.antt =====
-- The operations of the dbfs store keep the stored blocks whole.
use mangoo.Base.{ℕ, ◌≡◌, refl, ◌⊎◌, inl, inr, Option, none, some, arith}
use mangoo.Stream.Interface.{dbfs_sopen}
use mangoo.Types.{
  Key, MangooTypes, Text, Handle, DentryData, KeyBuffer, holds, null_buffer, dangling, dentry,
  fsinfo, FsinfoData, block,
}
use mangoo.System.{System, overwrite, no_overwrite, db_call, PutFlag}
use mangoo.System.Laws.{IsStore}
use mangoo.System.Keeps.{
  Keeps, Keeps-pure, Keeps-undefined, Keeps-db_call, Keeps-bind, Keeps-then, Keeps-modify_mem,
}
use mangoo.Stream.Content.{HasBlocks}
use mangoo.Attr.{dbfs_create_attr, dbfs_write_attr, dbfs_read_attr, new_dentry, buffer_path}
use mangoo.Attr.Interface.{save, dbfs_aopen, dbfs_dela}
use mangoo.Handle.{
  dbfs_createhandle, dbfs_freehandle, close_cursor, free_key, free_locator, free_struct,
}
use mangoo.Dbfs.{dbfs_create, next_inode, dbfs_initstore, mount}
use mangoo.Dir.{dbfs_cursorset}
use mangoo.Fsinfo.{dbfs_fetch_fsinfo, dbfs_update_fsinfo, dbfs_crupd_fsinfo}
use mangoo.Whole.{put-HasBlocks, del-HasBlocks}
use mangoo.Dbfs.Mount.{next_range}
use mangoo.Whole.Streams.{reply_cases}

buffer_cases : (b : KeyBuffer) → ((k : Key) × (b ≡ holds k)) ⊎ (b ≡ null_buffer) ⊎ (b ≡ dangling)
buffer_cases (holds k) = inl (k, refl)
buffer_cases null_buffer = inr (inl refl)
buffer_cases dangling = inr (inr refl)

module _ (os : System) (store : IsStore os.berkeley) where
  put_dentry-Keeps :
      (path : Text) (ddd : DentryData) (f : PutFlag)
      → Keeps (HasBlocks os) (db_call (λ s. os.put s (dentry path) ddd f))
  put_dentry-Keeps path ddd f =
      Keeps-db_call _ (λ s. put-HasBlocks os store s (dentry path) ddd f (λ i o e. absurd (cc)))

  put_fsinfo-HasBlocks :
      (s : os.State) (dfd : FsinfoData) (f : PutFlag)
      → HasBlocks os s
      → HasBlocks os ((os.put s fsinfo dfd f).1)
  put_fsinfo-HasBlocks s dfd f = put-HasBlocks os store s fsinfo dfd f (λ i o e. absurd (cc))

  pub dbfs_create-Keeps :
      (locator : Text) (mode : ℕ) (mt : MangooTypes)
      → Keeps (HasBlocks os) (dbfs_create os locator mode mt)
  unfolding dbfs_create dbfs_create_attr next_inode
  dbfs_create-Keeps locator mode mt = record {
    at = λ w h. ground (
      arith,
      (put_dentry-Keeps locator (new_dentry os mt mode w.last_inode) no_overwrite).at w h,
    );
  }

  pub dbfs_write_attr-Keeps :
      (b : KeyBuffer) (ddd : DentryData) → Keeps (HasBlocks os) (dbfs_write_attr os b ddd)
  unfolding dbfs_write_attr buffer_path
  dbfs_write_attr-Keeps (holds (dentry path)) ddd = record {
    at = λ w h. ground (arith, (put_dentry-Keeps path ddd overwrite).at w h);
  }
  dbfs_write_attr-Keeps (holds fsinfo) ddd = record { at = λ w h. tt }
  dbfs_write_attr-Keeps (holds (block i o)) ddd = record { at = λ w h. tt }
  dbfs_write_attr-Keeps null_buffer ddd = record { at = λ w h. tt }
  dbfs_write_attr-Keeps dangling ddd = record { at = λ w h. tt }

  pub save-Keeps : (dh : Handle) (ddd : DentryData) → Keeps (HasBlocks os) (save os dh ddd)
  unfolding save
  save-Keeps dh ddd =
      Keeps-bind (dbfs_write_attr-Keeps dh.attr_ddk ddd)
        (λ error. Keeps-pure (error, record dh { attr_ddd = ddd }))

  pub dbfs_read_attr-Keeps :
      (b : KeyBuffer) (ddd : DentryData) → Keeps (HasBlocks os) (dbfs_read_attr os b ddd)
  unfolding dbfs_read_attr buffer_path
  dbfs_read_attr-Keeps (holds (dentry path)) ddd = record { at = λ w h. ground arith }
  dbfs_read_attr-Keeps (holds fsinfo) ddd = record { at = λ w h. tt }
  dbfs_read_attr-Keeps (holds (block i o)) ddd = record { at = λ w h. tt }
  dbfs_read_attr-Keeps null_buffer ddd = record { at = λ w h. tt }
  dbfs_read_attr-Keeps dangling ddd = record { at = λ w h. tt }

  pub dbfs_createhandle-Keeps : (l : Text) → Keeps (HasBlocks os) (dbfs_createhandle os l)
  unfolding dbfs_createhandle dbfs_freehandle close_cursor free_key free_locator free_struct
  dbfs_createhandle-Keeps l = record { at = λ w h. ground arith }

  free_locator-Keeps : (l : Option Text) → Keeps (HasBlocks os) (free_locator os l)
  unfolding free_locator
  free_locator-Keeps none = Keeps-pure tt
  free_locator-Keeps (some l) = Keeps-modify_mem _

  free_key-Keeps : (b : KeyBuffer) → Keeps (HasBlocks os) (free_key os b)
  unfolding free_key
  free_key-Keeps null_buffer = Keeps-pure tt
  free_key-Keeps (holds k) = Keeps-modify_mem _
  free_key-Keeps dangling = Keeps-undefined

  close_cursor-Keeps : (c : Option (Option Key)) → Keeps (HasBlocks os) (close_cursor os c)
  unfolding close_cursor
  close_cursor-Keeps none = Keeps-pure tt
  close_cursor-Keeps (some p) = Keeps-modify_mem _

  pub dbfs_freehandle-Keeps : (dh : Handle) → Keeps (HasBlocks os) (dbfs_freehandle os dh)
  unfolding dbfs_freehandle free_struct
  dbfs_freehandle-Keeps dh = Keeps-then (close_cursor-Keeps dh.dbc) (
      Keeps-then (free_key-Keeps dh.attr_ddk)
        (Keeps-then (free_locator-Keeps dh.locator) (Keeps-modify_mem _)))

  pub dbfs_aopen-Keeps : (l : Text) → Keeps (HasBlocks os) (dbfs_aopen os l)
  unfolding dbfs_aopen dbfs_createhandle dbfs_freehandle close_cursor free_key free_locator
      free_struct dbfs_read_attr buffer_path
  dbfs_aopen-Keeps l = record { at = λ w h. ground arith }

  pub dbfs_sopen-Keeps : (l : Text) → Keeps (HasBlocks os) (dbfs_sopen os l)
  unfolding dbfs_sopen dbfs_createhandle dbfs_freehandle close_cursor free_key free_locator
      free_struct dbfs_read_attr buffer_path
  dbfs_sopen-Keeps l = record { at = λ w h. ground arith }

  pub dbfs_dela-Keeps : (dh : Handle) → Keeps (HasBlocks os) (dbfs_dela os dh)
  unfolding dbfs_dela
  dbfs_dela-Keeps dh = record {
    at = λ w h. elim (buffer_cases dh.attr_ddk) [
      | inl (k, e) ↦ rw e (ground (arith, del-HasBlocks os store w.base k h))
      | inr other ↦ ground arith
    ];
  }

  pub dbfs_cursorset-Keeps : (dh : Handle) → Keeps (HasBlocks os) (dbfs_cursorset os dh)
  unfolding dbfs_cursorset buffer_path
  dbfs_cursorset-Keeps dh = record { at = λ w h. ground arith }

  mount-Keeps : (dfd : FsinfoData) → Keeps (HasBlocks os) (mount os dfd)
  unfolding mount dbfs_update_fsinfo dbfs_crupd_fsinfo
  mount-Keeps dfd = record {
    at = λ w h. ground (arith, put_fsinfo-HasBlocks w.base (next_range dfd) overwrite h);
  }

  pub dbfs_initstore-Keeps : (rl : Text) → Keeps (HasBlocks os) (dbfs_initstore os rl)
  unfolding dbfs_initstore dbfs_fetch_fsinfo
  dbfs_initstore-Keeps rl = record {
    at = λ w h. elim (reply_cases (os.get w.base fsinfo)) [
      | inl (dfd, g) ↦ ground (arith, (mount-Keeps dfd).at w h)
      | inr (e, g) ↦ ground arith
    ];
  }
