-- ===== src/Whole/Reach.antt =====
-- The states that the calls of a program on a dbfs store, made in any order, lead to.
use mangoo.Base.{ℕ, ◌≤◌, ◌≡◌, Option, List}
use mangoo.Types.{Text, Handle, Code, DentryData, MangooTypes}
use mangoo.System.{System, World, returns}
use mangoo.System.Laws.{IsStore, HasMemory}
use mangoo.System.Keeps.{Keeps-returns}
use mangoo.Stream.{Transfer}
use mangoo.Stream.Blocks.{max_transfer}
use mangoo.Stream.Content.{HasBlocks}
use mangoo.Stream.Interface.{dbfs_sopen, dbfs_read, dbfs_write}
use mangoo.Attr.Interface.{save, dbfs_setsize, dbfs_aopen}
use mangoo.Dir.{dbfs_dopen, dbfs_closedir}
use mangoo.Dir.Read.{Filler, Listing, dbfs_readdir}
use mangoo.Dbfs.{dbfs_create, dbfs_delete, dbfs_initstore}
use mangoo.Whole.Operations.{
  save-Keeps, dbfs_create-Keeps, dbfs_aopen-Keeps, dbfs_sopen-Keeps, dbfs_initstore-Keeps,
}
use mangoo.Whole.Files.{
  dbfs_setsize-Keeps, dbfs_read-Keeps, dbfs_write-Keeps, dbfs_delete-Keeps, dbfs_dopen-Keeps,
  dbfs_readdir-Keeps, dbfs_closedir-Keeps,
}

module _ (os : System) where
  -- One call that returns. A handle is any value, also one whose file was changed since it was
  -- opened. The setters of attributes are `save` with the changed record.
  pub data Step (w w' : World os.State) : Type 1 where
    mounts : (rl : Text) (c : Code) → dbfs_initstore os rl w ≡ returns (c, w') → Step w w'
    creates :
        (l : Text) (mode : ℕ) (mt : MangooTypes) (c : Code)
        → dbfs_create os l mode mt w ≡ returns (c, w')
        → Step w w'
    deletes :
        (fuel : ℕ) (l : Text) (c : Code) → dbfs_delete os fuel l w ≡ returns (c, w') → Step w w'
    opens_stream :
        (l : Text) (r : Code × Option Handle) → dbfs_sopen os l w ≡ returns (r, w') → Step w w'
    opens_directory :
        (l : Text) (r : Code × Option Handle) → dbfs_dopen os l w ≡ returns (r, w') → Step w w'
    opens_attr :
        (l : Text) (r : Code × Option Handle) → dbfs_aopen os l w ≡ returns (r, w') → Step w w'
    reads :
        (dh : Handle) (size offset : ℕ) (t : Transfer)
        → dbfs_read os dh size offset w ≡ returns (t, w')
        → Step w w'
    writes :
        (dh : Handle) (buf : List ℕ) (size offset : ℕ) (r : Code × ℕ × Handle)
        → size ≤ max_transfer
        → dbfs_write os dh buf size offset w ≡ returns (r, w')
        → Step w w'
    lists :
        {F : Type 0} (filler : Filler F) (fuel : ℕ) (dh : Handle) (finfo : F) (r : Listing F)
        → dbfs_readdir os filler fuel dh finfo w ≡ returns (r, w')
        → Step w w'
    sets :
        (dh : Handle) (ddd : DentryData) (r : Code × Handle)
        → save os dh ddd w ≡ returns (r, w')
        → Step w w'
    sets_size :
        (fuel : ℕ) (dh : Handle) (size : ℕ) (r : Code × Handle)
        → dbfs_setsize os fuel dh size w ≡ returns (r, w')
        → Step w w'
    closes : (dh : Handle) (c : Code) → dbfs_closedir os dh w ≡ returns (c, w') → Step w w'

  pub data Reach (w : World os.State) : World os.State → Type 1 where
    here : Reach w w
    next : {u v : World os.State} → Reach w u → Step u v → Reach w v

module _ (os : System) (store : IsStore os.berkeley) (memory : HasMemory os.platform) where
  Step-HasBlocks :
      {w w' : World os.State} → Step os w w' → HasBlocks os w.base → HasBlocks os w'.base
  Step-HasBlocks {w} (mounts rl c e) h = Keeps-returns (dbfs_initstore-Keeps os store rl) w e h
  Step-HasBlocks {w} (creates l mode mt c e) h =
      Keeps-returns (dbfs_create-Keeps os store l mode mt) w e h
  Step-HasBlocks {w} (deletes fuel l c e) h =
      Keeps-returns (dbfs_delete-Keeps os store memory fuel l) w e h
  Step-HasBlocks {w} (opens_stream l r e) h = Keeps-returns (dbfs_sopen-Keeps os store l) w e h
  Step-HasBlocks {w} (opens_directory l r e) h =
      Keeps-returns (dbfs_dopen-Keeps os store memory l) w e h
  Step-HasBlocks {w} (opens_attr l r e) h = Keeps-returns (dbfs_aopen-Keeps os store l) w e h
  Step-HasBlocks {w} (reads dh size offset t e) h =
      Keeps-returns (dbfs_read-Keeps os store memory dh size offset) w e h
  Step-HasBlocks {w} (writes dh buf size offset r m e) h =
      Keeps-returns (dbfs_write-Keeps os store memory dh buf size offset m) w e h
  Step-HasBlocks {w} (lists filler fuel dh finfo r e) h =
      Keeps-returns (dbfs_readdir-Keeps os store memory filler fuel dh finfo) w e h
  Step-HasBlocks {w} (sets dh ddd r e) h = Keeps-returns (save-Keeps os store dh ddd) w e h
  Step-HasBlocks {w} (sets_size fuel dh size r e) h =
      Keeps-returns (dbfs_setsize-Keeps os store memory fuel dh size) w e h
  Step-HasBlocks {w} (closes dh c e) h =
      Keeps-returns (dbfs_closedir-Keeps os store memory dh) w e h

  -- In a database whose stored blocks have 4096 bytes each, they still have after any sequence of
  -- calls that return, in any order and with any handles, errors included: mounts, creations,
  -- deletions, opens of streams, directories and attributes, reads, writes of at most 2^63
  -- bytes, listings, changes of attributes and sizes, and closes.
  pub Reach-HasBlocks :
      {w w' : World os.State} → Reach os w w' → HasBlocks os w.base → HasBlocks os w'.base
  Reach-HasBlocks here h = h
  Reach-HasBlocks (next before step) h = Step-HasBlocks step (Reach-HasBlocks before h)
