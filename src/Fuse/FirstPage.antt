-- ===== src/Fuse/FirstPage.antt =====
-- mf_opendir, and the first mf_readdir, over a buffer with room for "." and "..".
use mangoo.Base.{
  ℕ, ◌+◌, ◌≤◌, ◌<◌, ◌≡◌, refl, ap, ◌∙◌, false, none, some, List, [], ◌∷◌, ◌++◌, arith, length,
}
use mangoo.Types.{
  Text, Entry, MangooTypes, success, enobufs, dentry, ok, Handle, DentryData, mangoo_container,
  Code,
}
use mangoo.System.{System, World, returns}
use mangoo.System.Laws.{IsOrdered, HasMemory}
use mangoo.Handle.Life.{leaked, one_cursor}
use mangoo.Dir.{is_root}
use mangoo.Dir.Readdir.{dir_handle, dbfs_dopen_lem}
use mangoo.Dir.Listing.{Named, Walk, listing}
use mangoo.Dir.Paging.{IsAt, Paused, Stays}
use mangoo.Dbfs.{dbfs_open}
use mangoo.Api.{dbfs_msops}
use mangoo.Api.Store.{dbfs_store, mangoo_open, through}
use mangoo.Fuse.{minus, with_open}
use mangoo.Fuse.Directory.{
  MfDir, mf_dir_size, mf_opendir, mf_readdir, resume, fill_dots, dot, dot_dot, mf_filler,
}
use mangoo.Fuse.Fill.{Item, fits, numbered, mf_filler_takes}
use mangoo.Fuse.Pages.{stopped, mdir_read_full, mdir_read_fits, mf_readdir_parts}

abbrev pub opened : Handle → List Item → MfDir (List Item)
opened dh buf = record {
  handle = dh;
  cur_off = 0;
  starting_off = 0;
  saved_name = none;
  saved_off = 0;
  saved_type = 0;
  buf = buf;
}

abbrev pub dots : List Named
dots = (dot, mangoo_container) ∷ (dot_dot, mangoo_container) ∷ []

pub mf_opendir_lem :
    (os : System) (path : Text) (ddd : DentryData) (w : World os.State)
    → IsOrdered os.berkeley
    → HasMemory os.platform
    → os.get w.base (dentry path) ≡ ok ddd
    → mf_opendir os (some (dbfs_store os)) [] path w
      ≡ returns ((minus success, some (opened (dir_handle path ddd) [])), one_cursor (leaked w))
unfolding mf_opendir with_open mangoo_open through dbfs_store dbfs_msops dbfs_open
mf_opendir_lem os path ddd w ordered memory g =
    rw (memory.malloc_succeeds mf_dir_size) (rw (dbfs_dopen_lem os path ddd w ordered memory g))

module _ (os : System) (stays : Stays os) (room fuel : ℕ) (path : Text) (w : World os.State) where
  module _ (dh : Handle) (es : List Entry) (at : IsAt path dh path) (below : is_root path ≡ false)
      (walk : Walk os w.base (dentry path) es) (enough : length es < fuel) (two : 2 ≤ room) where
    -- With the two dots in the buffer.
    abbrev dotted : MfDir (List Item)
    dotted = record (opened dh []) { cur_off = 2; buf = numbered 0 dots }

    abbrev one_dot : MfDir (List Item)
    one_dot = record (opened dh []) { cur_off = 1; buf = numbered 0 ((dot, mangoo_container) ∷ []) }

    fill_dots_lem : fill_dots (fits room) (opened dh []) ≡ dotted
    unfolding fill_dots numbered
    fill_dots_lem =
        ap
          (λ (r : Code × MfDir (List Item)).
            (mf_filler (fits room) (r.1) dot_dot mangoo_container).1)
          (mf_filler_takes room (opened dh []) dot mangoo_container (omega arith) (omega arith))
        ∙ ap (λ (r : Code × MfDir (List Item)). r.1)
            (mf_filler_takes room one_dot dot_dot mangoo_container (omega arith) (omega arith))

    resume-opened : resume (fits room) (opened dh []) 0 ≡ (dotted, 2)
    unfolding resume
    resume-opened = ap (λ (d : MfDir (List Item)). (d, 2)) fill_dots_lem

    pub mf_readdir_first :
        (front : List Named) (name : Text) (type : MangooTypes) (rest : List Named)
        → listing path false es ≡ front ++ (name, type) ∷ rest
        → 2 + length front ≡ room
        → (dh' : Handle) × (mf_readdir os fuel (fits room) [] 0 (opened dh []) w
            ≡ returns (
              (
                minus success,
                stopped dh' 2 (2 + length front) name type (numbered 0 (dots ++ front)),
              ),
              w,
            ))
          × Paused os path false fuel w.base dh' rest
    unfolding numbered
    mf_readdir_first front name type rest split full =
        let (dh', run, paused) =
          mdir_read_full os stays room fuel path w (record dotted { starting_off = 2 }) path es at
            below walk enough (omega arith) front name type rest split full in
        (
          dh',
          mf_readdir_parts os stays room fuel path w (opened dh []) dotted _ 0 2 enobufs dh'
              resume-opened run,
          paused,
        )

    pub mf_readdir_only :
        2 + length (listing path false es) ≤ room
        → (dir' : MfDir (List Item)) × (mf_readdir os fuel (fits room) [] 0 (opened dh []) w
            ≡ returns ((minus success, dir'), w))
          × (dir'.buf ≡ numbered 0 (dots ++ listing path false es))
          × (dir'.saved_name ≡ none)
    unfolding numbered
    mf_readdir_only space =
        let (dh', run) =
          mdir_read_fits os stays room fuel path w (record dotted { starting_off = 2 }) path es at
            below walk enough (omega arith) space in
        (
          _,
          mf_readdir_parts os stays room fuel path w (opened dh []) dotted _ 0 2 success dh'
              resume-opened run,
          refl,
          refl,
        )
