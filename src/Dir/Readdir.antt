-- ===== src/Dir/Readdir.antt =====
-- dbfs_dopen and dbfs_readdir: what is handed to the callback, and which names are listed.
use mathlib.Core.List.{append-nil, append_assoc}
use mangoo.Base.{
  ℕ, ◌<◌, ◌≡◌, refl, sym, ap, ◌∙◌, ◌≢◌, true, false, some, List, [], ◌∷◌, ◌++◌, arith, length,
}
use mangoo.Types.{
  slash, Text, Entry, dentry, ok, success, DentryData, Handle, MangooTypes,
  mangoo_directory_interface, dbfs_directory_vector,
}
use mangoo.System.{System, World, returns}
use mangoo.System.Laws.{IsOrdered, HasMemory}
use mangoo.Compare.{dbfs_bt_compare}
use mangoo.Handle.Life.{fresh_handle, dbfs_createhandle_lem, leaked, one_cursor}
use mangoo.Dir.{is_root, is_prefix, has_slash, entry_name, dbfs_dopen, dbfs_cursorset}
use mangoo.Dir.Paths.{same_text_refl, strcmp-between, strcmp-longer, is_root-ne}
use mangoo.Dir.Read.{Filler, dbfs_readdir}
use mangoo.Dir.Listing.{Named, Walk, listing, offer, readdir_loop_lem}
use mangoo.Dir.Children.{Listed, listing_complete, listing_sound}
use mangoo.Dir.Visits.{
  visit_child, visit-ne-leave, visit_emitted, visit_at_root, visit_root-ne-leave, is_root_refl,
}

-- The handle that dbfs_dopen returns, on the record of its path.
abbrev pub dir_handle : Text → DentryData → Handle
dir_handle path ddd = record (fresh_handle path) {
  mh_interface = mangoo_directory_interface;
  mh_fvector = dbfs_directory_vector;
  dbc = some (some (dentry path));
  attr_ddd = ddd;
}

-- A callback that takes every name.
unfoldable pub collect : Filler (List Named)
collect names name type = (success, names ++ (name, type) ∷ [])

offer-collect : (l names : List Named) → offer collect l names ≡ (success, names ++ l)
unfolding offer collect
offer-collect [] names = ap (λ (r : List Named). (success, r)) (sym (append-nil names))
offer-collect ((name, type) ∷ l) names =
    offer-collect l (names ++ (name, type) ∷ [])
    ∙ ap (λ (r : List Named). (success, r)) (append_assoc names ((name, type) ∷ []) l)

module _ (os : System) where
  pub dbfs_dopen_lem :
      (path : Text) (ddd : DentryData) (w : World os.State)
      → IsOrdered os.berkeley
      → HasMemory os.platform
      → os.get w.base (dentry path) ≡ ok ddd
      → dbfs_dopen os path w
        ≡ returns ((success, some (dir_handle path ddd)), one_cursor (leaked w))
  unfolding dbfs_dopen dbfs_cursorset
  dbfs_dopen_lem path ddd w ordered memory g = rw (dbfs_createhandle_lem os path w memory) (
      ground (
        arith,
        ordered.cursor_opens w.base,
        ordered.cursor_set_get w.base (dentry path),
        same_text_refl path,
        g,
      ))

  pub dbfs_readdir_lem :
      {F : Type 0} (filler : Filler F) (fuel : ℕ) (path : Text) (ddd : DentryData) (es : List Entry)
      (finfo : F) (w : World os.State)
      → Walk os w.base (dentry path) es
      → length es < fuel
      → (dh' : Handle) × (dbfs_readdir os filler fuel (dir_handle path ddd) finfo w
          ≡ returns (
            (
              (offer filler (listing path (is_root path) es) finfo).0,
              dh',
              (offer filler (listing path (is_root path) es) finfo).1,
            ),
            w,
          ))
  unfolding dbfs_readdir
  dbfs_readdir_lem filler fuel path ddd es finfo w walk enough =
      readdir_loop_lem os filler path (is_root path) w es fuel (dentry path) _ finfo refl walk
        enough

module _ (os : System) (ordered : IsOrdered os.berkeley) (memory : HasMemory os.platform) where
  -- A path with a record is opened as a directory and read, with more fuel than there are records
  -- behind it: both calls return, the database is left as it is, and the callback has been given
  -- the names that are listed for the path, in the order of the records and up to the first that it
  -- does not accept, whose answer is the int.
  pub dbfs_dopen-dbfs_readdir :
      {F : Type 0} (filler : Filler F) (fuel : ℕ) (path : Text) (ddd : DentryData) (es : List Entry)
      (finfo : F) (w : World os.State)
      → os.get w.base (dentry path) ≡ ok ddd
      → Walk os w.base (dentry path) es
      → length es < fuel
      → let given = offer filler (listing path (is_root path) es) finfo in
        (dh dh' : Handle) × (u : World os.State) × (dbfs_dopen os path w
          ≡ returns ((success, some dh), u))
        × (dbfs_readdir os filler fuel dh finfo u ≡ returns ((given.0, dh', given.1), u))
        × (u.base ≡ w.base)
  dbfs_dopen-dbfs_readdir filler fuel path ddd es finfo w g walk enough =
      let (dh', run) =
        dbfs_readdir_lem os filler fuel path ddd es finfo (one_cursor (leaked w)) walk enough in
      (
        dir_handle path ddd,
        dh',
        one_cursor (leaked w),
        dbfs_dopen_lem os path ddd w ordered memory g,
        run,
        refl,
      )

module _ (os : System) (ordered : IsOrdered os.berkeley) where
  collected :
      (fuel : ℕ) (path : Text) (ddd : DentryData) (es : List Entry) (w : World os.State)
      → path ≢ slash ∷ []
      → Walk os w.base (dentry path) es
      → length es < fuel
      → (dh' : Handle) × (dbfs_readdir os collect fuel (dir_handle path ddd) [] w
          ≡ returns ((success, dh', listing path false es), w))
  collected fuel path ddd es w n walk enough =
      let (dh', run) = dbfs_readdir_lem os collect fuel path ddd es [] w walk enough in
      (dh', rw (is_root-ne path n, offer-collect (listing path false es) []) at run)

  -- Reading a directory other than the root with a callback that takes every name: the call returns
  -- 0, with more fuel than there are records behind the directory, and lists each stored path that
  -- begins with the directory's, whether a slash follows or not, by what is behind the directory's
  -- path and the slashes there, if that is not empty and has no slash; its type is that of the
  -- stored record.
  pub dbfs_readdir_complete :
      (fuel : ℕ) (path : Text) (x : ℕ) (xs name : Text) (ddd ddd' : DentryData) (es : List Entry)
      (w : World os.State)
      → path ≢ slash ∷ []
      → Walk os w.base (dentry path) es
      → length es < fuel
      → os.get w.base (dentry (path ++ x ∷ xs)) ≡ ok ddd'
      → entry_name path (path ++ x ∷ xs) ≡ name
      → name ≢ []
      → has_slash name ≡ false
      → (dh' : Handle) × (names : List Named) × (dbfs_readdir os collect fuel
            (dir_handle path ddd)
            []
            w
          ≡ returns ((success, dh', names), w))
        × Listed (name, ddd'.ddd_type) names
  dbfs_readdir_complete fuel path x xs name ddd ddd' es w n walk enough g e m s =
      let (dh', run) = collected fuel path ddd es w n walk enough in
      (
        dh',
        listing path false es,
        run,
        listing_complete os ordered w.base path false (path ++ x ∷ xs) ddd' name g
            (visit_child path (x ∷ xs) name e m s)
            (λ q a b. visit-ne-leave path q (strcmp-between path (x ∷ xs) q a (λ c. cc))) es
            (dentry path) walk (λ j h. h) (unfold dbfs_bt_compare in strcmp-longer path x xs),
      )

  -- Whatever name such a call lists is what is behind the directory's path and some slashes in a
  -- stored path that begins with the directory's; it is not empty, has no slash, and comes with the
  -- type of that path's record.
  pub dbfs_readdir_sound :
      (fuel : ℕ) (path name : Text) (type : MangooTypes) (ddd : DentryData) (es : List Entry)
      (dh' : Handle) (names : List Named) (w : World os.State)
      → path ≢ slash ∷ []
      → Walk os w.base (dentry path) es
      → length es < fuel
      → dbfs_readdir os collect fuel (dir_handle path ddd) [] w ≡ returns ((success, dh', names), w)
      → Listed (name, type) names
      → (entry : Text) × (ddd' : DentryData) × (os.get w.base (dentry entry) ≡ ok ddd')
        × (is_prefix path entry ≡ true)
        × (entry_name path entry ≡ name)
        × (name ≢ [])
        × (has_slash name ≡ false)
        × (type ≡ ddd'.ddd_type)
  dbfs_readdir_sound fuel path name type ddd es dh' names w n walk enough run l =
      let (dh'', run') = collected fuel path ddd es w n walk enough in
      let same : names ≡ listing path false es = cc (run, run') in
      let (entry, ddd', g, v, t) =
        listing_sound os ordered w.base path false es (dentry path) (name, type) walk
          (rw same at l) in
      let (p, e, m, s) = visit_emitted path entry name v in (entry, ddd', g, p, e, m, s, t)

  -- Reading the root with a callback that takes every name: the call returns 0, with more fuel than
  -- there are records behind the root's, and lists every stored path of one component by its name,
  -- with the type of its record.
  pub dbfs_readdir_complete_root :
      (fuel : ℕ) (x : ℕ) (xs : Text) (ddd ddd' : DentryData) (es : List Entry) (w : World os.State)
      → Walk os w.base (dentry (slash ∷ [])) es
      → length es < fuel
      → os.get w.base (dentry (slash ∷ x ∷ xs)) ≡ ok ddd'
      → has_slash (x ∷ xs) ≡ false
      → (dh' : Handle) × (names : List Named) × (dbfs_readdir os collect fuel
            (dir_handle (slash ∷ []) ddd)
            []
            w
          ≡ returns ((success, dh', names), w))
        × Listed (x ∷ xs, ddd'.ddd_type) names
  dbfs_readdir_complete_root fuel x xs ddd ddd' es w walk enough g h =
      let (dh', run) = dbfs_readdir_lem os collect fuel (slash ∷ []) ddd es [] w walk enough in
      let root : is_root (slash ∷ []) ≡ true = is_root_refl in
      (
        dh',
        listing (slash ∷ []) true es,
        rw (root, offer-collect (listing (slash ∷ []) true es) []) at run,
        listing_complete os ordered w.base (slash ∷ []) true (slash ∷ x ∷ xs) ddd' (x ∷ xs) g
            (visit_at_root x xs h) (λ q a b. visit_root-ne-leave (slash ∷ []) q) es
            (dentry (slash ∷ [])) walk (λ j k. k)
            (unfold dbfs_bt_compare in strcmp-longer (slash ∷ []) x xs),
      )
