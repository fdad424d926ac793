-- ===== src/Fuse/LostName.antt =====
-- A listing that goes on at the offset of the last name that was taken.
use mangoo.Base.{ℕ, ◌+◌, ◌≤◌, ◌<◌, ◌≡◌, refl, ◌≢◌, false, some, List, [], ◌∷◌, ◌++◌, arith, length}
use mangoo.Types.{Text, Entry, MangooTypes, success, dentry, ok, DentryData, slash}
use mangoo.System.{System, World, returns}
use mangoo.System.Laws.{IsOrdered, HasMemory}
use mangoo.Handle.Life.{leaked, one_cursor}
use mangoo.Dir.Paths.{is_root-ne}
use mangoo.Dir.Readdir.{dir_handle}
use mangoo.Dir.Listing.{Named, Walk, listing}
use mangoo.Dir.Paging.{IsAt, Stays}
use mangoo.Api.Store.{dbfs_store}
use mangoo.Fuse.{minus}
use mangoo.Fuse.Directory.{MfDir, mf_opendir, mf_readdir}
use mangoo.Fuse.Fill.{Item, fits, numbered}
use mangoo.Fuse.Pages.{mf_readdir_before, stopped}
use mangoo.Fuse.FirstPage.{opened, dots, mf_opendir_lem, mf_readdir_first}

module _ (os : System) (ordered : IsOrdered os.berkeley) (memory : HasMemory os.platform)
    (stays : Stays os) where
  -- A directory other than the root is opened and read once with room for ".", ".." and some of its
  -- names, but not for the next one, on a machine that does not fail and where realloc never moves a
  -- block. The first call hands over ".", ".." and the names that there is room for. When the
  -- listing goes on at the offset of the last name that was taken, with room for all names that are
  -- left, the second call hands over exactly the names behind that next one, numbered from the
  -- offset at which the next one was refused.
  pub mf_readdir_loses_name :
      (fuel room : ℕ) (path name : Text) (type : MangooTypes) (front rest : List Named)
      (ddd : DentryData) (es : List Entry) (w : World os.State)
      → path ≢ []
      → path ≢ slash ∷ []
      → os.get w.base (dentry path) ≡ ok ddd
      → Walk os w.base (dentry path) es
      → length es < fuel
      → listing path false es ≡ front ++ (name, type) ∷ rest
      → length rest ≤ room
      → (dir dir' dir'' : MfDir (List Item)) × (u : World os.State) × (mf_opendir os
            (some (dbfs_store os))
            []
            path
            w
          ≡ returns ((minus success, some dir), u))
        × (mf_readdir os fuel (fits (2 + length front)) [] 0 dir u
            ≡ returns ((minus success, dir'), u))
        × (dir'.buf ≡ numbered 0 (dots ++ front))
        × (mf_readdir os fuel (fits room) [] (1 + length front) dir' u
            ≡ returns ((minus success, dir''), u))
        × (dir''.buf ≡ numbered (2 + length front) rest)
  mf_readdir_loses_name fuel room path name type front rest ddd es w n m g walk enough split space =
      let u = one_cursor (leaked w) in
      let at : IsAt path (dir_handle path ddd) path = record {
        cursor = refl;
        key = refl;
        named = refl;
        table = refl;
      } in
      let (dh, first, paused) =
        mf_readdir_first os stays (2 + length front) fuel path u (dir_handle path ddd) es at
          (is_root-ne path m) walk enough (omega arith) front name type rest split refl in
      let next : 1 + (1 + length front) ≡ 2 + length front = omega arith in
      let (dir'', second, left) =
        mf_readdir_before os stays room fuel path u dh 2 (1 + length front) name type
          (numbered 0 (dots ++ front)) rest (omega arith) n m paused space in
      (
        opened (dir_handle path ddd) [],
        stopped dh 2 (2 + length front) name type (numbered 0 (dots ++ front)),
        dir'',
        u,
        mf_opendir_lem os path ddd w ordered memory g,
        first,
        refl,
        (rw next at second),
        (rw next at left),
      )
