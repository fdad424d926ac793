-- ===== src/Fuse/ReadPages.antt =====
-- A directory read page by page: mf_opendir, then one mf_readdir after the other, each at the offset
-- that the filler got with the last name that it took, as the FUSE library does.
use mathlib.Core.List.{append-nil}
use mangoo.Base.{
  ℕ, zero, suc, ◌+◌, ◌≤◌, ◌<◌, ◌≡◌, refl, sym, ap, ◌∙◌, ◌≢◌, false, some, List, [], ◌∷◌, ◌++◌,
  arith, length,
}
use mangoo.Types.{Text, Entry, MangooTypes, success, dentry, ok, Handle, DentryData, slash}
use mangoo.System.{System, M, World, returns, pure, ◌>>=◌}
use mangoo.System.Laws.{IsOrdered, HasMemory}
use mangoo.Handle.Life.{leaked, one_cursor}
use mangoo.Dir.Paths.{is_root-ne}
use mangoo.Dir.Readdir.{dir_handle}
use mangoo.Dir.Listing.{Named, Walk, listing}
use mangoo.Dir.Paging.{IsAt, Paused, Stays}
use mangoo.Api.Store.{dbfs_store}
use mangoo.Fuse.{minus}
use mangoo.Fuse.Directory.{MfDir, mf_opendir, mf_readdir}
use mangoo.Fuse.Fill.{Item, fits, numbered, numbered-append}
use mangoo.Fuse.Pages.{stopped, mf_readdir_before, mf_readdir_before_full}
use mangoo.Fuse.FirstPage.{opened, dots, mf_opendir_lem, mf_readdir_first, mf_readdir_only}

-- Names in a number of pages with room for so many each, and those that are kept: behind every full
-- page the next name is lost.
pub data Pages (room : ℕ) : ℕ → List Named → List Named → Type 0 where
  last_page : (names : List Named) → length names ≤ room → Pages room 1 names names
  full_page :
      (calls : ℕ) (front rest kept : List Named) (name : Text) (type : MangooTypes)
      → length front ≡ room
      → Pages room calls rest kept
      → Pages room (suc calls) (front ++ (name, type) ∷ rest) (front ++ kept)

-- The offset of the last name of a page; of the call itself, if the page is empty.
unfoldable pub last_offset : ℕ → List Item → ℕ
last_offset offset [] = offset
last_offset offset ((name, mode, off) ∷ rest) = last_offset off rest

last_offset-numbered :
    (last : ℕ) (names : List Named)
    → last_offset last (numbered (1 + last) names) ≡ last + length names
unfolding last_offset numbered
last_offset-numbered last [] = omega arith
last_offset-numbered last ((name, type) ∷ names) =
    let next : suc (1 + last) ≡ 1 + (1 + last) = omega arith in
    let all : 1 + last + length names ≡ last + suc (length names) = omega arith in
    ap (λ k. last_offset (1 + last) (numbered k names)) next
    ∙ last_offset-numbered (1 + last) names
    ∙ all

module _ (os : System) (fuel room : ℕ) where
  -- So many calls, over buffers with room for so many names; what the buffers have got, put together.
  unfoldable pub read_pages : ℕ → ℕ → MfDir (List Item) → M os (List Item)
  unfolding last_offset
  read_pages zero offset dir = pure []
  read_pages (suc calls) offset dir = do
    (answer, dir') ← mf_readdir os fuel (fits room) [] offset dir
    rest ← read_pages calls (last_offset offset dir'.buf) dir'
    pure (dir'.buf ++ rest)

  read_pages-next :
      (calls offset : ℕ) (dir dir' : MfDir (List Item)) (items : List Item) (w : World os.State)
      → mf_readdir os fuel (fits room) [] offset dir w ≡ returns ((minus success, dir'), w)
      → read_pages calls (last_offset offset dir'.buf) dir' w ≡ returns (items, w)
      → read_pages (suc calls) offset dir w ≡ returns (dir'.buf ++ items, w)
  unfolding read_pages
  read_pages-next calls offset dir dir' items w run more = rw run (rw more)

  read_pages-zero :
      (offset : ℕ) (dir : MfDir (List Item)) (w : World os.State)
      → read_pages zero offset dir w ≡ returns ([], w)
  unfolding read_pages
  read_pages-zero offset dir w = refl

module _ (os : System) (stays : Stays os) (room fuel : ℕ) (path : Text) (w : World os.State)
    (n : path ≢ []) (m : path ≢ slash ∷ []) where
  -- A page and the pages behind it.
  pages_append :
      (off last : ℕ) (front kept : List Named)
      → off + length front ≡ 1 + last
      → numbered off front ++ numbered (1 + last) kept ≡ numbered off (front ++ kept)
  pages_append off last front kept e = rw (sym e) (sym (numbered-append off front kept))

  read_pages-stopped :
      (calls : ℕ) (dh : Handle) (start last : ℕ) (name : Text) (type : MangooTypes)
      (buf : List Item) (rest kept : List Named)
      → 0 < last
      → Pages room calls rest kept
      → Paused os path false fuel w.base dh rest
      → read_pages os fuel room calls last (stopped dh start (1 + last) name type buf) w
        ≡ returns (numbered (1 + last) kept, w)
  read_pages-stopped _ dh start last name type buf _ _ o (last_page rest space) p =
      let (dir', run, items) =
        mf_readdir_before os stays room fuel path w dh start last name type buf rest o n m p
          space in
      read_pages-next os fuel room zero last _ dir' [] w run (read_pages-zero os fuel room _ dir' w)
      ∙ ap (λ b. returns (b, w)) (append-nil dir'.buf ∙ items)
  read_pages-stopped _ dh start last name type buf _ _ o
        (full_page calls front rest kept name' type' full more) p =
      let last' = last + length front in
      let shape : 1 + last + length front ≡ 1 + last' = omega arith in
      let (dh', run, paused) =
        mf_readdir_before_full os stays room fuel path w dh start last name type buf _ o n m p front
          name' type' rest refl full in
      let dir' = stopped dh' last (1 + last') name' type' (numbered (1 + last) front) in
      read_pages-next os fuel room calls last _ dir' _ w (rw shape at run) (
        ap (λ k. read_pages os fuel room calls k dir' w) (last_offset-numbered last front)
        ∙ read_pages-stopped calls dh' last last' name' type' (numbered (1 + last) front) rest kept
            (omega arith) more paused)
      ∙ ap (λ b. returns (b, w)) (pages_append (1 + last) last' front kept shape)

  first_offset :
      (front : List Named) → last_offset 0 (numbered 0 (dots ++ front)) ≡ 1 + length front
  unfolding last_offset numbered
  first_offset front = last_offset-numbered 1 front

  first-Pages :
      (calls : ℕ) (names kept : List Named) (dh : Handle) (es : List Entry)
      → IsAt path dh path
      → Walk os w.base (dentry path) es
      → length es < fuel
      → 2 ≤ room
      → names ≡ dots ++ listing path false es
      → Pages room calls names kept
      → read_pages os fuel room calls 0 (opened dh []) w ≡ returns (numbered 0 kept, w)
  first-Pages _ _ _ dh es at walk enough two e (last_page names space) =
      let size : length names ≡ 2 + length (listing path false es) = ap length e ∙ omega arith in
      let (dir', run, items, done) =
        mf_readdir_only os stays room fuel path w dh es at (is_root-ne path m) walk enough two
          (omega arith) in
      read_pages-next os fuel room zero 0 _ dir' [] w run (read_pages-zero os fuel room _ dir' w)
      ∙ ap (λ b. returns (b, w)) (append-nil dir'.buf ∙ items ∙ ap (numbered 0) (sym e))
  first-Pages _ _ _ dh es at walk enough two e (full_page calls [] rest kept name type full more) =
      absurd (omega arith)
  first-Pages _ _ _ dh es at walk enough two e
        (full_page calls (d ∷ []) rest kept name type full more) =
      absurd (omega arith)
  first-Pages _ _ _ dh es at walk enough two e
        (full_page calls (d ∷ d' ∷ front) rest kept name type full more) =
      let split : listing path false es ≡ front ++ (name, type) ∷ rest = cc e in
      let same : dots ++ front ≡ d ∷ d' ∷ front = cc e in
      let last = 1 + length front in
      let shape : 2 + length front ≡ 1 + last = omega arith in
      let (dh', run, paused) =
        mf_readdir_first os stays room fuel path w dh es at (is_root-ne path m) walk enough two
          front name type rest split (omega arith) in
      let dir' = stopped dh' 2 (1 + last) name type (numbered 0 (dots ++ front)) in
      let after : 0 + length (d ∷ d' ∷ front) ≡ 1 + last = omega arith in
      read_pages-next os fuel room calls 0 _ dir' _ w (rw shape at run) (
        ap (λ k. read_pages os fuel room calls k dir' w) (first_offset front)
        ∙ read_pages-stopped calls dh' 2 last name type (numbered 0 (dots ++ front)) rest kept
            (omega arith) more paused)
      ∙ ap (λ l. returns (numbered 0 l ++ numbered (1 + last) kept, w)) same
      ∙ ap (λ b. returns (b, w)) (pages_append 0 last (d ∷ d' ∷ front) kept after)

module _ (os : System) (ordered : IsOrdered os.berkeley) (memory : HasMemory os.platform)
    (stays : Stays os) where
  -- A directory other than the root is opened, on a machine that does not fail and where realloc
  -- never moves a block, and read in several calls of mf_readdir. Each has room for the same number
  -- of names, two or more, and each behind the first is made at the offset that came with the last
  -- name that was taken, which is where FUSE goes on. There are as many calls as take ".", ".." and
  -- the names listed for the path, if behind each full page one name is left out. The calls return,
  -- the database is left as it is, and the pages put together are just the names that are not left
  -- out, in order, with the offsets 0, 1, 2 and so on.
  pub mf_opendir-read_pages :
      (fuel room calls : ℕ) (path : Text) (ddd : DentryData) (es : List Entry) (kept : List Named)
      (w : World os.State)
      → path ≢ []
      → path ≢ slash ∷ []
      → os.get w.base (dentry path) ≡ ok ddd
      → Walk os w.base (dentry path) es
      → length es < fuel
      → 2 ≤ room
      → Pages room calls (dots ++ listing path false es) kept
      → (dir : MfDir (List Item)) × (u : World os.State) × (mf_opendir os
            (some (dbfs_store os))
            []
            path
            w
          ≡ returns ((minus success, some dir), u))
        × (read_pages os fuel room calls 0 dir u ≡ returns (numbered 0 kept, u))
        × (u.base ≡ w.base)
  mf_opendir-read_pages fuel room calls path ddd es kept w n m g walk enough two pages =
      let u = one_cursor (leaked w) in
      let at : IsAt path (dir_handle path ddd) path = record {
        cursor = refl;
        key = refl;
        named = refl;
        table = refl;
      } in
      (
        opened (dir_handle path ddd) [],
        u,
        mf_opendir_lem os path ddd w ordered memory g,
        first-Pages os stays room fuel path u n m calls (dots ++ listing path false es) kept
            (dir_handle path ddd) es at walk enough two refl pages,
        refl,
      )
