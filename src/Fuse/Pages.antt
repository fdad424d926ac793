-- ===== src/Fuse/Pages.antt =====
-- mf_readdir, one call after the other, over buffers that take a number of names.
use mangoo.Base.{
  ℕ, ◌+◌, ◌≤◌, ◌<◌, ◌≡◌, ap, ◌∙◌, ◌≢◌, true, false, none, some, List, [], ◌∷◌, ◌++◌, arith, ◌==◌,
  length,
}
use mangoo.Types.{Text, Entry, MangooTypes, success, enobufs, Code, dentry, Handle, slash}
use mangoo.System.{System, World, returns}
use mangoo.Dir.{is_root}
use mangoo.Dir.Visits.{is_root-emitted}
use mathlib.Core.Path.{subst}
use mangoo.Dir.Read.{Search, readdir_loop, dbfs_readdir}
use mangoo.Dir.Listing.{Named, Walk, listing, offer, readdir_loop_lem}
use mangoo.Dir.Paging.{left_over, IsAt, Paused, Stays, dbfs_readdir-loop, dbfs_readdir-Paused}
use mangoo.Api.{as_directory, dbfs_directory_ops}
use mangoo.Api.Stream.{mdir_read}
use mangoo.Fuse.{minus}
use mangoo.Fuse.Directory.{MfDir, mf_filler, mf_readdir, resume}
use mangoo.Fuse.Fill.{Item, fits, numbered, taken, refused, offer_fits, offer_full}

module _ (os : System) (stays : Stays os) (room fuel : ℕ) (path : Text) (w : World os.State) where
  module _ (dir : MfDir (List Item)) (q : Text) (es : List Entry) (at : IsAt path dir.handle q)
      (below : is_root q ≡ false) (walk : Walk os w.base (dentry q) es) (enough : length es < fuel)
      (start : dir.starting_off ≤ dir.cur_off) where
    mdir_read-directory :
        mdir_read os dir.handle fuel (mf_filler (fits room)) dir
        ≡ dbfs_readdir os (mf_filler (fits room)) fuel dir.handle dir
    unfolding mdir_read as_directory dbfs_directory_ops dbfs_readdir
    mdir_read-directory = rw (at.table)

    -- The names go on beyond the buffer.
    pub mdir_read_full :
        (front : List Named) (name : Text) (type : MangooTypes) (rest : List Named)
        → listing path false es ≡ front ++ (name, type) ∷ rest
        → length dir.buf + length front ≡ room
        → (dh : Handle) × (mdir_read os dir.handle fuel (mf_filler (fits room)) dir w
            ≡ returns ((enobufs, dh, refused room (taken room dir front) name type), w))
          × Paused os path false fuel w.base dh rest
    mdir_read_full front name type rest split full =
        let filler = mf_filler (fits room) in
        let (offered, left) = offer_full room front name type rest dir start full in
        let given : offer filler (listing path false es) dir
            ≡ (enobufs, refused room (taken room dir front) name type) =
          ap (λ l. offer filler l dir) split ∙ offered in
        let (dh, run, paused) =
          dbfs_readdir-Paused os filler stays fuel path q dir.handle es dir w false below at walk
            enough (λ e. cc (given, e)) in
        (
          dh,
          ap (λ m. m w) mdir_read-directory
              ∙ run
              ∙ ap (λ (r : Code × MfDir (List Item)). returns ((r.0, dh, r.1), w)) given,
          subst (Paused os path false fuel w.base dh)
              (ap (λ l. left_over filler l dir) split ∙ left) paused,
        )

    pub mdir_read_fits :
        length dir.buf + length (listing path false es) ≤ room
        → (dh : Handle) × (mdir_read os dir.handle fuel (mf_filler (fits room)) dir w
            ≡ returns ((success, dh, taken room dir (listing path false es)), w))
    mdir_read_fits space =
        let filler = mf_filler (fits room) in
        let given = offer_fits room (listing path false es) dir start space in
        let search : Search = record {
          dh = dir.handle;
          aliased = true;
          room = dir.handle.ddk_size;
          size = dir.handle.ddk_size;
        } in
        let (dh, run) =
          readdir_loop_lem os filler path false w es fuel (dentry q) search dir at.cursor walk
            enough in
        (
          dh,
          ap (λ m. m w) mdir_read-directory
              ∙ dbfs_readdir-loop os filler stays fuel path q dir.handle dir w at
              ∙ ap (λ b. readdir_loop os filler fuel path b search dir w) below
              ∙ run
              ∙ ap (λ (r : Code × MfDir (List Item)). returns ((r.0, dh, r.1), w)) given,
        )

  -- What mf_readdir answers, from its two parts.
  pub mf_readdir_parts :
      (dir dir1 dir2 : MfDir (List Item)) (off off1 : ℕ) (c : Code) (dh : Handle)
      → resume (fits room) (record dir { buf = [] }) off ≡ (dir1, off1)
      → mdir_read os dir1.handle fuel
          (mf_filler (fits room))
          (record dir1 { starting_off = off1 })
          w
        ≡ returns ((c, dh, dir2), w)
      → mf_readdir os fuel (fits room) [] off dir w
        ≡ returns
            ((elim c [ enobufs ↦ minus success | e ↦ minus e ], record dir2 { handle = dh }), w)
  unfolding mf_readdir
  mf_readdir_parts dir dir1 dir2 off off1 c dh resumes reads = rw resumes (rw reads)

-- A directory whose listing has stopped at a name that did not fit, and which stands at an offset.
abbrev pub stopped : Handle → ℕ → ℕ → Text → MangooTypes → List Item → MfDir (List Item)
stopped dh start off name type buf = record {
  handle = dh;
  cur_off = off;
  starting_off = start;
  saved_name = some name;
  saved_off = off;
  saved_type = type;
  buf = buf;
}

module _ (os : System) (stays : Stays os) (room fuel : ℕ) (path : Text) (w : World os.State) where
  module _ (dh : Handle) (start last : ℕ) (name : Text) (type : MangooTypes) (buf : List Item)
      (rest : List Named) (o : 0 < last) (n : path ≢ []) (m : path ≢ slash ∷ [])
      (p : Paused os path false fuel w.base dh rest) where
    abbrev pub dir : MfDir (List Item)
    dir = stopped dh start (1 + last) name type buf

    -- The saved name is forgotten, where the call is made at the offset of the last name taken.
    resume_before :
        resume (fits room) (record dir { buf = [] }) last
        ≡ (record dir { buf = []; saved_name = none }, last)
    unfolding resume
    resume_before =
        let more : (last == 0) ≡ false = ground arith in
        let other : (1 + last == last) ≡ false = ground arith in rw (more, other)

    pub mf_readdir_before :
        length rest ≤ room
        → (dir' : MfDir (List Item)) × (mf_readdir os fuel (fits room) [] last dir w
            ≡ returns ((minus success, dir'), w))
          × (dir'.buf ≡ numbered (1 + last) rest)
    mf_readdir_before space =
        let (dh', run) =
          mdir_read_fits os stays room fuel path w
            (record dir { buf = []; saved_name = none; starting_off = last }) p.path p.behind
            p.stands (is_root-emitted path p.path p.name n m p.visited) p.walk p.few (omega arith)
            (rw p.names (omega arith)) in
        (
          _,
          mf_readdir_parts os stays room fuel path w dir
              (record dir { buf = []; saved_name = none }) _ last last success dh' resume_before
              run,
          ap (numbered (1 + last)) p.names,
        )

    -- A page behind it that is filled.
    pub mf_readdir_before_full :
        (front : List Named) (name' : Text) (type' : MangooTypes) (rest' : List Named)
        → rest ≡ front ++ (name', type') ∷ rest'
        → length front ≡ room
        → (dh' : Handle) × (mf_readdir os fuel (fits room) [] last dir w
            ≡ returns (
              (
                minus success,
                stopped dh' last (1 + last + length front) name' type' (numbered (1 + last) front),
              ),
              w,
            ))
          × Paused os path false fuel w.base dh' rest'
    mf_readdir_before_full front name' type' rest' split full =
        let (dh', run, paused) =
          mdir_read_full os stays room fuel path w
            (record dir { buf = []; saved_name = none; starting_off = last }) p.path p.behind
            p.stands (is_root-emitted path p.path p.name n m p.visited) p.walk p.few (omega arith)
            front name' type' rest' (p.names ∙ split) (omega arith) in
        (
          dh',
          mf_readdir_parts os stays room fuel path w dir
              (record dir { buf = []; saved_name = none }) _ last last enobufs dh' resume_before
              run,
          paused,
        )
