-- ===== src/Dir/Dangling.antt =====
-- A directory handle whose key buffer realloc has moved: dbfs_readdir, then dbfs_closedir.
use mathlib.Core.Path.{subst}
use mangoo.Base.{
  ℕ, zero, suc, ◌<◌, ◌≡◌, refl, inl, inr, Bool, true, false, some, List, ◌∷◌, arith, Option-cases,
  length,
}
use mangoo.Types.{
  Text, Key, Entry, dentry, ok, not_found, eio, Code, success, key_size, DentryData, Handle,
  dangling, dbfs_ddk_size,
}
use mangoo.System.{System, World, returns, undefined}
use mangoo.Handle.{dbfs_freehandle, free_key, close_cursor}
use mangoo.Dir.Listing.{Walk}
use mangoo.System.Laws.{IsOrdered, HasMemory}
use mangoo.Handle.Life.{leaked, one_cursor}
use mangoo.Dir.Readdir.{dbfs_dopen_lem, dir_handle, dbfs_readdir_lem}
use mangoo.Dir.{dbfs_dopen, cursor_get_next, is_root, dbfs_closedir}
use mangoo.Dir.Read.{
  Filler, visit_entry, Search, take_entry, leave_search, readdir_loop, dbfs_readdir,
}
use mangoo.Dir.Ends.{
  Dangles, Ends, Ends-running, Ends-pure, Ends-bind, Ends-answer, Ends-visit, Ends-success,
}

-- The key buffer is no longer the handle's, and the handle's is gone.
record IsMoved (s : Search) : Type 0 where
  aliased : s.aliased ≡ false
  key : s.dh.attr_ddk ≡ dangling

module _ (os : System) {F : Type 0} (filler : Filler F) (locator : Text) (isroot : Bool) where
  take_entry-IsMoved : (s : Search) (e : Entry) → IsMoved s → IsMoved (take_entry os s e)
  unfolding take_entry
  take_entry-IsMoved s e h = record { aliased = rw (h.aliased); key = rw (h.aliased) }

  readdir_loop-Ends :
      (fuel : ℕ) (s : Search) (finfo : F)
      → IsMoved s
      → Ends (readdir_loop os filler fuel locator isroot s finfo)
  unfolding readdir_loop leave_search
  readdir_loop-Ends zero s finfo h = Ends-running
  readdir_loop-Ends (suc fuel) s finfo h = Ends-bind (cursor_get_next os s.dh) (λ reply.
      Ends-answer reply
        (λ entry.
          let t = take_entry os s entry in
          let k = take_entry-IsMoved s entry h in
          Ends-visit (visit_entry locator isroot entry)
            (Ends-pure (leave_search os t success finfo) k.key) (readdir_loop-Ends fuel t finfo k)
            (λ name.
              let r = filler finfo name t.dh.attr_ddd.ddd_type in
              Ends-success (r.0) (readdir_loop-Ends fuel t (r.1) k)
                (λ c. Ends-pure (leave_search os t c (r.1)) k.key)))
        (λ e. Ends-pure (leave_search os s (elim e [ not_found ↦ success | _ ↦ eio ]) finfo) h.key))

  cursor_get_next_lem :
      (dh : Handle) (k : Key) (e : Entry) (w : World os.State)
      → dh.dbc ≡ some (some k)
      → os.cursor_next w.base (some k) ≡ ok e
      → cursor_get_next os dh w ≡ returns (ok e, w)
  unfolding cursor_get_next
  cursor_get_next_lem dh k e w at next = rw at (rw next)

  -- A buffer that is too small and is moved.
  take_entry-moves :
      (s : Search) (e : Entry)
      → s.room < key_size (e.0)
      → os.realloc_moves s.room (key_size (e.0)) ≡ true
      → IsMoved (take_entry os s e)
  unfolding take_entry
  take_entry-moves s e long moves = record {
    aliased = ground (arith, moves);
    key = ground (arith, moves);
  }

  -- A first round that moves the buffer.
  readdir_loop-Dangles :
      (fuel : ℕ) (s : Search) (k : Key) (e : Entry) (finfo : F) (w : World os.State)
      → s.dh.dbc ≡ some (some k)
      → os.cursor_next w.base (some k) ≡ ok e
      → IsMoved (take_entry os s e)
      → Dangles (readdir_loop os filler (suc fuel) locator isroot s finfo w)
  unfolding readdir_loop leave_search
  readdir_loop-Dangles fuel s k e finfo w at next moved =
      let t = take_entry os s e in
      let ends =
        Ends-visit (visit_entry locator isroot e)
          (Ends-pure (leave_search os t success finfo) moved.key)
          (readdir_loop-Ends fuel t finfo moved)
          (λ name.
            let r = filler finfo name t.dh.attr_ddd.ddd_type in
            Ends-success (r.0) (readdir_loop-Ends fuel t (r.1) moved)
              (λ c. Ends-pure (leave_search os t c (r.1)) moved.key)) in
      rw (cursor_get_next_lem s.dh k e w at next) (ends.at w)

module _ (os : System) where
  closedir_dangling :
      (dh : Handle) (w : World os.State)
      → dh.attr_ddk ≡ dangling
      → dbfs_closedir os dh w ≡ undefined
  unfolding dbfs_closedir dbfs_freehandle close_cursor free_key
  closedir_dangling dh w e = elim (Option-cases dh.dbc) [
    | inl c ↦ ground (arith, c, e)
    | inr (position, c) ↦ ground (arith, c, e)
  ]

  dbfs_readdir_dangling :
      {F : Type 0} (filler : Filler F) (fuel : ℕ) (path : Text) (ddd : DentryData) (e : Entry)
      (es : List Entry) (finfo : F) (w : World os.State)
      → Walk os w.base (dentry path) (e ∷ es)
      → length es < fuel
      → dbfs_ddk_size path < key_size (e.0)
      → os.realloc_moves (dbfs_ddk_size path) (key_size (e.0)) ≡ true
      → (dh : Handle) × (c : Code) × (finfo' : F) × (dbfs_readdir os filler
            (suc fuel)
            (dir_handle path ddd)
            finfo
            w
          ≡ returns ((c, dh, finfo'), w))
        × (dbfs_closedir os dh w ≡ undefined)
  unfolding dbfs_readdir
  dbfs_readdir_dangling filler fuel path ddd e es finfo w walk enough long moves =
      let (dh, run) =
        dbfs_readdir_lem os filler (suc fuel) path ddd (e ∷ es) finfo w walk (omega arith) in
      let s : Search = record {
        dh = dir_handle path ddd;
        aliased = true;
        room = dbfs_ddk_size path;
        size = dbfs_ddk_size path;
      } in
      let moved : IsMoved (take_entry os s e) =
        take_entry-moves os filler path (is_root path) s e long moves in
      let d : Dangles (dbfs_readdir os filler (suc fuel) (dir_handle path ddd) finfo w) =
        readdir_loop-Dangles os filler path (is_root path) fuel s (dentry path) e finfo w refl
          walk.0 moved in
      (dh, _, _, run, closedir_dangling dh w (subst Dangles run d))

  -- A path with a record is opened as a directory and read, with more fuel than there are records
  -- behind it, whatever the callback answers. The key of the first record behind the path's is
  -- longer than the path's own, and realloc moves the block when it makes room for it. Opening and
  -- reading return, and then closing the handle is undefined behaviour: the buffer is freed once
  -- more.
  pub dbfs_readdir-dbfs_closedir :
      {F : Type 0} (filler : Filler F) (fuel : ℕ) (path : Text) (ddd : DentryData) (e : Entry)
      (es : List Entry) (finfo : F) (w : World os.State)
      → IsOrdered os.berkeley
      → HasMemory os.platform
      → os.get w.base (dentry path) ≡ ok ddd
      → Walk os w.base (dentry path) (e ∷ es)
      → length es < fuel
      → dbfs_ddk_size path < key_size (e.0)
      → os.realloc_moves (dbfs_ddk_size path) (key_size (e.0)) ≡ true
      → (dh dh' : Handle) × (u : World os.State) × (c : Code) × (finfo' : F) × (dbfs_dopen os path w
          ≡ returns ((success, some dh), u))
        × (dbfs_readdir os filler (suc fuel) dh finfo u ≡ returns ((c, dh', finfo'), u))
        × (dbfs_closedir os dh' u ≡ undefined)
  dbfs_readdir-dbfs_closedir filler fuel path ddd e es finfo w ordered memory g walk enough long
        moves =
      let u = one_cursor (leaked w) in
      let (dh', c, finfo', run, closed) =
        dbfs_readdir_dangling filler fuel path ddd e es finfo u walk enough long moves in
      (
        dir_handle path ddd,
        dh',
        u,
        c,
        finfo',
        dbfs_dopen_lem os path ddd w ordered memory g,
        run,
        closed,
      )
