-- ===== src/Dir/Paging.antt =====
-- dbfs_readdir stopped by its callback: where it stands, and which names are left.
use mangoo.Base.{
  ℕ, zero, suc, ◌<◌, ◌≡◌, refl, ◌≢◌, inl, inr, Bool, true, false, some, List, [], ◌∷◌, arith,
  length,
}
use mangoo.Types.{
  Text, Key, Entry, dentry, fsinfo, block, ok, Code, success, DentryData, Handle, holds, key_size,
  dbfs_directory_vector, MangooTypes,
}
use mangoo.System.{System, World, returns}
use mangoo.Dir.Read.{dbfs_readdir}
use mangoo.Dir.{is_root, cursor_get_next, fetched, is_root}
use mangoo.Dir.Read.{
  Filler, Visit, leave, skip, emit, visit, visit_entry, Search, take_entry, leave_search,
  readdir_loop, dbfs_readdir,
}
use mangoo.Dir.Listing.{
  offer_accepted, offer_refused, success_cases, listing_leave, listing_skip, listing_emit, Walk,
  Named, listing, offer,
}

-- The names behind the first that is not accepted.
unfoldable pub left_over : {F : Type 0} → Filler F → List Named → F → List Named
left_over filler [] finfo = []
left_over filler ((name, type) ∷ rest) finfo =
    let (error, finfo') = filler finfo name type in
    elim error [ success ↦ left_over filler rest finfo' | e ↦ rest ]

module _ {F : Type 0} (filler : Filler F) where
  pub left_over_accepted :
      (name : Text) (type : MangooTypes) (rest : List Named) (finfo : F)
      → (filler finfo name type).0 ≡ success
      → left_over filler ((name, type) ∷ rest) finfo
        ≡ left_over filler rest (filler finfo name type).1
  unfolding left_over
  left_over_accepted name type rest finfo e = rw (e, left_over)

  pub left_over_refused :
      (name : Text) (type : MangooTypes) (rest : List Named) (finfo : F) (c : Code)
      → (filler finfo name type).0 ≡ c
      → c ≢ success
      → left_over filler ((name, type) ∷ rest) finfo ≡ rest
  unfolding left_over
  left_over_refused name type rest finfo success e n = absurd (n refl)
  left_over_refused name type rest finfo c e n = rw (e, left_over)

-- A directory handle that stands on the record of a path, which its key buffer holds.
pub record IsAt (locator : Text) (dh : Handle) (path : Text) : Type 0 where
  pub cursor : dh.dbc ≡ some (some (dentry path))
  pub key : dh.attr_ddk ≡ holds (dentry path)
  pub named : dh.locator ≡ some locator
  pub table : dh.mh_fvector ≡ dbfs_directory_vector

-- realloc never moves a block.
abbrev pub Stays : System → Type 0
Stays os = (old new : ℕ) → os.realloc_moves old new ≡ false

module _ (os : System) (locator : Text) (isroot : Bool) (bound : ℕ) where
  -- The handle stands on a path that has been emitted, and the names behind it, among fewer
  -- records than the bound, are the rest.
  pub record Paused (s : os.State) (dh : Handle) (rest : List Named) : Type 0 where
    pub path : Text
    pub name : Text
    pub behind : List Entry
    pub stands : IsAt locator dh path
    pub visited : visit locator isroot path ≡ emit name
    pub walk : Walk os s (dentry path) behind
    pub names : listing locator isroot behind ≡ rest
    pub few : length behind < bound

  module _ {F : Type 0} (filler : Filler F) (stays : Stays os) (w : World os.State) where
    -- A search whose buffer is still the handle's.
    pub record IsSearch (s : Search) (k : Key) : Type 0 where
      pub cursor : s.dh.dbc ≡ some (some k)
      pub aliased : s.aliased ≡ true
      pub named : s.dh.locator ≡ some locator
      pub table : s.dh.mh_fvector ≡ dbfs_directory_vector

    take_entry-IsSearch :
        (s : Search) (k : Key) (e : Entry) → IsSearch s k → IsSearch (take_entry os s e) (e.0)
    unfolding take_entry
    take_entry-IsSearch s k e h = record {
      cursor = refl;
      aliased = ground (arith, stays s.room (key_size (e.0)));
      named = h.named;
      table = h.table;
    }

    take_entry-IsAt :
        (s : Search) (k : Key) (path : Text) (ddd : DentryData) (n : ℕ)
        → IsSearch s k
        → IsAt locator (record (take_entry os s (dentry path, ddd)).dh { ddk_size = n }) path
    unfolding take_entry
    take_entry-IsAt s k path ddd n h = record {
      cursor = refl;
      key = ground (arith, stays s.room (key_size (dentry path)));
      named = h.named;
      table = h.table;
    }

    -- The loop ends at a name that is not accepted.
    abbrev Pauses : ℕ → Search → F → Code × F → List Named → Type 0
    Pauses fuel s finfo r rest =
        (dh : Handle) × (readdir_loop os filler fuel locator isroot s finfo w
          ≡ returns ((r.0, dh, r.1), w))
        × Paused w.base dh rest

    module _ (fuel : ℕ) (k : Key) (s : Search) (finfo : F) (h : IsSearch s k) (path : Text)
        (ddd : DentryData) (next : os.cursor_next w.base (some k) ≡ ok (dentry path, ddd)) where
      abbrev after : Search
      after = take_entry os s (dentry path, ddd)

      Pauses-skip :
          (r : Code × F) (rest : List Named)
          → visit locator isroot path ≡ skip
          → Pauses fuel after finfo r rest
          → Pauses (suc fuel) s finfo r rest
      unfolding readdir_loop cursor_get_next visit_entry
      Pauses-skip r rest v (dh, run, p) = (dh, rw (h.cursor) (rw next (rw v run)), p)

      module _ (name : Text) (v : visit locator isroot path ≡ emit name) where
        abbrev answer : Code × F
        answer = filler finfo name ddd.ddd_type

        Pauses-accepted :
            (r : Code × F) (rest : List Named)
            → answer.0 ≡ success
            → Pauses fuel after answer.1 r rest
            → Pauses (suc fuel) s finfo r rest
        unfolding readdir_loop cursor_get_next visit_entry take_entry fetched
        Pauses-accepted r rest a (dh, run, p) = (dh, rw (h.cursor) (rw next (rw v (rw a run))), p)

        Pauses-refused :
            (c : Code) (es : List Entry)
            → answer.0 ≡ c
            → c ≢ success
            → Walk os w.base (dentry path) es
            → length es < bound
            → Pauses (suc fuel) s finfo (c, answer.1) (listing locator isroot es)
        unfolding readdir_loop cursor_get_next visit_entry leave_search
        Pauses-refused success es a n walk few = absurd (n refl)
        Pauses-refused c es a n walk few = (
          record after.dh { ddk_size = after.size },
          rw (h.cursor) (rw next (rw v (unfold take_entry fetched in rw a))),
          record {
            path = path;
            name = name;
            behind = es;
            stands = take_entry-IsAt s k path ddd after.size h;
            visited = v;
            walk = walk;
            names = refl;
            few = few;
          },
        )

    -- The loop over names that are not all accepted.
    abbrev PausesAt : ℕ → Search → F → List Named → Type 0
    PausesAt fuel s finfo names =
        (offer filler names finfo).0 ≢ success
        → Pauses fuel s finfo (offer filler names finfo) (left_over filler names finfo)

    module _ (fuel : ℕ) (k : Key) (s : Search) (finfo : F) (h : IsSearch s k) (path : Text)
        (ddd : DentryData) (next : os.cursor_next w.base (some k) ≡ ok (dentry path, ddd))
        (es : List Entry) (walk : Walk os w.base (dentry path) es) (few : length es < bound) where
      PausesAt-emit :
          (name : Text)
          → visit locator isroot path ≡ emit name
          → ((finfo' : F)
              → PausesAt fuel
                  (take_entry os s (dentry path, ddd))
                  finfo'
                  (listing locator isroot es))
          → PausesAt (suc fuel) s finfo ((name, ddd.ddd_type) ∷ listing locator isroot es)
      PausesAt-emit name v more n =
          let rest = listing locator isroot es in
          let answer = filler finfo name ddd.ddd_type in
          elim (success_cases answer.0) [
            | inl a ↦
                rw
                  (
                    offer_accepted filler name ddd.ddd_type rest finfo a,
                    left_over_accepted filler name ddd.ddd_type rest finfo a,
                  )
                  (Pauses-accepted fuel k s finfo h path ddd next name v _ _ a (
                    more answer.1 (rw (offer_accepted filler name ddd.ddd_type rest finfo a) at n)))
            | inr a ↦
                rw
                  (
                    offer_refused filler name ddd.ddd_type rest finfo answer.0 refl a,
                    left_over_refused filler name ddd.ddd_type rest finfo answer.0 refl a,
                  )
                  (Pauses-refused fuel k s finfo h path ddd next name v answer.0 es refl a walk few)
          ]

      PausesAt-visit :
          (v : Visit)
          → visit locator isroot path ≡ v
          → ((finfo' : F)
              → PausesAt fuel
                  (take_entry os s (dentry path, ddd))
                  finfo'
                  (listing locator isroot es))
          → PausesAt (suc fuel) s finfo (listing locator isroot ((dentry path, ddd) ∷ es))
      unfolding visit_entry
      PausesAt-visit leave v more =
          rw (listing_leave locator isroot (dentry path, ddd) es v)
            (λ n. absurd (n (unfold offer in refl)))
      PausesAt-visit skip v more =
          rw (listing_skip locator isroot (dentry path, ddd) es v)
            (λ n. Pauses-skip fuel k s finfo h path ddd next _ _ v (more finfo n))
      PausesAt-visit (emit name) v more =
          rw (listing_emit locator isroot (dentry path, ddd) es name v) (PausesAt-emit name v more)

    pub readdir_loop-Paused :
        (es : List Entry) (fuel : ℕ) (k : Key) (s : Search) (finfo : F)
        → IsSearch s k
        → Walk os w.base k es
        → length es < fuel
        → length es < bound
        → PausesAt fuel s finfo (listing locator isroot es)
    unfolding listing offer visit_entry
    readdir_loop-Paused es zero k s finfo h walk enough few n = absurd (omega arith)
    readdir_loop-Paused [] (suc fuel) k s finfo h walk enough few n = absurd (n refl)
    readdir_loop-Paused ((dentry path, ddd) ∷ es) (suc fuel) k s finfo h walk enough few n =
        PausesAt-visit fuel k s finfo h path ddd walk.0 es walk.1 (omega arith)
          (visit locator isroot path) refl
          (λ finfo'.
            readdir_loop-Paused es fuel (dentry path) (take_entry os s (dentry path, ddd)) finfo'
              (take_entry-IsSearch s k (dentry path, ddd) h) walk.1 (omega arith) (omega arith))
          n
    readdir_loop-Paused ((fsinfo, i) ∷ es) (suc fuel) k s finfo h walk enough few n =
        absurd (n refl)
    readdir_loop-Paused ((block i o, b) ∷ es) (suc fuel) k s finfo h walk enough few n =
        absurd (n refl)

-- dbfs_readdir through a handle that stands on a record, with a callback that does not accept all
-- names: the names are offered up to there, and the handle that is left stands there.
module _ (os : System) {F : Type 0} (filler : Filler F) (stays : Stays os) where
  pub dbfs_readdir-loop :
      (fuel : ℕ) (locator path : Text) (dh : Handle) (finfo : F) (w : World os.State)
      → IsAt locator dh path
      → dbfs_readdir os filler fuel dh finfo w
        ≡ readdir_loop os filler fuel locator
            (is_root path)
            (record { dh = dh; aliased = true; room = dh.ddk_size; size = dh.ddk_size })
            finfo
            w
  unfolding dbfs_readdir
  dbfs_readdir-loop fuel locator path dh finfo w at = ground (arith, at.key, at.named)

  pub dbfs_readdir-Paused :
      (fuel : ℕ) (locator path : Text) (dh : Handle) (es : List Entry) (finfo : F)
      (w : World os.State) (isroot : Bool)
      → is_root path ≡ isroot
      → IsAt locator dh path
      → Walk os w.base (dentry path) es
      → length es < fuel
      → let names = listing locator isroot es in
        (offer filler names finfo).0 ≢ success
        → (dh' : Handle) × (dbfs_readdir os filler fuel dh finfo w
            ≡ returns (((offer filler names finfo).0, dh', (offer filler names finfo).1), w))
          × Paused os locator isroot fuel w.base dh' (left_over filler names finfo)
  dbfs_readdir-Paused fuel locator path dh es finfo w isroot e at walk enough n =
      let start : Search = record {
        dh = dh;
        aliased = true;
        room = dh.ddk_size;
        size = dh.ddk_size;
      } in
      rw (dbfs_readdir-loop fuel locator path dh finfo w at, e)
        (readdir_loop-Paused os locator isroot fuel filler stays w es fuel (dentry path) start finfo
          (record { cursor = at.cursor; aliased = refl; named = at.named; table = at.table }) walk
          enough enough n)
