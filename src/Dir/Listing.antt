-- ===== src/Dir/Listing.antt =====
-- What dbfs_readdir hands to its callback, over the records behind the directory's.
use mathlib.Core.Path.{subst}
use mangoo.Base.{
  ℕ, zero, suc, ◌<◌, ◌≡◌, refl, sym, ◌≢◌, ◌⊎◌, inl, inr, Bool, some, List, [], ◌∷◌, arith, length,
}
use mangoo.Types.{
  Text, Key, Entry, dentry, fsinfo, block, ok, err, not_found, Code, success, DentryData, Handle,
  MangooTypes,
}
use mangoo.System.{System, World, returns}
use mangoo.Dir.{cursor_get_next, fetched}
use mangoo.Dir.Read.{
  Filler, Visit, leave, skip, emit, visit_entry, Search, take_entry, leave_search, readdir_loop,
}

module _ (os : System) where
  -- The records that a cursor meets behind a key, up to the last one.
  abbrev pub Walk : os.State → Key → List Entry → Type 0
  Walk s k [] = os.cursor_next s (some k) ≡ err not_found
  Walk s k (e ∷ es) = (os.cursor_next s (some k) ≡ ok e) × Walk s (e.0) es

-- A name with the type of its file.
abbrev pub Named : Type 0
Named = Text × MangooTypes

abbrev pub entry_type : Entry → MangooTypes
entry_type (dentry path, ddd) = ddd.ddd_type
entry_type (k, value) = 0

-- The names for a directory among the records behind it, in their order.
unfoldable pub listing : Text → Bool → List Entry → List Named
unfolding visit_entry
listing locator isroot [] = []
listing locator isroot (e ∷ es) = elim (visit_entry locator isroot e) [
  | leave ↦ []
  | skip ↦ listing locator isroot es
  | emit name ↦ (name, entry_type e) ∷ listing locator isroot es
]

-- The callback on one name after the other, up to the first that it does not accept.
unfoldable pub offer : {F : Type 0} → Filler F → List Named → F → Code × F
offer filler [] finfo = (success, finfo)
offer filler ((name, type) ∷ rest) finfo =
    let (error, finfo') = filler finfo name type in
    elim error [ success ↦ offer filler rest finfo' | e ↦ (e, finfo') ]

pub listing_leave :
    (locator : Text) (isroot : Bool) (e : Entry) (es : List Entry)
    → visit_entry locator isroot e ≡ leave
    → listing locator isroot (e ∷ es) ≡ []
unfolding listing
listing_leave locator isroot e es v = rw (v, listing)

pub listing_skip :
    (locator : Text) (isroot : Bool) (e : Entry) (es : List Entry)
    → visit_entry locator isroot e ≡ skip
    → listing locator isroot (e ∷ es) ≡ listing locator isroot es
unfolding listing
listing_skip locator isroot e es v = rw (v, listing)

pub listing_emit :
    (locator : Text) (isroot : Bool) (e : Entry) (es : List Entry) (name : Text)
    → visit_entry locator isroot e ≡ emit name
    → listing locator isroot (e ∷ es) ≡ (name, entry_type e) ∷ listing locator isroot es
unfolding listing
listing_emit locator isroot e es name v = rw (v, listing)

pub success_cases : (c : Code) → (c ≡ success) ⊎ (c ≢ success)
success_cases success = inl refl
success_cases c = inr (λ e. cc)

-- A name is emitted for a path only.
entry_type_emit :
    (locator : Text) (isroot : Bool) (e : Entry) (name : Text) (ddd : DentryData)
    → visit_entry locator isroot e ≡ emit name
    → (fetched ddd e).ddd_type ≡ entry_type e
unfolding visit_entry fetched
entry_type_emit locator isroot (dentry path, stored) name ddd v = refl
entry_type_emit locator isroot (fsinfo, info) name ddd v = cc
entry_type_emit locator isroot (block i o, bytes) name ddd v = cc

module _ {F : Type 0} (filler : Filler F) where
  pub offer_accepted :
      (name : Text) (type : MangooTypes) (rest : List Named) (finfo : F)
      → (filler finfo name type).0 ≡ success
      → offer filler ((name, type) ∷ rest) finfo ≡ offer filler rest (filler finfo name type).1
  unfolding offer
  offer_accepted name type rest finfo e = rw (e, offer)

  pub offer_refused :
      (name : Text) (type : MangooTypes) (rest : List Named) (finfo : F) (c : Code)
      → (filler finfo name type).0 ≡ c
      → c ≢ success
      → offer filler ((name, type) ∷ rest) finfo ≡ (c, (filler finfo name type).1)
  unfolding offer
  offer_refused name type rest finfo success e n = absurd (n refl)
  offer_refused name type rest finfo c e n = rw (e, offer)

module _ (os : System) {F : Type 0} (filler : Filler F) (locator : Text) (isroot : Bool)
    (w : World os.State) where
  -- The loop with a result of the callback, whatever handle it leaves.
  abbrev Lists : ℕ → Search → F → Code × F → Type 0
  Lists fuel s finfo r =
      (dh : Handle) × (readdir_loop os filler fuel locator isroot s finfo w
        ≡ returns ((r.0, dh, r.1), w))

  module _ (fuel : ℕ) (k : Key) (s : Search) (finfo : F) (at : s.dh.dbc ≡ some (some k)) where
    Lists-end :
        os.cursor_next w.base (some k) ≡ err not_found → Lists (suc fuel) s finfo (success, finfo)
    unfolding readdir_loop cursor_get_next leave_search
    Lists-end stop = (record s.dh { ddk_size = s.size }, ground arith)

    module _ (e : Entry) (next : os.cursor_next w.base (some k) ≡ ok e) where
      abbrev after : Search
      after = take_entry os s e

      Lists-leave : visit_entry locator isroot e ≡ leave → Lists (suc fuel) s finfo (success, finfo)
      unfolding readdir_loop cursor_get_next leave_search
      Lists-leave v = (record after.dh { ddk_size = after.size }, rw at (rw next (rw v)))

      Lists-skip :
          (r : Code × F)
          → visit_entry locator isroot e ≡ skip
          → Lists fuel after finfo r
          → Lists (suc fuel) s finfo r
      unfolding readdir_loop cursor_get_next
      Lists-skip r v (dh, run) = (dh, rw at (rw next (rw v run)))

      module _ (name : Text) (v : visit_entry locator isroot e ≡ emit name) where
        abbrev answer : Code × F
        answer = filler finfo name after.dh.attr_ddd.ddd_type

        same_type : after.dh.attr_ddd.ddd_type ≡ entry_type e
        unfolding take_entry
        same_type = entry_type_emit locator isroot e name s.dh.attr_ddd v

        Lists-accepted :
            (r : Code × F)
            → answer.0 ≡ success
            → Lists fuel after answer.1 r
            → Lists (suc fuel) s finfo r
        unfolding readdir_loop cursor_get_next
        Lists-accepted r a (dh, run) = (dh, rw at (rw next (rw v (rw a run))))

        Lists-refused :
            (c : Code) → answer.0 ≡ c → c ≢ success → Lists (suc fuel) s finfo (c, answer.1)
        unfolding readdir_loop cursor_get_next leave_search
        Lists-refused success a n = absurd (n refl)
        Lists-refused c a n =
            (record after.dh { ddk_size = after.size }, rw at (rw next (rw v (rw a))))

        -- With the type that the record has.
        Lists-emit :
            (rest : List Named)
            → ((s'' : Search) (finfo' : F)
                → s''.dh.dbc ≡ some (some (e.0))
                → Lists fuel s'' finfo' (offer filler rest finfo'))
            → Lists (suc fuel) s finfo (offer filler ((name, entry_type e) ∷ rest) finfo)
        unfolding take_entry
        Lists-emit rest more =
            subst (λ t. Lists (suc fuel) s finfo (offer filler ((name, t) ∷ rest) finfo)) same_type
              (elim (success_cases answer.0) [
                | inl a ↦
                    subst (Lists (suc fuel) s finfo)
                      (sym (offer_accepted filler name _ rest finfo a))
                      (Lists-accepted _ a (more after answer.1 refl))
                | inr n ↦
                    subst (Lists (suc fuel) s finfo)
                      (sym (offer_refused filler name _ rest finfo answer.0 refl n))
                      (Lists-refused answer.0 refl n)
              ])

      Lists-visit :
          (es : List Entry) (v : Visit)
          → visit_entry locator isroot e ≡ v
          → ((s'' : Search) (finfo' : F)
              → s''.dh.dbc ≡ some (some (e.0))
              → Lists fuel s'' finfo' (offer filler (listing locator isroot es) finfo'))
          → Lists (suc fuel) s finfo (offer filler (listing locator isroot (e ∷ es)) finfo)
      unfolding take_entry offer
      Lists-visit es leave v more = rw (listing_leave locator isroot e es v) (Lists-leave v)
      Lists-visit es skip v more =
          rw (listing_skip locator isroot e es v) (Lists-skip _ v (more after finfo refl))
      Lists-visit es (emit name) v more =
          rw (listing_emit locator isroot e es name v)
            (Lists-emit name v (listing locator isroot es) more)

  pub readdir_loop_lem :
      (es : List Entry) (fuel : ℕ) (k : Key) (s : Search) (finfo : F)
      → s.dh.dbc ≡ some (some k)
      → Walk os w.base k es
      → length es < fuel
      → Lists fuel s finfo (offer filler (listing locator isroot es) finfo)
  readdir_loop_lem es zero k s finfo at walk enough = absurd (omega arith)
  readdir_loop_lem [] (suc fuel) k s finfo at walk enough =
      unfold listing offer in Lists-end fuel k s finfo at walk
  readdir_loop_lem (e ∷ es) (suc fuel) k s finfo at walk enough =
      Lists-visit fuel k s finfo at e walk.0 es (visit_entry locator isroot e) refl
        (λ s' finfo' at'. readdir_loop_lem es fuel (e.0) s' finfo' at' walk.1 (omega arith))
