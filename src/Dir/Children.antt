-- ===== src/Dir/Children.antt =====
-- Which names dbfs_readdir lists: those of the stored paths that begin with the directory's.
use mathlib.Core.Path.{subst}
use mangoo.Base.{
  Ordering, ◌≡◌, refl, sym, ap, ◌∙◌, ◌≢◌, ◌⊎◌, inl, inr, Bool, false, List, [], ◌∷◌, arith,
  Bool-cases,
}
use mangoo.Types.{Reply, Text, Key, Entry, dentry, fsinfo, block, ok, DentryData}
use mangoo.System.{System}
use mangoo.System.Laws.{IsOrdered}
use mangoo.Compare.{dbfs_bt_compare, strcmp}
use mangoo.Compare.Order.{dbfs_bt_compare_trans}
use mangoo.Dir.{has_slash}
use mangoo.Dir.Read.{Visit, leave, skip, emit, visit_name, visit, visit_entry}
use mangoo.Dir.Listing.{Named, Walk, listing, listing_leave, listing_skip, listing_emit, entry_type}

-- Membership, with the place where it stands.
abbrev pub Listed : {A : Type 0} → A → List A → Type 0
Listed a [] = ⊥
Listed a (b ∷ l) = (a ≡ b) ⊎ Listed a l

same_answer : (r : Reply DentryData) (a b : DentryData) → r ≡ ok a → r ≡ ok b → a ≡ b
same_answer r a b x y = cc

pub visit_name-ne-leave : (name : Text) → visit_name name ≢ leave
unfolding visit_name
visit_name-ne-leave [] e = cc
visit_name-ne-leave (c ∷ cs) e = ground arith

pub visit_name_emit :
    (name : Text) → name ≢ [] → has_slash name ≡ false → visit_name name ≡ emit name
unfolding visit_name
visit_name_emit [] n s = absurd (n refl)
visit_name_emit (c ∷ cs) n s = rw s

pub visit_name_emitted :
    (text name : Text)
    → visit_name text ≡ emit name
    → (text ≡ name) × (name ≢ []) × (has_slash name ≡ false)
unfolding visit_name
visit_name_emitted [] name e = absurd (cc)
visit_name_emitted (c ∷ cs) name e = elim (Bool-cases (has_slash (c ∷ cs))) [
  | inl s ↦ absurd (cc (rw s at e))
  | inr s ↦
      let same : c ∷ cs ≡ name = cc (rw s at e) in
      (same, λ z. cc (same, z), ap has_slash (sym same) ∙ s)
]

-- More names are listed when a record is put in front, unless it ends the listing.
Listed-visit :
    (locator : Text) (isroot : Bool) (e : Entry) (es : List Entry) (n : Named) (v : Visit)
    → visit_entry locator isroot e ≡ v
    → v ≢ leave
    → Listed n (listing locator isroot es)
    → Listed n (listing locator isroot (e ∷ es))
Listed-visit locator isroot e es n leave v stays l = absurd (stays refl)
Listed-visit locator isroot e es n skip v stays l = rw (listing_skip locator isroot e es v) l
Listed-visit locator isroot e es n (emit name) v stays l =
    rw (listing_emit locator isroot e es name v) (inr l)

module _ (os : System) (ordered : IsOrdered os.berkeley) (s : os.State) (locator : Text)
    (isroot : Bool) where
  -- A stored path behind the key `k` whose name is emitted, where no record before it ends the
  -- listing.
  module _ (target : Text) (ddd : DentryData) (name : Text)
      (stored : os.get s (dentry target) ≡ ok ddd)
      (emitted : visit locator isroot target ≡ emit name)
      (stays : (q : Text)
        → strcmp locator q ≡ Ordering.lt
        → strcmp q target ≡ Ordering.lt
        → visit locator isroot q ≢ leave) where
    Listed-target :
        (e : Entry) (es : List Entry)
        → os.get s (e.0) ≡ ok (e.1)
        → dentry target ≡ e.0
        → Listed (name, ddd.ddd_type) (listing locator isroot (e ∷ es))
    unfolding visit_entry
    Listed-target (dentry q, d) es g same =
        let p : target ≡ q = cc same in
        let d_eq : ddd ≡ d =
          same_answer (os.get s (dentry q)) ddd d
            (subst (λ r. os.get s (dentry r) ≡ ok ddd) p stored) g in
        let v : visit locator isroot q ≡ emit name = ap (visit locator isroot) (sym p) ∙ emitted in
        rw (listing_emit locator isroot (dentry q, d) es name v)
          (inl (ap (λ (r : DentryData). (name, r.ddd_type)) d_eq))
    Listed-target (fsinfo, d) es g same = absurd (cc)
    Listed-target (block i o, d) es g same = absurd (cc)

    entry_stays :
        (e : Entry)
        → dbfs_bt_compare (dentry locator) (e.0) ≡ Ordering.lt
        → dbfs_bt_compare (e.0) (dentry target) ≡ Ordering.lt
        → visit_entry locator isroot e ≢ leave
    unfolding visit_entry dbfs_bt_compare
    entry_stays (dentry q, d) a b = stays q a b
    entry_stays (fsinfo, d) a b = absurd (cc)
    entry_stays (block i o, d) a b = absurd (cc)

    pub listing_complete :
        (es : List Entry) (k : Key)
        → Walk os s k es
        → ((j : Key)
            → dbfs_bt_compare k j ≡ Ordering.lt
            → dbfs_bt_compare (dentry locator) j ≡ Ordering.lt)
        → dbfs_bt_compare k (dentry target) ≡ Ordering.lt
        → Listed (name, ddd.ddd_type) (listing locator isroot es)
    listing_complete [] k walk after before =
        absurd (ordered.next_end s k (dentry target) ddd walk stored before)
    listing_complete (e ∷ es) k walk after before =
        let (found, later) = ordered.next_stored s k e walk.0 in
        elim (ordered.next_nearest s k (dentry target) e ddd walk.0 stored before) [
          | inl same ↦ Listed-target e es found same
          | inr lt ↦
              Listed-visit locator isroot e es (name, ddd.ddd_type) (visit_entry locator isroot e)
                refl (entry_stays e (after (e.0) later) lt)
                (listing_complete es (e.0) walk.1
                  (λ j h. after j (dbfs_bt_compare_trans k (e.0) j later h)) lt)
        ]

  -- What is listed is the name of a stored path.
  abbrev pub StoredName : Named → Type 0
  StoredName n =
      (path : Text) × (ddd : DentryData) × (os.get s (dentry path) ≡ ok ddd)
      × (visit locator isroot path ≡ emit (n.0))
      × (n.1 ≡ ddd.ddd_type)

  listed_here :
      (e : Entry) (name : Text) (n : Named)
      → os.get s (e.0) ≡ ok (e.1)
      → visit_entry locator isroot e ≡ emit name
      → n ≡ (name, entry_type e)
      → StoredName n
  unfolding visit_entry
  listed_here (dentry q, d) name n g v same =
      (q, d, g, v ∙ ap (λ (r : Named). emit (r.0)) (sym same), ap (λ (r : Named). r.1) same)
  listed_here (fsinfo, d) name n g v same = absurd (cc)
  listed_here (block i o, d) name n g v same = absurd (cc)

  Listed-front :
      (e : Entry) (es : List Entry) (n : Named) (v : Visit)
      → os.get s (e.0) ≡ ok (e.1)
      → visit_entry locator isroot e ≡ v
      → Listed n (listing locator isroot (e ∷ es))
      → StoredName n ⊎ Listed n (listing locator isroot es)
  Listed-front e es n leave g v l = absurd (rw (listing_leave locator isroot e es v) at l)
  Listed-front e es n skip g v l = inr (rw (listing_skip locator isroot e es v) at l)
  Listed-front e es n (emit name) g v l = elim (rw (listing_emit locator isroot e es name v) at l) [
    | inl same ↦ inl (listed_here e name n g v same)
    | inr later ↦ inr later
  ]

  pub listing_sound :
      (es : List Entry) (k : Key) (n : Named)
      → Walk os s k es
      → Listed n (listing locator isroot es)
      → StoredName n
  listing_sound [] k n walk l = absurd (unfold listing in l)
  listing_sound (e ∷ es) k n walk l =
      elim (Listed-front e es n (visit_entry locator isroot e) (ordered.next_stored s k e walk.0).0
        refl l) [ inl found ↦ found | inr later ↦ listing_sound es (e.0) n walk.1 later ]
