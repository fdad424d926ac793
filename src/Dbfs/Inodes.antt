-- ===== src/Dbfs/Inodes.antt =====
-- The inode numbers of the files of a store, as dbfs_create gives them out.
use mangoo.Base.{
  ℕ, ◌+◌, ◌%◌, ◌^◌, ◌≤◌, ◌<◌, ◌≡◌, refl, sym, ◌∙◌, ◌≢◌, ◌⊎◌, inl, inr, [], ◌∷◌, arith,
}
use mangoo.Types.{
  Text, Key, slash, Code, success, einval, fsinfo, key_exist, ok, dentry, DentryData, MangooTypes,
}
use mangoo.System.{System, World, returns, no_overwrite}
use mangoo.Compare.Order.{text_cases}
use mangoo.System.Laws.{IsReliable, IsStore, HasMemory}
use mangoo.Attr.{new_dentry}
use mangoo.Dbfs.{dbfs_create}
use mangoo.Dbfs.Create.{
  put_new, get-created, fsinfo_ne, inode_taken, dbfs_create_lem, dbfs_create_exists,
}

-- The files other than the root have numbers below the counter, and no two have the same.
pub record IsNumbered (os : System) (s : os.State) (counter : ℕ) : Type 0 where
  pub below :
      (p : Text) (ddd : DentryData)
      → p ≢ slash ∷ []
      → os.get s (dentry p) ≡ ok ddd
      → ddd.ddd_ino < counter
  pub distinct :
      (p q : Text) (d e : DentryData)
      → p ≢ slash ∷ []
      → q ≢ slash ∷ []
      → os.get s (dentry p) ≡ ok d
      → os.get s (dentry q) ≡ ok e
      → d.ddd_ino ≡ e.ddd_ino
      → p ≡ q

module _ (os : System) where
  -- The same records have the same numbers, also under a counter that is further on.
  pub IsNumbered-same :
      (s t : os.State) (m n : ℕ)
      → ((p : Text) → os.get t (dentry p) ≡ os.get s (dentry p))
      → m ≤ n
      → IsNumbered os s m
      → IsNumbered os t n
  IsNumbered-same s t m n same le h = record {
    below = λ p ddd np g. let lt = h.below p ddd np (sym (same p) ∙ g) in omega arith;
    distinct = λ p q d e np nq g k. h.distinct p q d e np nq (sym (same p) ∙ g) (sym (same q) ∙ k);
  }

  module _ (s t : os.State) (path : Text) (new : DentryData)
      (stored : os.get t (dentry path) ≡ ok new)
      (others : (p : Text) → path ≢ p → os.get t (dentry p) ≡ os.get s (dentry p))
      (h : IsNumbered os s (new.ddd_ino)) where
    new_ino :
        (p : Text) (ddd : DentryData)
        → path ≡ p
        → os.get t (dentry p) ≡ ok ddd
        → ddd.ddd_ino ≡ new.ddd_ino
    new_ino p ddd e g = cc (e, stored, g)

    older_ino :
        (p : Text) (ddd : DentryData)
        → path ≢ p
        → p ≢ slash ∷ []
        → os.get t (dentry p) ≡ ok ddd
        → ddd.ddd_ino < new.ddd_ino
    older_ino p ddd n np g = h.below p ddd np (sym (others p n) ∙ g)

    new_below :
        (p : Text) (ddd : DentryData)
        → p ≢ slash ∷ []
        → os.get t (dentry p) ≡ ok ddd
        → ddd.ddd_ino < new.ddd_ino + 1
    new_below p ddd np g = elim (text_cases path p) [
      | inl a ↦ let same = new_ino p ddd a g in omega arith
      | inr n ↦ let less = older_ino p ddd n np g in omega arith
    ]

    new_distinct :
        (p q : Text) (d e : DentryData)
        → p ≢ slash ∷ []
        → q ≢ slash ∷ []
        → os.get t (dentry p) ≡ ok d
        → os.get t (dentry q) ≡ ok e
        → d.ddd_ino ≡ e.ddd_ino
        → p ≡ q
    new_distinct p q d e np nq g k same = elim (text_cases path p) [
      | inl a ↦ elim (text_cases path q) [
        | inl b ↦ sym a ∙ b
        | inr n ↦ let x = new_ino p d a g in let y = older_ino q e n nq k in absurd (omega arith)
      ]
      | inr m ↦ elim (text_cases path q) [
        | inl b ↦ let x = new_ino q e b k in let y = older_ino p d m np g in absurd (omega arith)
        | inr n ↦ h.distinct p q d e np nq (sym (others p m) ∙ g) (sym (others q n) ∙ k) same
      ]
    ]

    -- One more record, with the number of the counter.
    pub IsNumbered-add : IsNumbered os t (new.ddd_ino + 1)
    IsNumbered-add = record { below = new_below; distinct = new_distinct }

  module _ (store : IsStore os.berkeley) (reliable : IsReliable os.berkeley)
      (memory : HasMemory os.platform) where
    dentry_ne : (p q : Text) → p ≢ q → dentry p ≢ dentry q
    dentry_ne p q n e = n (cc e)

    -- dbfs_create, whether it succeeds or not, keeps the inode numbers of the files other than the
    -- root distinct and below the counter, as long as the counter does not wrap and the machine
    -- does not fail; it returns 0 or EINVAL, takes one number, and does not change the file system
    -- information.
    pub dbfs_create-IsNumbered :
        (path : Text) (mode : ℕ) (mt : MangooTypes) (w : World os.State)
        → w.last_inode + 1 < 2 ^ 64
        → IsNumbered os w.base w.last_inode
        → (c : Code) × (w' : World os.State) × (dbfs_create os path mode mt w ≡ returns (c, w'))
          × ((c ≡ success) ⊎ (c ≡ einval))
          × IsNumbered os w'.base w'.last_inode
          × (w'.last_inode ≡ w.last_inode + 1)
          × (os.get w'.base fsinfo ≡ os.get w.base fsinfo)
    unfolding new_dentry
    dbfs_create-IsNumbered path mode mt w bound h =
        let new = new_dentry os mt mode w.last_inode in
        let s' = put_new os w.base path new in
        let counted : (w.last_inode + 1) % 2 ^ 64 ≡ w.last_inode + 1 = omega arith in
        elim (reliable.get_answers w.base (dentry path)) [
          | inl (ddd, g) ↦
              let same = λ (k : Key).
                store.get-put_failed w.base (dentry path) k new no_overwrite key_exist
                  (store.put_exists w.base (dentry path) ddd new g) in
              (
                einval,
                record (inode_taken w) { base = s' },
                dbfs_create_exists os store reliable memory path mode mt w ddd g,
                inr refl,
                rw counted (
                    IsNumbered-same w.base s' w.last_inode (w.last_inode + 1) (λ p. same (dentry p))
                      (omega arith) h),
                counted,
                same fsinfo,
              )
          | inr g ↦
              let same = λ (k : Key) (n : dentry path ≢ k).
                store.get-put_ne w.base (dentry path) k new no_overwrite n in
              (
                success,
                record (inode_taken w) { base = s' },
                dbfs_create_lem os store reliable memory path mode mt w g,
                inl refl,
                rw counted (
                    IsNumbered-add w.base s' path new
                      (get-created os store reliable memory path new w.base g)
                      (λ p n. same (dentry p) (dentry_ne path p n)) h),
                counted,
                same fsinfo (λ e. fsinfo_ne path (sym e)),
              )
        ]
