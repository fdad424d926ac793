-- ===== src/Stream/Isolation.antt =====
-- A write to one file leaves every other file alone, as long as they have different inode numbers.
use mangoo.Base.{ℕ, ◌+◌, ◌≤◌, ◌≡◌, sym, ◌∙◌, ◌≢◌, List, [], ◌∷◌, length}
use mangoo.Types.{Text, slash, dentry, block, ok, success, Handle, DentryData, holds}
use mangoo.System.{System, World, returns, overwrite}
use mangoo.System.Laws.{IsReliable, IsStore, HasMemory}
use mangoo.Stream.Interface.{dbfs_write, grown}
use mangoo.Stream.Blocks.{max_transfer}
use mangoo.Stream.Content.{HasBlocks, bytes_from}
use mangoo.Stream.RoundTrip.{dbfs_write_lem, saved, get-saved}
use mangoo.Stream.ReadBack.{bytes_from-same}
use mangoo.Dbfs.Inodes.{IsNumbered}

module _ (os : System) (store : IsStore os.berkeley) (reliable : IsReliable os.berkeley)
    (memory : HasMemory os.platform) where
  -- In a store whose files have distinct inode numbers, and whose stored blocks are whole, a write
  -- through a handle with the path and the inode number of one file leaves another file's record
  -- as it is, and the bytes of its content at every offset. Neither is the root.
  pub dbfs_write-IsNumbered :
      (counter : ℕ) (dh : Handle) (p q : Text) (d e : DentryData) (buf : List ℕ) (offset : ℕ)
      (w : World os.State)
      → IsNumbered os w.base counter
      → p ≢ slash ∷ []
      → q ≢ slash ∷ []
      → p ≢ q
      → os.get w.base (dentry p) ≡ ok d
      → os.get w.base (dentry q) ≡ ok e
      → dh.attr_ddk ≡ holds (dentry p)
      → dh.attr_ddd.ddd_ino ≡ d.ddd_ino
      → HasBlocks os w.base
      → offset + length buf ≤ max_transfer
      → (dh' : Handle) × (w' : World os.State) × (dbfs_write os dh buf (length buf) offset w
          ≡ returns ((success, length buf, dh'), w'))
        × (os.get w'.base (dentry q) ≡ ok e)
        × ((o n : ℕ) → bytes_from os w'.base e.ddd_ino o n ≡ bytes_from os w.base e.ddd_ino o n)
  dbfs_write-IsNumbered counter dh p q d e buf offset w numbered np nq ne gp gq k ino h m =
      let dh' = grown dh (offset + length buf) in
      let (s, run, v, _) = dbfs_write_lem os store reliable memory dh p buf offset w k h m in
      let other : dh.attr_ddd.ddd_ino ≢ e.ddd_ino =
        λ same. ne (numbered.distinct p q d e np nq gp gq (sym ino ∙ same)) in
      (
        dh',
        record w { base = saved os store reliable memory s p dh'.attr_ddd },
        run,
        store.get-put_ne s (dentry p) (dentry q) dh'.attr_ddd overwrite (λ z. ne (cc z))
            ∙ (v.frame (dentry q) (λ base a b z. absurd (cc z)) ∙ gq),
        λ o n.
            bytes_from-same os
              (λ x.
                get-saved os store reliable memory s p dh'.attr_ddd e.ddd_ino x
                ∙ v.frame (block e.ddd_ino x) (λ base a b z. other (cc z)))
              o n,
      )
