-- ===== src/Dbfs/Container.antt =====
-- dbfs_delete of a directory: the record behind it in the order decides.
use mangoo.Base.{ℕ, Ordering, ◌≡◌, sym, ◌∙◌, ◌≢◌, inl, inr, true, false, some, [], ◌∷◌, ◌++◌, arith}
use mangoo.Types.{
  dbfs_ddk_size, key_size, Text, slash, Entry, ok, err, not_found, success, enotempty, fsinfo,
  block, dentry, Handle, DentryData, mangoo_container,
}
use mangoo.System.{System, World, returns}
use mangoo.System.Laws.{IsReliable, IsStore, IsOrdered, HasMemory}
use mangoo.Compare.{dbfs_bt_compare, strcmp}
use mangoo.Compare.Order.{dbfs_bt_compare_eq_iff, strcmp_refl}
use mangoo.Handle.Life.{fresh_handle, leaked, one_cursor}
use mangoo.Attr.Interface.{dbfs_dela}
use mangoo.Dir.{
  is_prefix, refill, entry_name, dbfs_cursorset, dbfs_deld, cursor_get_next, advance, deld_verdict,
}
use mangoo.Dir.Paths.{same_text_refl, strcmp-between, strcmp-longer}
use mangoo.Dbfs.{dbfs_delete, delete_by_type}
use mangoo.Dbfs.Delete.{dbfs_delete-run}

-- The handle after dbfs_cursorset has found its record.
abbrev pub on_record : Text → DentryData → Handle
on_record path ddd = record (fresh_handle path) { dbc = some (some (dentry path)); attr_ddd = ddd }

module _ (os : System) (ordered : IsOrdered os.berkeley) where
  dbfs_cursorset_lem :
      (path : Text) (ddd ddd' : DentryData) (w : World os.State)
      → os.get w.base (dentry path) ≡ ok ddd
      → dbfs_cursorset os (record (fresh_handle path) { attr_ddd = ddd' }) w
        ≡ returns ((success, on_record path ddd), one_cursor w)
  unfolding dbfs_cursorset
  dbfs_cursorset_lem path ddd ddd' w g = ground (
    arith,
    ordered.cursor_opens w.base,
    ordered.cursor_set_get w.base (dentry path),
    same_text_refl path,
    g,
  )

  -- What dbfs_deld answers when the next record is known.
  dbfs_deld-next :
      (path : Text) (ddd ddd' : DentryData) (e : Entry) (w : World os.State)
      → os.get w.base (dentry path) ≡ ok ddd
      → os.cursor_next w.base (some (dentry path)) ≡ ok e
      → dbfs_deld os (record (fresh_handle path) { attr_ddd = ddd' }) w
        ≡ returns (
          (deld_verdict path e, advance os (on_record path ddd) (fresh_handle path).ddk_size e),
          one_cursor w,
        )
  unfolding dbfs_deld cursor_get_next
  dbfs_deld-next path ddd ddd' e w g n = rw (dbfs_cursorset_lem path ddd ddd' w g) (rw n)

  -- No other stored path is the directory's path with nothing but slashes behind it.
  abbrev pub HasNames : os.State → Text → Type 0
  HasNames s path =
      (q : Text) (ddd : DentryData)
      → os.get s (dentry q) ≡ ok ddd
      → strcmp path q ≡ Ordering.lt
      → is_prefix path q ≡ true
      → entry_name path q ≢ []

  -- The record behind a path, if a longer path is stored: a path that begins with it.
  verdict_enotempty :
      (s : os.State) (path : Text) (x : ℕ) (xs : Text) (ddd : DentryData) (e : Entry)
      → os.get s (dentry (path ++ x ∷ xs)) ≡ ok ddd
      → os.cursor_next s (some (dentry path)) ≡ ok e
      → HasNames s path
      → deld_verdict path e ≡ enotempty
  unfolding deld_verdict dbfs_bt_compare
  verdict_enotempty s path x xs ddd (dentry q, d) g n names =
      let stored = ordered.next_stored s (dentry path) (dentry q, d) n in
      let near =
        ordered.next_nearest s (dentry path) (dentry (path ++ x ∷ xs)) (dentry q, d) ddd n g
          (strcmp-longer path x xs) in
      let below : strcmp q (path ++ x ∷ xs) ≢ Ordering.gt = elim near [
        | inl same ↦ λ h. cc (strcmp_refl q)
        | inr lt ↦ λ h. cc
      ] in
      let begins = strcmp-between path (x ∷ xs) q stored.1 below in
      ground (arith, begins, names q d stored.0 stored.1 begins)
  verdict_enotempty s path x xs ddd (fsinfo, d) g n names =
      absurd (cc (ordered.next_stored s (dentry path) (fsinfo, d) n).1)
  verdict_enotempty s path x xs ddd (block i o, d) g n names =
      absurd
        (elim (ordered.next_nearest s (dentry path) (dentry (path ++ x ∷ xs)) (block i o, d) ddd n g
          (strcmp-longer path x xs)) [ inl same ↦ cc | inr lt ↦ cc ])

  module _ (memory : HasMemory os.platform) where
    -- Deleting a directory other than the root is refused with ENOTEMPTY, and the database left as
    -- it is, if any longer path is stored that begins with the directory's path, and no stored path
    -- consists of the directory's path and slashes behind it. The handle stays allocated and its cursor
    -- open.
    pub dbfs_delete_extended :
        (fuel : ℕ) (path : Text) (x : ℕ) (xs : Text) (ddd ddd' : DentryData) (w : World os.State)
        → path ≢ slash ∷ []
        → os.get w.base (dentry path) ≡ ok ddd
        → ddd.ddd_type ≡ mangoo_container
        → os.get w.base (dentry (path ++ x ∷ xs)) ≡ ok ddd'
        → HasNames w.base path
        → dbfs_delete os fuel path w ≡ returns (enotempty, one_cursor (leaked w))
    unfolding delete_by_type
    dbfs_delete_extended fuel path x xs ddd ddd' w n g t child names =
        elim (ordered.next_answers w.base (dentry path)) [
          | inr end ↦ absurd (
              ordered.next_end w.base (dentry path) (dentry (path ++ x ∷ xs)) ddd' end child
                (unfold dbfs_bt_compare in strcmp-longer path x xs))
          | inl (e, next) ↦
              dbfs_delete-run os memory fuel path ddd w n g
              ∙ ground (
                arith,
                t,
                dbfs_deld-next path ddd ddd e (leaked w) g next,
                verdict_enotempty w.base path x xs ddd' e child next names,
              )
        ]

    -- Deleting an empty directory that is not the last record, where realloc leaves the key
    -- buffer in its place: 0 is returned, the record that is removed is the one behind the
    -- directory, whatever it is, and the directory stays.
    pub dbfs_delete_wrong_record :
        (fuel : ℕ) (path : Text) (ddd : DentryData) (e : Entry) (w : World os.State)
        → IsStore os.berkeley
        → IsReliable os.berkeley
        → path ≢ slash ∷ []
        → os.get w.base (dentry path) ≡ ok ddd
        → ddd.ddd_type ≡ mangoo_container
        → os.cursor_next w.base (some (dentry path)) ≡ ok e
        → deld_verdict path e ≡ success
        → os.realloc_moves (dbfs_ddk_size path) (key_size (e.0)) ≡ false
        → (s : os.State) × (dbfs_delete os fuel path w
            ≡ returns (success, record (one_cursor (leaked w)) { base = s }))
          × (os.get s (e.0) ≡ err not_found)
          × (os.get s (dentry path) ≡ ok ddd)
    unfolding delete_by_type dbfs_dela advance refill
    dbfs_delete_wrong_record fuel path ddd e w store reliable n g t next v stays =
        let st = ordered.next_stored w.base (dentry path) e next in
        let d = reliable.del_present w.base (e.0) (e.1) st.0 in
        (
          (os.del w.base (e.0)).1,
          dbfs_delete-run os memory fuel path ddd w n g
              ∙ ground (arith, t, dbfs_deld-next path ddd ddd e (leaked w) g next, v, stays, d),
          store.get-del_self w.base (e.0) d,
          store.get-del_ne w.base (e.0) (dentry path)
                (λ q. cc (st.1, (dbfs_bt_compare_eq_iff (dentry path) (e.0)).1 (sym q)))
              ∙ g,
        )
