-- ===== src/System/Laws.antt =====
-- What the code relies on of the Berkeley DB library, from its documentation: a B-tree of records
-- with one record for each key, kept in the order of the comparison function that is set.
use mangoo.Base.{ℕ, Ordering, ◌≡◌, ◌≢◌, ◌⊎◌, true, some, length}
use mangoo.Types.{Text, dbfs_blksize, Key, Value, Entry, ok, err, DbError, not_found, key_exist}
use mangoo.System.{Platform, BerkeleyDb, PutFlag, overwrite, no_overwrite}
use mangoo.Compare.{dbfs_bt_compare}

-- DB->put, DB->get and DB->del are about one key.
pub record IsStore (d : BerkeleyDb) : Type 0 where
  pub get-put_self :
      (s : d.State) (k : Key) (v : Value k) (f : PutFlag)
      → (d.put s k v f).0 ≡ ok tt
      → d.get (d.put s k v f).1 k ≡ ok v
  pub get-put_ne :
      (s : d.State) (k j : Key) (v : Value k) (f : PutFlag)
      → k ≢ j
      → d.get (d.put s k v f).1 j ≡ d.get s j
  pub get-put_failed :
      (s : d.State) (k j : Key) (v : Value k) (f : PutFlag) (e : DbError)
      → (d.put s k v f).0 ≡ err e
      → d.get (d.put s k v f).1 j ≡ d.get s j
  pub put_exists :
      (s : d.State) (k : Key) (u v : Value k)
      → d.get s k ≡ ok u
      → (d.put s k v no_overwrite).0 ≡ err key_exist
  pub get-del_self :
      (s : d.State) (k : Key) → (d.del s k).0 ≡ ok tt → d.get (d.del s k).1 k ≡ err not_found
  pub get-del_failed :
      (s : d.State) (k j : Key) (e : DbError)
      → (d.del s k).0 ≡ err e
      → d.get (d.del s k).1 j ≡ d.get s j
  pub get-del_ne : (s : d.State) (k j : Key) → k ≢ j → d.get (d.del s k).1 j ≡ d.get s j

-- No failure of the machine: a call answers only what it must about the records that are there.
pub record IsReliable (d : BerkeleyDb) : Type 0 where
  pub get_answers :
      (s : d.State) (k : Key) → ((v : Value k) × (d.get s k ≡ ok v)) ⊎ (d.get s k ≡ err not_found)
  pub put_overwrite : (s : d.State) (k : Key) (v : Value k) → (d.put s k v overwrite).0 ≡ ok tt
  pub put_absent :
      (s : d.State) (k : Key) (v : Value k)
      → d.get s k ≡ err not_found
      → (d.put s k v no_overwrite).0 ≡ ok tt
  pub del_present : (s : d.State) (k : Key) (v : Value k) → d.get s k ≡ ok v → (d.del s k).0 ≡ ok tt
  pub del_absent :
      (s : d.State) (k : Key) → d.get s k ≡ err not_found → (d.del s k).0 ≡ err not_found

-- The database file can be opened, and closed.
pub record IsOpenable (d : BerkeleyDb) : Type 0 where
  pub db_created : d.db_create ≡ ok tt
  pub bt_compare_set : (s : d.State) → d.set_bt_compare s ≡ ok tt
  pub db_opened : (name : Text) (s : d.State) → d.open_db name s ≡ ok tt
  pub db_closed : (s : d.State) → d.close_db s ≡ ok tt

-- A cursor walks the records in the order of dbfs_bt_compare and leaves none out.
pub record IsOrdered (d : BerkeleyDb) : Type 0 where
  pub cursor_opens : (s : d.State) → d.cursor s ≡ ok tt
  pub cursor_set_get : (s : d.State) (k : Key) → d.cursor_set s k ≡ d.get s k
  -- DB_NEXT behind a key: a later record with none between them, or the end.
  pub next_stored :
      (s : d.State) (k : Key) (e : Entry)
      → d.cursor_next s (some k) ≡ ok e
      → (d.get s (e.0) ≡ ok (e.1)) × (dbfs_bt_compare k (e.0) ≡ Ordering.lt)
  pub next_nearest :
      (s : d.State) (k j : Key) (e : Entry) (v : Value j)
      → d.cursor_next s (some k) ≡ ok e
      → d.get s j ≡ ok v
      → dbfs_bt_compare k j ≡ Ordering.lt
      → (j ≡ e.0) ⊎ (dbfs_bt_compare (e.0) j ≡ Ordering.lt)
  pub next_end :
      (s : d.State) (k j : Key) (v : Value j)
      → d.cursor_next s (some k) ≡ err not_found
      → d.get s j ≡ ok v
      → dbfs_bt_compare k j ≢ Ordering.lt
  pub next_answers :
      (s : d.State) (k : Key)
      → ((e : Entry) × (d.cursor_next s (some k) ≡ ok e))
        ⊎ (d.cursor_next s (some k) ≡ err not_found)

-- malloc never fails, and returns as many bytes as were asked for.
pub record HasMemory (p : Platform) : Type 0 where
  pub malloc_succeeds : (size : ℕ) → p.malloc size ≡ true
  pub length-fresh_block : (ino offset : ℕ) → length (p.fresh_block ino offset) ≡ dbfs_blksize
