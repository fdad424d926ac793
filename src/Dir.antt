-- ===== src/Dir.antt =====
-- Reading and emptying directories: stores/dbfs/dir.c. DB_NEXT fills the search's key buffer, which
-- is the handle's attr_ddk until realloc moves it, and the handle's attributes.
pub mod Read
pub mod Paths
pub mod Listing
pub mod Children
pub mod Visits
pub mod Readdir
pub mod Paging
pub mod Ends
pub mod Dangling
use mangoo.Base.{
  ℕ, zero, suc, ◌+◌, ◌*◌, ◌/◌, ◌%◌, ◌^◌, Ordering, Bool, true, false, ◌&&◌, ◌||◌, Option, none,
  some, List, [], ◌∷◌, ltb, ◌==◌, if◌then◌else◌, length, drop,
}
use mangoo.Types.{
  Text, slash, Entry, Reply, ok, err, not_found, buffer_small, Code, success, enoent, eio, enomem,
  enotempty, Key, fsinfo, dentry, block, key_size, DentryData, KeyBuffer, holds, dangling, Handle,
  dbfs_directory_vector, mangoo_directory_interface,
}
use mangoo.System.{System, M, pure, gets, modify_mem, undefined_behaviour, ◌>>=◌, ◌>>◌}
use mangoo.Compare.{strcmp}
use mangoo.Handle.{dbfs_createhandle, dbfs_freehandle}
use mangoo.Attr.{buffer_path}

-- strstr(text, prefix) == text
unfoldable pub is_prefix : Text → Text → Bool
is_prefix [] text = true
is_prefix (x ∷ xs) [] = false
is_prefix (x ∷ xs) (y ∷ ys) = x == y && is_prefix xs ys

-- strchr(text, '/') != NULL
unfoldable pub has_slash : Text → Bool
has_slash [] = false
has_slash (x ∷ xs) = x == slash || has_slash xs

-- while (*entry == '/') entry++;
unfoldable pub skip_slashes : Text → Text
skip_slashes [] = []
skip_slashes (x ∷ xs) = if x == slash then skip_slashes xs else x ∷ xs

-- !strcmp(a, b)
unfoldable pub same_text : Text → Text → Bool
unfolding strcmp
same_text a b = elim (strcmp a b) [ Ordering.eq ↦ true | _ ↦ false ]

-- What is left of an entry behind the locator and the slashes after it.
unfoldable pub entry_name : Text → Text → Text
unfolding skip_slashes
entry_name locator entry = skip_slashes (drop (length locator) entry)

unfoldable pub is_root : Text → Bool
unfolding same_text
is_root locator = same_text locator (slash ∷ [])

-- A little-endian word of n bytes at the front.
unfoldable pub le_word : ℕ → List ℕ → ℕ
le_word zero bytes = 0
le_word (suc n) [] = 0
le_word (suc n) (b ∷ bytes) = b + 256 * le_word n bytes

-- The attributes after the first bytes of a record have been copied over them.
unfoldable pub fetched : DentryData → Entry → DentryData
unfolding le_word
fetched ddd (dentry path, stored) = stored
fetched ddd (fsinfo, info) = record ddd {
  ddd_type = info.dfd_lastino % 2 ^ 32;
  ddd_mode = info.dfd_lastino / 2 ^ 32;
}
fetched ddd (block ino offset, bytes) = record {
  ddd_type = le_word 4 bytes;
  ddd_mode = le_word 4 (drop 4 bytes);
  ddd_ino = le_word 8 (drop 8 bytes);
  ddd_size = le_word 8 (drop 16 bytes);
  ddd_mtime = le_word 8 (drop 24 bytes);
  ddd_atime = le_word 8 (drop 32 bytes);
  ddd_uid = le_word 4 (drop 40 bytes);
  ddd_gid = le_word 4 (drop 44 bytes);
}

-- What dbfs_deld answers about the entry that follows the directory.
unfoldable pub deld_verdict : Text → Entry → Code
unfolding is_prefix entry_name
deld_verdict locator (dentry entry, ddd) =
    if is_prefix locator entry
    then elim (entry_name locator entry) [ [] ↦ success | _ ∷ _ ↦ enotempty ]
    else success
deld_verdict locator (k, value) = success

module _ (os : System) where
  -- The key DBT of dbfs_initsearch holds dh's buffer, with room for `ulen` bytes; a longer key is
  -- put there by realloc.
  unfoldable pub refill : Handle → ℕ → Key → KeyBuffer
  unfolding key_size
  refill dh ulen k = elim (dh.attr_ddk) [
    | holds _ ↦
        if ltb ulen (key_size k) && os.realloc_moves ulen (key_size k) then dangling else holds k
    | other ↦ other
  ]

  -- dbc->get(DB_NEXT) into the buffers of a handle.
  unfoldable pub advance : Handle → ℕ → Entry → Handle
  unfolding refill fetched
  advance dh ulen entry = record dh {
    dbc = some (some (entry.0));
    attr_ddk = refill dh ulen (entry.0);
    attr_ddd = fetched dh.attr_ddd entry;
  }

  -- The cursor of a handle; without one the call goes through NULL.
  unfoldable pub cursor_get_next : Handle → M os (Reply Entry)
  cursor_get_next dh = elim (dh.dbc) [
    | none ↦ undefined_behaviour
    | some position ↦ gets (λ w. os.cursor_next w.base position)
  ]

  unfoldable pub dbfs_cursorset : Handle → M os (Code × Handle)
  unfolding buffer_path same_text
  dbfs_cursorset dh = do
    opened ← gets (λ w. os.cursor w.base)
    elim opened [
      | err e ↦ pure (eio, dh)
      | ok _ ↦ (do
        modify_mem (λ m. record m { cursors = m.cursors + 1 })
        path ← buffer_path os dh.attr_ddk
        reply ← gets (λ w. os.cursor_set w.base (dentry path))
        elim reply [
          | ok ddd ↦ pure (
            if elim (dh.locator) [ none ↦ false | some text ↦ same_text path text ]
                then success
                else eio,
            record dh { dbc = some (some (dentry path)); attr_ddd = ddd },
          )
          | err e ↦ pure (
            elim e [ not_found ↦ enoent | buffer_small ↦ enoent | _ ↦ eio ],
            record dh { dbc = some none },
          )
        ])
    ]

  unfoldable pub dbfs_dopen : Text → M os (Code × Option Handle)
  dbfs_dopen locator = do
    created ← dbfs_createhandle os locator
    elim created [
      | none ↦ pure (enomem, none)
      | some blank_dh ↦ (do
        (error, dh) ← dbfs_cursorset (record blank_dh {
          mh_interface = mangoo_directory_interface;
          mh_fvector = dbfs_directory_vector;
        })
        elim error [
          | success ↦ pure (success, some dh)
          | e ↦ (do dbfs_freehandle os dh; pure (e, none))
        ])
    ]

  unfoldable pub dbfs_closedir : Handle → M os Code
  unfolding dbfs_freehandle
  dbfs_closedir dh = do dbfs_freehandle os dh; pure success

  unfoldable pub dbfs_deld : Handle → M os (Code × Handle)
  dbfs_deld dh = do
    (error, dh') ← dbfs_cursorset dh
    elim error [
      | success ↦ (do
        reply ← cursor_get_next dh'
        elim reply [
          | err e ↦ pure (elim e [ not_found ↦ success | _ ↦ eio ], dh')
          | ok entry ↦ elim (dh'.locator) [
            | none ↦ undefined_behaviour
            | some locator ↦ pure (deld_verdict locator entry, advance dh' dh'.ddk_size entry)
          ]
        ])
      | e ↦ pure (e, dh')
    ]
