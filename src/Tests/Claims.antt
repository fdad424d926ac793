-- ===== src/Tests/Claims.antt =====
-- The theorems at concrete inputs.
use mathlib.Core.Path.{subst}
use mangoo.Base.{ℕ, ◌≤◌, Ordering, ◌≡◌, refl, ◌≢◌, ◌↔◌, inl, inr, true, false, List, [], ◌∷◌, arith}
use mangoo.Types.{
  Text, Key, fsinfo, dentry, block, Entry, ok, err, not_found, success, enotempty, DentryData,
  zero_dentry, Handle,
}
use mangoo.System.{World, Memory, returns, running}
use mangoo.Compare.{dbfs_bt_compare, strcmp}
use mangoo.Compare.Order.{
  strcmp_refl, opposite, dbfs_bt_compare_total, dbfs_bt_compare_trans, key_cases,
}
use mangoo.Handle.Life.{fresh_handle, plus_handle, leaked, one_cursor}
use mangoo.Stream.{dbfs_readwrite}
use mangoo.Stream.Interface.{dbfs_read, dbfs_write}
use mangoo.Stream.Content.{HasBlocks, bytes_from}
use mangoo.Stream.Read.{last_error, dbfs_readwrite-read}
use mangoo.Stream.Written.{IsWritten}
use mangoo.Stream.Write.{all_written, dbfs_readwrite-write}
use mangoo.Stream.RoundTrip.{dbfs_read-write}
use mangoo.Attr.Interface.{dbfs_setsize}
use mangoo.Attr.Resize.{resized, dbfs_setsize-keeps_bytes}
use mangoo.Dir.{entry_name, skip_slashes, deld_verdict}
use mangoo.Dbfs.{dbfs_delete}
use mangoo.Dbfs.Delete.{dbfs_delete_file, dbfs_delete_empty_file}
use mangoo.Dbfs.Container.{HasNames, dbfs_delete_extended, dbfs_delete_wrong_record}
use mangoo.Tests.Memory.{lookup, lookup-cons_ne}
use mangoo.Tests.Memory.Cursor.{next}
use mangoo.Tests.Systems.{
  desk, in_memory-IsStore, in_memory-IsReliable, in_memory-IsOrdered, machine-HasMemory,
}

abbrev no_memory : Memory
no_memory = record { handles = 0; keys = 0; locators = 0; cursors = 0 }

abbrev world : List Entry → World (List Entry)
world s = record { base = s; last_inode = 2; mem = no_memory }

-- "/a", "/ab" and "/z"
abbrev path_a : Text
path_a = b'/' ∷ b'a' ∷ []

abbrev path_ab : Text
path_ab = b'/' ∷ b'a' ∷ b'b' ∷ []

abbrev path_z : Text
path_z = b'/' ∷ b'z' ∷ []

abbrev file_of : ℕ → DentryData
file_of size = record zero_dentry { ddd_type = 1; ddd_ino = 7; ddd_size = size }

HasBlocks-nil : HasBlocks desk []
unfolding lookup
HasBlocks-nil = record { whole = λ ino offset c e. absurd (cc) }

dbfs_bt_compare_total_example :
    ((dbfs_bt_compare fsinfo (dentry path_a) ≡ Ordering.eq) ↔ (fsinfo ≡ dentry path_a))
    × (dbfs_bt_compare (dentry path_a) fsinfo ≡ opposite (dbfs_bt_compare fsinfo (dentry path_a)))
dbfs_bt_compare_total_example = dbfs_bt_compare_total fsinfo (dentry path_a)

dbfs_bt_compare_trans_example : dbfs_bt_compare (dentry path_a) (block 7 4096) ≡ Ordering.lt
unfolding dbfs_bt_compare strcmp
dbfs_bt_compare_trans_example =
    dbfs_bt_compare_trans (dentry path_a) (dentry path_z) (block 7 4096) refl refl

dbfs_readwrite-read_example :
    dbfs_readwrite desk 7 [] 5 4094 true (world [])
    ≡ returns (
      record {
        error = last_error desk [] 7 4094 5 success;
        bytes = bytes_from desk [] 7 4094 5;
        count = 5;
      },
      world [],
    )
dbfs_readwrite-read_example =
    dbfs_readwrite-read desk in_memory-IsReliable 7 [] 5 4094 (world []) HasBlocks-nil (omega arith)

dbfs_readwrite-write_example :
    (s : List Entry) × (dbfs_readwrite desk 7 path_ab 3 4094 false (world [])
      ≡ returns (all_written desk 3, record (world []) { base = s }))
    × IsWritten desk [] s 7 4094 path_ab
dbfs_readwrite-write_example =
    dbfs_readwrite-write desk in_memory-IsStore in_memory-IsReliable machine-HasMemory 7 path_ab
      4094 (world []) HasBlocks-nil (omega arith)

abbrev handle_of : Text → DentryData → Handle
handle_of path ddd = record (fresh_handle path) { attr_ddd = ddd }

dbfs_read-write_example :
    (dh' : Handle) × (w' : World (List Entry)) × (dbfs_write desk
        (handle_of path_a (file_of 0))
        path_ab
        3
        4094
        (world [])
      ≡ returns ((success, 3, dh'), w'))
    × (dbfs_read desk dh' 3 4094 w'
        ≡ returns (record { error = success; bytes = path_ab; count = 3 }, w'))
    × (lookup w'.base (dentry path_a) ≡ ok dh'.attr_ddd)
    × (4097 ≤ dh'.attr_ddd.ddd_size)
    × (dh'.mh_fvector ≡ (fresh_handle path_a).mh_fvector)
dbfs_read-write_example =
    dbfs_read-write desk in_memory-IsStore in_memory-IsReliable machine-HasMemory
      (handle_of path_a (file_of 0)) path_a path_ab 4094 (world []) refl HasBlocks-nil (omega arith)

dbfs_setsize-keeps_bytes_example :
    (s : List Entry) × (dbfs_setsize desk 1 (handle_of path_a (file_of 10)) 3 (world [])
      ≡ returns
          ((success, resized (handle_of path_a (file_of 10)) 3), record (world []) { base = s }))
    × (lookup s (dentry path_a) ≡ ok (resized (handle_of path_a (file_of 10)) 3).attr_ddd)
    × ((ino offset n : ℕ) → bytes_from desk s ino offset n ≡ bytes_from desk [] ino offset n)
dbfs_setsize-keeps_bytes_example =
    dbfs_setsize-keeps_bytes desk in_memory-IsStore in_memory-IsReliable 0
      (handle_of path_a (file_of 10)) path_a 3 (world []) refl (omega arith)

a_ne_root : path_a ≢ b'/' ∷ []
a_ne_root e = absurd (cc)

abbrev one_file : ℕ → List Entry
one_file size = (dentry path_a, file_of size) ∷ []

dbfs_delete_file_example :
    (s : List Entry) × (dbfs_delete desk 1 path_a (world (one_file 10))
      ≡ returns (success, record (world (one_file 10)) { base = s; mem = plus_handle no_memory 0 }))
    × (lookup s (dentry path_a) ≡ err not_found)
    × ((k : Key) → dentry path_a ≢ k → lookup s k ≡ lookup (one_file 10) k)
unfolding lookup strcmp
dbfs_delete_file_example =
    dbfs_delete_file desk machine-HasMemory in_memory-IsStore in_memory-IsReliable 0 path_a
      (file_of 10) (world (one_file 10)) a_ne_root refl refl (omega arith) (omega arith)

dbfs_delete_empty_file_example : dbfs_delete desk 8 path_a (world (one_file 0)) ≡ running
unfolding lookup strcmp
dbfs_delete_empty_file_example =
    dbfs_delete_empty_file desk machine-HasMemory in_memory-IsStore in_memory-IsReliable 8 path_a
      (file_of 0) (world (one_file 0)) a_ne_root refl refl refl

abbrev a_folder : DentryData
a_folder = record zero_dentry { ddd_ino = 3 }

abbrev siblings : List Entry
siblings = (dentry path_ab, file_of 4) ∷ (dentry path_a, a_folder) ∷ []

missing : (q : Text) → lookup [] (dentry q) ≡ err not_found
unfolding lookup
missing q = refl

siblings-HasNames : HasNames desk in_memory-IsOrdered siblings path_a
siblings-HasNames q ddd e lt begins = elim (key_cases (dentry path_ab) (dentry q)) [
  | inl p ↦
      let p' : path_ab ≡ q = cc p in
      subst (λ r. entry_name path_a r ≢ []) p' (unfold entry_name skip_slashes in λ z. cc)
  | inr n ↦ elim (key_cases (dentry path_a) (dentry q)) [
    | inl p ↦ let p' : path_a ≡ q = cc p in absurd (cc (lt, p', strcmp_refl path_a))
    | inr m ↦ absurd (
        cc (
          e,
          lookup-cons_ne (dentry path_ab) (dentry q) (file_of 4) ((dentry path_a, a_folder) ∷ []) n,
          lookup-cons_ne (dentry path_a) (dentry q) a_folder [] m,
          missing q,
        ))
  ]
]

dbfs_delete_extended_example :
    dbfs_delete desk 1 path_a (world siblings)
    ≡ returns (enotempty, one_cursor (leaked (world siblings)))
unfolding lookup strcmp
dbfs_delete_extended_example =
    dbfs_delete_extended desk in_memory-IsOrdered machine-HasMemory 1 path_a b'b' [] a_folder
      (file_of 4) (world siblings) a_ne_root refl refl refl siblings-HasNames

abbrev neighbours : List Entry
neighbours = (dentry path_z, file_of 4) ∷ (dentry path_a, a_folder) ∷ []

dbfs_delete_wrong_record_example :
    (s : List Entry) × (dbfs_delete desk 1 path_a (world neighbours)
      ≡ returns (success, record (one_cursor (leaked (world neighbours))) { base = s }))
    × (lookup s (dentry path_z) ≡ err not_found)
    × (lookup s (dentry path_a) ≡ ok a_folder)
unfolding lookup strcmp next dbfs_bt_compare deld_verdict
dbfs_delete_wrong_record_example =
    dbfs_delete_wrong_record desk in_memory-IsOrdered machine-HasMemory 1 path_a a_folder
      (dentry path_z, file_of 4) (world neighbours) in_memory-IsStore in_memory-IsReliable a_ne_root
      refl refl refl refl refl
