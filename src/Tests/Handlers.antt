-- ===== src/Tests/Handlers.antt =====
-- The theorems on the FUSE handlers at concrete inputs.
use mangoo.Base.{ℕ, ◌≡◌, refl, ◌≢◌, none, some, List, [], ◌∷◌, arith}
use mangoo.Types.{
  block, Handle, Reply, Value, Text, Key, Entry, DbError, ok, err, other_db, success, enoent,
  dentry, DentryData, zero_dentry, not_found,
}
use mangoo.System.{PutFlag, overwrite, no_overwrite, World, Memory, BerkeleyDb, System, returns}
use mangoo.System.Laws.{IsStore}
use mangoo.Handle.Life.{plus_handle, leaked}
use mangoo.Api.Store.{dbfs_store}
use mangoo.Fuse.{mf_open, mf_read, mf_write, counted, minus, mf_getattr, mf_chmod}
use mangoo.Stream.Content.{HasBlocks}
use mangoo.Fuse.Data.{HasEnvironment, mf_write-mf_read}
use mangoo.Fuse.Attributes.{
  by_type, stat_of, mf_getattr_lem, mf_getattr_missing, mf_chmod_lem, mf_chmod_refused,
}
use mangoo.Tests.Memory.{lookup, put, lookup-cons_self, lookup-cons_ne}
use mangoo.Tests.Systems.{
  desk, in_memory, machine, in_memory-IsStore, machine-HasMemory, in_memory-IsReliable,
}

abbrev no_memory : Memory
no_memory = record { handles = 0; keys = 0; locators = 0; cursors = 0 }

abbrev path_a : Text
path_a = b'/' ∷ b'a' ∷ []

abbrev file_a : DentryData
file_a = record zero_dentry { ddd_type = 1; ddd_ino = 7; ddd_mode = 0o644 }

abbrev world : List Entry → World (List Entry)
world s = record { base = s; last_inode = 8; mem = no_memory }

abbrev one_file : List Entry
one_file = (dentry path_a, file_a) ∷ []

one_file_found : lookup one_file (dentry path_a) ≡ ok file_a
one_file_found = lookup-cons_self (dentry path_a) file_a []

mf_getattr_lem_example :
    mf_getattr desk (some (dbfs_store desk)) path_a (world one_file)
    ≡ returns (by_type 1 (stat_of file_a), world one_file)
mf_getattr_lem_example =
    mf_getattr_lem desk machine-HasMemory path_a file_a (world one_file) one_file_found

mf_getattr_missing_example :
    mf_getattr desk (some (dbfs_store desk)) path_a (world [])
    ≡ returns ((minus enoent, none), leaked (world []))
unfolding lookup
mf_getattr_missing_example = mf_getattr_missing desk machine-HasMemory path_a (world []) refl

mf_chmod_lem_example :
    (s : List Entry) × (mf_chmod desk (some (dbfs_store desk)) path_a 0o600 (world one_file)
      ≡ returns
          (minus success, record (world one_file) { base = s; mem = plus_handle no_memory 0 }))
    × (lookup s (dentry path_a) ≡ ok (record file_a { ddd_mode = 0o600 }))
    × ((k : Key) → dentry path_a ≢ k → lookup s k ≡ lookup one_file k)
unfolding put
mf_chmod_lem_example =
    mf_chmod_lem desk machine-HasMemory path_a 0o600 file_a (world one_file) in_memory-IsStore
      one_file_found refl

-- A database that takes new records and refuses to overwrite one.
unfoldable refuse : List Entry → (k : Key) → Value k → PutFlag → Reply (Unit {0}) × List Entry
refuse s k v overwrite = (err (other_db 30), s)
refuse s k v no_overwrite = put s k v no_overwrite

abbrev add_only : BerkeleyDb
add_only = record in_memory { put = refuse }

abbrev locked : System
locked = record { berkeley = add_only; platform = machine }

refuse_self :
    (s : List Entry) (k : Key) (v : Value k) (f : PutFlag)
    → (refuse s k v f).0 ≡ ok tt
    → lookup ((refuse s k v f).1) k ≡ ok v
unfolding refuse
refuse_self s k v overwrite h = absurd (cc)
refuse_self s k v no_overwrite h = in_memory-IsStore.get-put_self s k v no_overwrite h

refuse_ne :
    (s : List Entry) (k j : Key) (v : Value k) (f : PutFlag)
    → k ≢ j
    → lookup ((refuse s k v f).1) j ≡ lookup s j
unfolding refuse
refuse_ne s k j v overwrite n = refl
refuse_ne s k j v no_overwrite n = in_memory-IsStore.get-put_ne s k j v no_overwrite n

refuse_failed :
    (s : List Entry) (k j : Key) (v : Value k) (f : PutFlag) (e : DbError)
    → (refuse s k v f).0 ≡ err e
    → lookup ((refuse s k v f).1) j ≡ lookup s j
unfolding refuse
refuse_failed s k j v overwrite e h = refl
refuse_failed s k j v no_overwrite e h = in_memory-IsStore.get-put_failed s k j v no_overwrite e h

add_only-IsStore : IsStore add_only
unfolding refuse
add_only-IsStore = record {
  get-put_self = refuse_self;
  get-put_ne = refuse_ne;
  get-put_failed = refuse_failed;
  put_exists = in_memory-IsStore.put_exists;
  get-del_self = in_memory-IsStore.get-del_self;
  get-del_failed = in_memory-IsStore.get-del_failed;
  get-del_ne = in_memory-IsStore.get-del_ne;
}

mf_chmod_refused_example :
    (s : List Entry) × (mf_chmod locked (some (dbfs_store locked)) path_a 0o600 (world one_file)
      ≡ returns (minus success, record (world one_file) { base = s }))
    × ((k : Key) → lookup s k ≡ lookup one_file k)
unfolding refuse
mf_chmod_refused_example =
    mf_chmod_refused locked machine-HasMemory path_a 0o600 file_a (other_db 30) (world one_file)
      add_only-IsStore one_file_found refl

no_block : (ino offset : ℕ) → lookup [] (block ino offset) ≡ err not_found
unfolding lookup
no_block ino offset = refl

one_file-HasBlocks : HasBlocks desk one_file
one_file-HasBlocks = record {
  whole = λ ino offset c e. absurd (
      cc (
        e,
        lookup-cons_ne (dentry path_a) (block ino offset) file_a [] (λ p. absurd (cc)),
        no_block ino offset,
      ));
}

desk-HasEnvironment : HasEnvironment desk
desk-HasEnvironment = record { env_created = refl; home_opened = refl }

-- Two bytes over the end of a block.
mf_write-mf_read_example :
    (dh dh' : Handle) × (u v : World (List Entry)) × (mf_open desk
        (some (dbfs_store desk))
        path_a
        (world one_file)
      ≡ returns ((minus success, some dh), u))
    × (mf_write desk (some dh) path_a 2 4095 u ≡ returns ((counted 2, some dh'), v))
    × (mf_read desk (some dh') 2 4095 v ≡ returns ((counted 2, path_a), v))
mf_write-mf_read_example =
    mf_write-mf_read desk machine-HasMemory in_memory-IsStore in_memory-IsReliable
      desk-HasEnvironment path_a file_a path_a 4095 (world one_file) one_file_found
      one_file-HasBlocks (omega arith) (omega arith)
