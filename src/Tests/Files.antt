-- ===== src/Tests/Files.antt =====
-- The theorems on files and directories over the FUSE file system at concrete paths.
use mangoo.Base.{ℕ, ◌≡◌, refl, some, List, [], ◌∷◌, arith}
use mangoo.Fuse.Attributes.{by_type, stat_of}
use mangoo.Fuse.Changes.{mf_truncate-mf_getattr}
use mangoo.Types.{
  ok, DentryData, zero_dentry, mangoo_data, Text, Entry, dentry, err, not_found, success, Handle,
}
use mangoo.System.{World, returns}
use mangoo.Api.Store.{dbfs_store}
use mangoo.Stream.Content.{HasBlocks, bytes_from}
use mangoo.Fuse.{minus, counted, mf_create, mf_write, mf_read, mf_getattr, mf_truncate}
use mangoo.Fuse.Data.{HasEnvironment}
use mangoo.Fuse.NewFile.{mf_create-mf_write}
use mangoo.Compare.{strcmp}
use mangoo.Tests.Memory.{lookup}
use mangoo.Tests.Systems.{desk, in_memory-IsStore, in_memory-IsReliable, machine-HasMemory}

abbrev empty : World (List Entry)
empty = record {
  base = [];
  last_inode = 9;
  mem = record { handles = 0; keys = 0; locators = 0; cursors = 0 };
}

abbrev path_a : Text
path_a = b'/' ∷ b'a' ∷ []

a_missing : lookup [] (dentry path_a) ≡ err not_found
unfolding lookup
a_missing = refl

empty-HasBlocks : HasBlocks desk []
unfolding lookup
empty-HasBlocks = record { whole = λ ino offset c e. absurd (cc) }

desk-HasEnvironment : HasEnvironment desk
desk-HasEnvironment = record { env_created = refl; home_opened = refl }

-- Two bytes across the end of the first block.
mf_create-mf_write_example :
    (dh dh' : Handle) × (u v : World (List Entry)) × (mf_create desk
        (some (dbfs_store desk))
        path_a
        0o644
        empty
      ≡ returns ((minus success, some dh), u))
    × (mf_write desk (some dh) (1 ∷ 2 ∷ []) 2 4095 u ≡ returns ((counted 2, some dh'), v))
    × (mf_read desk (some dh') 2 4095 v ≡ returns ((counted 2, 1 ∷ 2 ∷ []), v))
    × (mf_getattr desk (some (dbfs_store desk)) path_a v
        ≡ returns (
          (
            minus success,
            some (record {
              st_uid = 1000;
              st_gid = 1000;
              st_mtime = 1700000000;
              st_ctime = 1700000000;
              st_atime = 1700000000;
              st_size = 4097;
              st_mode = 0o100644;
              st_nlink = 1;
            }),
          ),
          v,
        ))
mf_create-mf_write_example =
    mf_create-mf_write desk in_memory-IsStore in_memory-IsReliable machine-HasMemory
      desk-HasEnvironment path_a 0o644 (1 ∷ 2 ∷ []) 4095 empty a_missing empty-HasBlocks
      (omega arith) (omega arith)

-- A file of ten bytes, as its record has it.
abbrev file_a : DentryData
file_a = record zero_dentry { ddd_type = mangoo_data; ddd_ino = 7; ddd_size = 10 }

abbrev one_file : World (List Entry)
one_file = record empty { base = (dentry path_a, file_a) ∷ [] }

a_found : lookup one_file.base (dentry path_a) ≡ ok file_a
unfolding lookup strcmp
a_found = refl

mf_truncate-mf_getattr_example :
    (s : List Entry) × (mf_truncate desk (some (dbfs_store desk)) 1 path_a 4 one_file
      ≡ returns (minus success, record one_file { base = s }))
    × (mf_getattr desk (some (dbfs_store desk)) path_a (record one_file { base = s })
        ≡ returns (
          by_type mangoo_data (record (stat_of file_a) { st_size = 4 }),
          record one_file { base = s },
        ))
    × ((ino offset n : ℕ)
        → bytes_from desk s ino offset n ≡ bytes_from desk one_file.base ino offset n)
mf_truncate-mf_getattr_example =
    mf_truncate-mf_getattr desk in_memory-IsStore in_memory-IsReliable machine-HasMemory 0 path_a 4
      file_a one_file a_found (omega arith)
