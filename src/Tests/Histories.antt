-- ===== src/Tests/Histories.antt =====
-- The theorem on the calls of a program at a concrete sequence of calls.
use mangoo.Base.{◌≡◌, refl, List, [], ◌∷◌, arith}
use mangoo.Types.{Text, Entry, success, mangoo_data, DentryData, Handle, dentry}
use mangoo.System.{World, Memory, returns}
use mangoo.Stream.Content.{HasBlocks}
use mangoo.Stream.Interface.{dbfs_write}
use mangoo.Attr.{dbfs_create_attr}
use mangoo.Dbfs.{dbfs_create, next_inode}
use mangoo.Whole.Reach.{Reach, here, next, creates, writes, Reach-HasBlocks}
use mangoo.Fuse.Data.{stream_handle}
use mangoo.Tests.Memory.{lookup, put}
use mangoo.System.{returns}
use mangoo.Stream.RoundTrip.{dbfs_read-write}
use mangoo.Tests.Systems.{in_memory-IsReliable, desk, in_memory-IsStore, machine-HasMemory}

abbrev no_memory : Memory
no_memory = record { handles = 0; keys = 0; locators = 0; cursors = 0 }

abbrev empty : World (List Entry)
empty = record { base = []; last_inode = 9; mem = no_memory }

abbrev path_a : Text
path_a = b'/' ∷ b'a' ∷ []

empty-HasBlocks : HasBlocks desk []
unfolding lookup
empty-HasBlocks = record { whole = λ ino offset c e. absurd (cc) }

abbrev file_a : DentryData
file_a = record {
  ddd_type = mangoo_data;
  ddd_mode = 0o644;
  ddd_ino = 9;
  ddd_size = 0;
  ddd_mtime = 1700000000;
  ddd_atime = 1700000000;
  ddd_uid = 1000;
  ddd_gid = 1000;
}

abbrev created : World (List Entry)
created = record empty { base = (dentry path_a, file_a) ∷ []; last_inode = 10 }

create_run : dbfs_create desk path_a 0o644 mangoo_data empty ≡ returns (success, created)
unfolding dbfs_create next_inode dbfs_create_attr put
create_run = refl

created-HasBlocks : HasBlocks desk created.base
unfolding lookup
created-HasBlocks = record { whole = λ ino offset c e. absurd (cc) }

-- Four bytes across the end of the first block.
written :
    (dh' : Handle) × (w' : World (List Entry)) × (dbfs_write desk
        (stream_handle path_a file_a)
        (1 ∷ 2 ∷ 3 ∷ 4 ∷ [])
        4
        4094
        created
      ≡ returns ((success, 4, dh'), w'))
written =
    let (dh', w', run, _, _, _, _) =
      dbfs_read-write desk in_memory-IsStore in_memory-IsReliable machine-HasMemory
        (stream_handle path_a file_a) path_a (1 ∷ 2 ∷ 3 ∷ 4 ∷ []) 4094 created refl
        created-HasBlocks (omega arith) in
    (dh', w', run)

history : Reach desk empty (written.1)
history = next (next here (creates path_a 0o644 mangoo_data success create_run)) (
    writes (stream_handle path_a file_a) (1 ∷ 2 ∷ 3 ∷ 4 ∷ []) 4 4094 (success, 4, written.0)
      (omega arith) (written.2))

-- A file is created and bytes are written into it.
Reach-HasBlocks_example : HasBlocks desk (written.1.base)
Reach-HasBlocks_example =
    Reach-HasBlocks desk in_memory-IsStore machine-HasMemory history empty-HasBlocks
