-- ===== src/Tests/Streams.antt =====
-- The theorems on reads at the end of a file, on two handles and on two files at concrete inputs.
use mangoo.Base.{ℕ, ◌≤◌, ◌<◌, ◌≡◌, refl, ◌≢◌, some, List, [], ◌∷◌, arith}
use mangoo.Types.{
  Text, Key, Entry, ok, err, not_found, success, dentry, block, DentryData, zero_dentry, Handle,
}
use mangoo.System.{World, Memory, returns, undefined}
use mangoo.Stream.Interface.{dbfs_read, dbfs_write}
use mangoo.Stream.Content.{HasBlocks, bytes_from}
use mangoo.Stream.Read.{last_error}
use mangoo.Stream.Bounds.{dbfs_read_bounds, dbfs_read_wraps}
use mangoo.Stream.Handles.{dbfs_write-stale_handle}
use mangoo.Stream.Isolation.{dbfs_write-IsNumbered}
use mangoo.Dbfs.Inodes.{IsNumbered, IsNumbered-add}
use mangoo.Fuse.{mf_read, counted}
use mangoo.Fuse.Data.{HasEnvironment, stream_handle, mf_read_past_end}
use mangoo.Compare.{strcmp}
use mangoo.Tests.Memory.{lookup, lookup-cons_self, lookup-cons_ne}
use mangoo.Tests.Systems.{desk, in_memory-IsStore, in_memory-IsReliable, machine-HasMemory}

abbrev no_memory : Memory
no_memory = record { handles = 0; keys = 0; locators = 0; cursors = 0 }

abbrev world : List Entry → World (List Entry)
world s = record { base = s; last_inode = 9; mem = no_memory }

abbrev path_a : Text
path_a = b'/' ∷ b'a' ∷ []

abbrev path_z : Text
path_z = b'/' ∷ b'z' ∷ []

abbrev file_of : ℕ → ℕ → DentryData
file_of ino size = record zero_dentry { ddd_type = 1; ddd_ino = ino; ddd_size = size }

abbrev handle_of : ℕ → Handle
handle_of size = stream_handle path_a (file_of 7 size)

missing : (k : Key) → lookup [] k ≡ err not_found
unfolding lookup
missing k = refl

empty-HasBlocks : HasBlocks desk []
empty-HasBlocks = record { whole = λ ino offset c e. absurd (cc (e, missing (block ino offset))) }

-- A hundred bytes are asked for at 4 of 10.
dbfs_read_bounds_example :
    (dbfs_read desk (handle_of 10) 100 4 (world [])
      ≡ returns (
        record {
          error = last_error desk [] 7 4 6 success;
          bytes = bytes_from desk [] 7 4 6;
          count = 6;
        },
        world [],
      ))
    × (6 ≤ 100)
    × (10 ≤ 10)
dbfs_read_bounds_example =
    dbfs_read_bounds desk (handle_of 10) 100 4 (world []) in_memory-IsReliable empty-HasBlocks
      (omega arith) (omega arith) (omega arith)

-- (size_t)-1 bytes from the fourth one on
dbfs_read_wraps_example :
    dbfs_read desk (handle_of 10) 18446744073709551615 4 (world []) ≡ undefined
dbfs_read_wraps_example =
    dbfs_read_wraps desk (handle_of 10) 18446744073709551615 4 (world []) in_memory-IsReliable
      (omega arith) (omega arith) (omega arith) (omega arith)

desk-HasEnvironment : HasEnvironment desk
desk-HasEnvironment = record { env_created = refl; home_opened = refl }

mf_read_past_end_example :
    mf_read desk (some (handle_of 10)) 5 11 (world []) ≡ returns ((counted 5, []), world [])
mf_read_past_end_example =
    mf_read_past_end desk (handle_of 10) 5 11 (world []) desk-HasEnvironment refl (omega arith)
      (omega arith)

dbfs_write-stale_handle_example :
    (dh1' dh2' : Handle) × (u v : World (List Entry)) × (d e : DentryData) × (dbfs_write desk
        (handle_of 0)
        path_z
        2
        8
        (world [])
      ≡ returns ((success, 2, dh1'), u))
    × (lookup u.base (dentry path_a) ≡ ok d)
    × (10 ≤ d.ddd_size)
    × (dbfs_write desk (handle_of 0) path_a 2 0 u ≡ returns ((success, 2, dh2'), v))
    × (lookup v.base (dentry path_a) ≡ ok e)
    × (e.ddd_size < 10)
dbfs_write-stale_handle_example =
    dbfs_write-stale_handle desk in_memory-IsStore in_memory-IsReliable machine-HasMemory
      (handle_of 0) (handle_of 0) path_a path_z path_a 8 0 (world []) refl refl empty-HasBlocks
      (omega arith) (omega arith) (omega arith)

-- Two files, "/a" with the inode number 7 and "/z" with 8.
abbrev just_a : List Entry
just_a = (dentry path_a, file_of 7 4) ∷ []

abbrev two_files : List Entry
two_files = (dentry path_z, file_of 8 4) ∷ just_a

empty-IsNumbered : IsNumbered desk [] 7
empty-IsNumbered = record {
  below = λ p ddd n g. absurd (cc (g, missing (dentry p)));
  distinct = λ p q d e n m g k same. absurd (cc (g, missing (dentry p)));
}

just_a-IsNumbered : IsNumbered desk just_a 8
just_a-IsNumbered =
    IsNumbered-add desk [] just_a path_a (file_of 7 4)
      (lookup-cons_self (dentry path_a) (file_of 7 4) [])
      (λ p n. lookup-cons_ne (dentry path_a) (dentry p) (file_of 7 4) [] (λ e. n (cc e)))
      empty-IsNumbered

two_files-IsNumbered : IsNumbered desk two_files 9
two_files-IsNumbered =
    IsNumbered-add desk just_a two_files path_z (file_of 8 4)
      (lookup-cons_self (dentry path_z) (file_of 8 4) just_a)
      (λ p n. lookup-cons_ne (dentry path_z) (dentry p) (file_of 8 4) just_a (λ e. n (cc e)))
      just_a-IsNumbered

two_files-HasBlocks : HasBlocks desk two_files
two_files-HasBlocks = record {
  whole = λ ino offset c e. absurd (
      cc (
        e,
        lookup-cons_ne (dentry path_z) (block ino offset) (file_of 8 4) just_a (λ p. absurd (cc)),
        lookup-cons_ne (dentry path_a) (block ino offset) (file_of 7 4) [] (λ p. absurd (cc)),
        missing (block ino offset),
      ));
}

a_found : lookup two_files (dentry path_a) ≡ ok (file_of 7 4)
unfolding lookup strcmp
a_found = refl

z_found : lookup two_files (dentry path_z) ≡ ok (file_of 8 4)
unfolding lookup strcmp
z_found = refl

a_ne_root : path_a ≢ b'/' ∷ []
a_ne_root e = absurd (cc)

z_ne_root : path_z ≢ b'/' ∷ []
z_ne_root e = absurd (cc)

a_ne_z : path_a ≢ path_z
a_ne_z e = ground arith

dbfs_write-IsNumbered_example :
    (dh' : Handle) × (w' : World (List Entry)) × (dbfs_write desk
        (handle_of 4)
        path_z
        2
        4095
        (world two_files)
      ≡ returns ((success, 2, dh'), w'))
    × (lookup w'.base (dentry path_z) ≡ ok (file_of 8 4))
    × ((o n : ℕ) → bytes_from desk w'.base 8 o n ≡ bytes_from desk two_files 8 o n)
dbfs_write-IsNumbered_example =
    dbfs_write-IsNumbered desk in_memory-IsStore in_memory-IsReliable machine-HasMemory 9
      (handle_of 4) path_a path_z (file_of 7 4) (file_of 8 4) path_z 4095 (world two_files)
      two_files-IsNumbered a_ne_root z_ne_root a_ne_z a_found z_found refl refl two_files-HasBlocks
      (omega arith)
