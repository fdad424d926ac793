-- ===== src/Tests/Inodes.antt =====
-- The theorems on creating, mounting and formatting at concrete inputs.
use mangoo.Base.{ℕ, ◌≡◌, refl, ◌∙◌, ◌≢◌, some, List, [], ◌∷◌, arith}
use mangoo.Types.{
  Text, Key, Entry, ok, err, not_found, success, fsinfo, dentry, DentryData, zero_dentry,
  FsinfoData, mangoo_container, mangoo_data, dbfs_root_ino, mangoo_attr_interface, dbfs_attr_vector,
}
use mangoo.System.{World, Memory, returns}
use mangoo.Handle.Life.{fresh_handle, plus_handle}
use mangoo.Attr.{new_dentry}
use mangoo.Attr.Interface.{dbfs_aopen}
use mangoo.Mkdbfs.{mkdbfs, root_path, root_mode}
use mangoo.Mkdbfs.FirstFile.{mkdbfs-dbfs_create}
use mangoo.Dbfs.{dbfs_create, dbfs_initstore}
use mangoo.Dbfs.Create.{fsinfo_ne, dbfs_create-aopen}
use mangoo.Dbfs.Mount.{next_range, dbfs_initstore-create}
use mangoo.Dbfs.Inodes.{IsNumbered, IsNumbered-add}
use mangoo.Dbfs.Session.{Creation, create_all, dbfs_initstore-IsNumbered}
use mangoo.Compare.{strcmp}
use mangoo.Tests.Memory.{lookup, lookup-cons_self, lookup-cons_ne}
use mangoo.Tests.Systems.{
  desk, in_memory-IsStore, in_memory-IsReliable, in_memory-IsOpenable, machine-HasMemory,
}

abbrev no_memory : Memory
no_memory = record { handles = 0; keys = 0; locators = 0; cursors = 0 }

abbrev world : List Entry → ℕ → World (List Entry)
world s counter = record { base = s; last_inode = counter; mem = no_memory }

-- "/a" and "/z"
abbrev path_a : Text
path_a = b'/' ∷ b'a' ∷ []

abbrev path_z : Text
path_z = b'/' ∷ b'z' ∷ []

abbrev counter_of : ℕ → FsinfoData
counter_of n = record { dfd_lastino = n }

abbrev file_a : DentryData
file_a = record zero_dentry { ddd_type = 1; ddd_ino = 7 }

-- A store with its information only, and one with a file.
abbrev bare : List Entry
bare = (fsinfo, counter_of 8) ∷ []

abbrev one_file : List Entry
one_file = (dentry path_a, file_a) ∷ bare

missing : (k : Key) → lookup [] k ≡ err not_found
unfolding lookup
missing k = refl

bare_missing : (p : Text) → lookup bare (dentry p) ≡ err not_found
bare_missing p =
    lookup-cons_ne fsinfo (dentry p) (counter_of 8) [] (fsinfo_ne p) ∙ missing (dentry p)

bare-IsNumbered : IsNumbered desk bare 7
bare-IsNumbered = record {
  below = λ p ddd n g. absurd (cc (g, bare_missing p));
  distinct = λ p q d e n m g k same. absurd (cc (g, bare_missing p));
}

one_file-IsNumbered : IsNumbered desk one_file 8
one_file-IsNumbered =
    IsNumbered-add desk bare one_file path_a file_a (lookup-cons_self (dentry path_a) file_a bare)
      (λ p n. lookup-cons_ne (dentry path_a) (dentry p) file_a bare (λ e. n (cc e))) bare-IsNumbered

one_file-fsinfo : lookup one_file fsinfo ≡ ok (counter_of 8)
unfolding lookup
one_file-fsinfo = refl

z_missing : lookup one_file (dentry path_z) ≡ err not_found
unfolding lookup strcmp
z_missing = refl

abbrev files : List Creation
files = (path_z, 0o644, mangoo_data) ∷ (path_a, 0o755, mangoo_container) ∷ []

dbfs_initstore-IsNumbered_example :
    (t u v : World (List Entry)) × (dbfs_initstore desk path_z (world one_file 0)
      ≡ returns (success, t))
    × (create_all desk files t ≡ returns (tt, u))
    × (dbfs_initstore desk path_z u ≡ returns (success, v))
    × IsNumbered desk v.base v.last_inode
dbfs_initstore-IsNumbered_example =
    dbfs_initstore-IsNumbered desk in_memory-IsStore in_memory-IsReliable machine-HasMemory
      in_memory-IsOpenable path_z files (world one_file 0) (counter_of 8) one_file-fsinfo
      one_file-IsNumbered (omega arith) (omega arith)

mkdbfs-dbfs_create_example :
    (s t u : World (List Entry)) × (mkdbfs desk path_z (world [] 0) ≡ returns (0, s))
    × (dbfs_initstore desk path_z s ≡ returns (success, t))
    × (dbfs_create desk path_a 0o644 mangoo_data t ≡ returns (success, u))
    × (lookup u.base (dentry root_path)
        ≡ ok (new_dentry desk mangoo_container root_mode dbfs_root_ino))
    × (lookup u.base (dentry path_a) ≡ ok (new_dentry desk mangoo_data 0o644 dbfs_root_ino))
mkdbfs-dbfs_create_example =
    mkdbfs-dbfs_create desk in_memory-IsStore in_memory-IsReliable in_memory-IsOpenable
      machine-HasMemory path_z path_a 0o644 mangoo_data (world [] 0) missing (λ e. absurd (cc))

dbfs_initstore-create_example :
    (u v : World (List Entry)) × (dbfs_initstore desk path_z (world one_file 0)
      ≡ returns (success, u))
    × (dbfs_create desk path_z 0o644 mangoo_data u ≡ returns (success, v))
    × (lookup v.base (dentry path_z) ≡ ok (new_dentry desk mangoo_data 0o644 8))
    × (lookup v.base fsinfo ≡ ok (next_range (counter_of 8)))
dbfs_initstore-create_example =
    dbfs_initstore-create desk in_memory-IsStore in_memory-IsReliable in_memory-IsOpenable
      machine-HasMemory path_z path_z 0o644 mangoo_data (world one_file 0) (counter_of 8)
      one_file-fsinfo z_missing

dbfs_create-aopen_example :
    (w' : World (List Entry)) × (dbfs_create desk path_z 0o644 mangoo_data (world one_file 8)
      ≡ returns (success, w'))
    × (dbfs_aopen desk path_z w'
        ≡ returns (
          (
            success,
            some (record (fresh_handle path_z) {
              mh_interface = mangoo_attr_interface;
              mh_fvector = dbfs_attr_vector;
              attr_ddd = record {
                ddd_type = 1;
                ddd_mode = 0o644;
                ddd_ino = 8;
                ddd_size = 0;
                ddd_mtime = 1700000000;
                ddd_atime = 1700000000;
                ddd_uid = 1000;
                ddd_gid = 1000;
              };
            }),
          ),
          record w' { mem = plus_handle w'.mem 0 },
        ))
    × (w'.last_inode ≡ 9)
    × ((k : Key) → dentry path_z ≢ k → lookup w'.base k ≡ lookup one_file k)
dbfs_create-aopen_example =
    dbfs_create-aopen desk in_memory-IsStore in_memory-IsReliable machine-HasMemory path_z 0o644
      mangoo_data (world one_file 8) z_missing
