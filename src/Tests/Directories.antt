-- ===== src/Tests/Directories.antt =====
-- The theorems on directories at concrete inputs.
use mangoo.Base.{◌≡◌, refl, ◌≢◌, inl, true, false, some, List, [], ◌∷◌, arith}
use mangoo.Types.{Text, Entry, ok, success, dentry, DentryData, zero_dentry, Handle}
use mangoo.System.{World, Memory, returns}
use mangoo.Compare.{dbfs_bt_compare, strcmp}
use mangoo.Dir.{is_root, dbfs_dopen, entry_name, skip_slashes, is_prefix, has_slash}
use mangoo.Dir.Read.{dbfs_readdir}
use mangoo.Dir.Listing.{Named, Walk, listing, offer}
use mangoo.Dir.Children.{Listed}
use mangoo.Dir.Readdir.{
  dbfs_readdir_lem, collect, dir_handle, dbfs_dopen-dbfs_readdir, dbfs_readdir_complete,
  dbfs_readdir_sound,
}
use mangoo.Tests.Memory.{lookup}
use mangoo.Tests.Memory.Cursor.{next}
use mangoo.Tests.Systems.{desk, in_memory-IsOrdered, machine-HasMemory}

abbrev no_memory : Memory
no_memory = record { handles = 0; keys = 0; locators = 0; cursors = 0 }

abbrev pub world : List Entry → World (List Entry)
world s = record { base = s; last_inode = 9; mem = no_memory }

-- "/", "/a", its file "/a/x" and its sibling "/ab"
abbrev path_root : Text
path_root = b'/' ∷ []

abbrev pub path_a : Text
path_a = b'/' ∷ b'a' ∷ []

abbrev pub path_a_x : Text
path_a_x = b'/' ∷ b'a' ∷ b'/' ∷ b'x' ∷ []

abbrev pub path_ab : Text
path_ab = b'/' ∷ b'a' ∷ b'b' ∷ []

abbrev pub folder : DentryData
folder = record zero_dentry { ddd_ino = 3 }

abbrev pub file : DentryData
file = record zero_dentry { ddd_type = 1; ddd_ino = 4 }

abbrev pub behind_a : List Entry
behind_a = (dentry path_a_x, file) ∷ (dentry path_ab, file) ∷ []

abbrev pub tree : List Entry
tree = (dentry path_root, folder) ∷ (dentry path_a, folder) ∷ behind_a

pub a_found : lookup tree (dentry path_a) ≡ ok folder
unfolding lookup strcmp
a_found = refl

x_found : lookup tree (dentry path_a_x) ≡ ok file
unfolding lookup strcmp
x_found = refl

ab_found : lookup tree (dentry path_ab) ≡ ok file
unfolding lookup strcmp
ab_found = refl

pub Walk-a : Walk desk tree (dentry path_a) behind_a
unfolding lookup next dbfs_bt_compare strcmp
Walk-a = (refl, (refl, refl))

Walk-root : Walk desk tree (dentry path_root) ((dentry path_a, folder) ∷ behind_a)
unfolding lookup next dbfs_bt_compare strcmp
Walk-root = (refl, (refl, (refl, refl)))

pub a_ne_root : path_a ≢ path_root
a_ne_root e = absurd (cc)

dbfs_dopen-dbfs_readdir_example :
    (dh dh' : Handle) × (u : World (List Entry)) × (dbfs_dopen desk path_a (world tree)
      ≡ returns ((success, some dh), u))
    × (dbfs_readdir desk collect 3 dh [] u
        ≡ returns (
          (
            (offer collect (listing path_a (is_root path_a) behind_a) []).0,
            dh',
            (offer collect (listing path_a (is_root path_a) behind_a) []).1,
          ),
          u,
        ))
    × (u.base ≡ tree)
dbfs_dopen-dbfs_readdir_example =
    dbfs_dopen-dbfs_readdir desk in_memory-IsOrdered machine-HasMemory collect 3 path_a folder
      behind_a [] (world tree) a_found Walk-a (omega arith)

-- The sibling "/ab" is listed in "/a", as "b".
dbfs_readdir_complete_example :
    (dh' : Handle) × (names : List Named) × (dbfs_readdir desk collect 3
        (dir_handle path_a folder)
        []
        (world tree)
      ≡ returns ((success, dh', names), world tree))
    × Listed (b'b' ∷ [], 1) names
unfolding entry_name skip_slashes has_slash
dbfs_readdir_complete_example =
    dbfs_readdir_complete desk in_memory-IsOrdered 3 path_a b'b' [] (b'b' ∷ []) folder file behind_a
      (world tree) a_ne_root Walk-a (omega arith) ab_found refl (λ e. absurd (cc)) refl

abbrev pub one_name : Text
one_name = b'x' ∷ []

abbrev pub listed_a : List Named
listed_a = (one_name, 1) ∷ (b'b' ∷ [], 1) ∷ []

readdir_a :
    (dh' : Handle) × (dbfs_readdir desk collect 3 (dir_handle path_a folder) [] (world tree)
      ≡ returns ((success, dh', listed_a), world tree))
unfolding offer collect listing is_root strcmp has_slash entry_name is_prefix
readdir_a =
    dbfs_readdir_lem desk collect 3 path_a folder behind_a [] (world tree) Walk-a (omega arith)

dbfs_readdir_sound_example :
    (entry : Text) × (ddd' : DentryData) × (lookup tree (dentry entry) ≡ ok ddd')
    × (is_prefix path_a entry ≡ true)
    × (entry_name path_a entry ≡ b'x' ∷ [])
    × (one_name ≢ [])
    × (has_slash (b'x' ∷ []) ≡ false)
    × (file.ddd_type ≡ ddd'.ddd_type)
dbfs_readdir_sound_example =
    dbfs_readdir_sound desk in_memory-IsOrdered 3 path_a (b'x' ∷ []) 1 folder behind_a readdir_a.0
      listed_a (world tree) a_ne_root Walk-a (omega arith) readdir_a.1 (inl refl)
