-- ===== src/Tests/Pages.antt =====
-- The theorems on listings that take several calls, and on a key buffer that is moved, at concrete
-- inputs.
use mangoo.Base.{
  ℕ, ◌≡◌, refl, true, false, some, List, [], ◌∷◌, ◌++◌, arith, replicate, length-replicate,
}
use mangoo.Types.{Entry, Handle, Code, success, dentry, key_size, dbfs_ddk_size}
use mangoo.System.{World, Platform, System, returns, undefined}
use mangoo.System.Laws.{HasMemory}
use mangoo.Compare.{dbfs_bt_compare, strcmp}
use mangoo.Dir.{is_root, dbfs_dopen, dbfs_closedir, entry_name, is_prefix, has_slash}
use mangoo.Dir.Read.{dbfs_readdir}
use mangoo.Dir.Readdir.{collect}
use mangoo.Dir.Listing.{Named, Walk, listing}
use mangoo.Dir.Dangling.{dbfs_readdir-dbfs_closedir}
use mangoo.Api.Store.{dbfs_store}
use mangoo.Fuse.{minus}
use mangoo.Fuse.Directory.{MfDir, mf_opendir, mf_readdir}
use mangoo.Fuse.Fill.{Item, fits, numbered}
use mangoo.Fuse.FirstPage.{dots}
use mangoo.Fuse.ReadPages.{Pages, last_page, full_page, read_pages, mf_opendir-read_pages}
use mangoo.Fuse.LostName.{mf_readdir_loses_name}
use mangoo.Tests.Memory.{lookup}
use mangoo.Tests.Memory.Cursor.{next}
use mangoo.Tests.Systems.{in_memory, desk, in_memory-IsOrdered, machine-HasMemory}
use mangoo.Tests.Directories.{
  world, path_a, path_a_x, path_ab, folder, file, behind_a, tree, a_found, a_ne_root, Walk-a,
  one_name, listed_a,
}

-- "/a" has the names "x" and "b".
listing_a : listing path_a false behind_a ≡ listed_a
unfolding listing is_root strcmp has_slash entry_name is_prefix
listing_a = refl

-- Two names in each call: ".", ".." and then "b". The name "x" is left out.
abbrev left_b : List Named
left_b = (b'b' ∷ [], 1) ∷ []

two-Pages : Pages 2 2 (dots ++ listing path_a false behind_a) (dots ++ left_b)
two-Pages =
    rw listing_a (full_page 1 dots left_b left_b one_name 1 refl (last_page left_b (omega arith)))

mf_opendir-read_pages_example :
    (dir : MfDir (List Item)) × (u : World (List Entry)) × (mf_opendir desk
        (some (dbfs_store desk))
        []
        path_a
        (world tree)
      ≡ returns ((minus success, some dir), u))
    × (read_pages desk 3 2 2 0 dir u ≡ returns (numbered 0 (dots ++ left_b), u))
    × (u.base ≡ tree)
mf_opendir-read_pages_example =
    mf_opendir-read_pages desk in_memory-IsOrdered machine-HasMemory (λ old new. refl) 3 2 2 path_a
      folder behind_a (dots ++ left_b) (world tree) (λ e. absurd (cc)) a_ne_root a_found Walk-a
      (omega arith) (omega arith) two-Pages

-- "x" is refused by the first call, and the second one goes on with "b".
mf_readdir_loses_name_example :
    (dir dir' dir'' : MfDir (List Item)) × (u : World (List Entry)) × (mf_opendir desk
        (some (dbfs_store desk))
        []
        path_a
        (world tree)
      ≡ returns ((minus success, some dir), u))
    × (mf_readdir desk 3 (fits 2) [] 0 dir u ≡ returns ((minus success, dir'), u))
    × (dir'.buf ≡ numbered 0 dots)
    × (mf_readdir desk 3 (fits 1) [] 1 dir' u ≡ returns ((minus success, dir''), u))
    × (dir''.buf ≡ numbered 2 ((b'b' ∷ [], 1) ∷ []))
mf_readdir_loses_name_example =
    mf_readdir_loses_name desk in_memory-IsOrdered machine-HasMemory (λ old new. refl) 3 1 path_a
      one_name 1 [] ((b'b' ∷ [], 1) ∷ []) folder behind_a (world tree) (λ e. absurd (cc)) a_ne_root
      a_found Walk-a (omega arith) listing_a (omega arith)

-- A machine where realloc always moves.
abbrev mover : Platform
mover = record {
  malloc = λ size. true;
  realloc_moves = λ old new. true;
  fresh_block = λ ino offset. replicate 4096 0xaa;
  time = 1700000000;
  geteuid = 1000;
  getegid = 1000;
}

abbrev moving_desk : System
moving_desk = record { berkeley = in_memory; platform = mover }

mover-HasMemory : HasMemory mover
mover-HasMemory = record {
  malloc_succeeds = λ size. refl;
  length-fresh_block = λ ino offset. length-replicate {A = ℕ} 4096 0xaa;
}

Walk-moving : Walk moving_desk tree (dentry path_a) behind_a
unfolding lookup next dbfs_bt_compare strcmp
Walk-moving = (refl, (refl, refl))

-- "/a/x" is longer than "/a".
dbfs_readdir-dbfs_closedir_example :
    (dh dh' : Handle) × (u : World (List Entry)) × (c : Code) × (names : List Named) × (dbfs_dopen
        moving_desk path_a
        (world tree)
      ≡ returns ((success, some dh), u))
    × (dbfs_readdir moving_desk collect 3 dh [] u ≡ returns ((c, dh', names), u))
    × (dbfs_closedir moving_desk dh' u ≡ undefined)
unfolding key_size dbfs_ddk_size
dbfs_readdir-dbfs_closedir_example =
    dbfs_readdir-dbfs_closedir moving_desk collect 2 path_a folder (dentry path_a_x, file)
      ((dentry path_ab, file) ∷ []) [] (world tree) in_memory-IsOrdered mover-HasMemory a_found
      Walk-moving (omega arith) (omega arith) refl
