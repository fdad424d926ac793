-- ===== src/Tests/Programs.antt =====
-- The theorems on the programs at concrete arguments.
use mangoo.Base.{ℕ, ◌≡◌, refl, ap, ◌≢◌, none, some, List, [], ◌∷◌, ◌++◌, arith, length, get_or}
use mangoo.Types.{Text, Entry, Key, fsinfo, err, not_found, success, dbfs_root_ino, ok}
use mangoo.System.{World, Memory, returns, pure}
use mangoo.Api.Store.{dbfs_scheme, dbfs_store}
use mangoo.Dbfs.Mount.{mounted}
use mangoo.Mkdbfs.{root_path}
use mangoo.Mkdbfs
use mangoo.Mkdbfs.FirstFile.{first_fsinfo}
use mangoo.Fuse.{minus, mf_getattr}
use mangoo.Fuse.Start.{FuseMain, main, split_url, main_refuses, main_lem, colon}
use mangoo.Fuse.NewStore.{mkdbfs-mf_getattr}
use mangoo.Tests.Memory.{lookup}
use mangoo.Tests.Systems.{
  desk, in_memory-IsStore, in_memory-IsReliable, in_memory-IsOpenable, machine-HasMemory,
}

abbrev no_memory : Memory
no_memory = record { handles = 0; keys = 0; locators = 0; cursors = 0 }

abbrev world : List Entry → World (List Entry)
world s = record { base = s; last_inode = 0; mem = no_memory }

-- "mangoofuse", cut to its first letter
abbrev progname : Text
progname = b'm' ∷ []

-- "/s:1", a file name with a colon
abbrev rl : Text
rl = b'/' ∷ b's' ∷ b':' ∷ b'1' ∷ []

abbrev mountpoint : Text
mountpoint = b'/' ∷ b'm' ∷ []

-- Ends with the number of its arguments.
abbrev counts : FuseMain desk
counts ms args = pure (length args)

-- "ext2"
abbrev ext2 : Text
ext2 = b'e' ∷ b'x' ∷ b't' ∷ b'2' ∷ []

ext2_plain : split_url ext2 ≡ none
unfolding split_url
ext2_plain = refl

dbfs_plain : split_url dbfs_scheme ≡ none
unfolding split_url
dbfs_plain = refl

e_ne_d : let e : ℕ = 101 in e ≢ 100
e_ne_d h = omega arith

ext2_ne_dbfs : ext2 ≢ dbfs_scheme
ext2_ne_dbfs e = e_ne_d (ap (λ l. get_or l 0 0) e)

main_refuses_example :
    (main desk counts (progname ∷ []) (world []) ≡ returns (1, world []))
    × (main desk counts (progname ∷ rl ∷ []) (world []) ≡ returns (1, world []))
    × (main desk counts (progname ∷ dbfs_scheme ∷ mountpoint ∷ []) (world [])
        ≡ returns (1, world []))
    × (main desk counts (progname ∷ (ext2 ++ (colon ∷ rl)) ∷ mountpoint ∷ []) (world [])
        ≡ returns (1, world []))
main_refuses_example =
    main_refuses desk counts progname rl mountpoint dbfs_scheme ext2 rl [] (world []) dbfs_plain
      ext2_plain ext2_ne_dbfs

new_store : lookup ((fsinfo, first_fsinfo) ∷ []) fsinfo ≡ ok first_fsinfo
unfolding lookup
new_store = refl

main_lem_example :
    main desk counts
      (progname ∷ (dbfs_scheme ++ (colon ∷ rl)) ∷ mountpoint ∷ [])
      (world ((fsinfo, first_fsinfo) ∷ []))
    ≡ returns (
      2,
      mounted desk in_memory-IsStore in_memory-IsReliable in_memory-IsOpenable machine-HasMemory
          (world ((fsinfo, first_fsinfo) ∷ []))
          first_fsinfo,
    )
main_lem_example =
    main_lem desk counts in_memory-IsStore in_memory-IsReliable in_memory-IsOpenable
      machine-HasMemory progname rl mountpoint [] (world ((fsinfo, first_fsinfo) ∷ [])) first_fsinfo
      new_store

nothing : (k : Key) → lookup [] k ≡ err not_found
unfolding lookup
nothing k = refl

mkdbfs-mf_getattr_example :
    (s t : World (List Entry)) × (Mkdbfs.main desk (progname ∷ rl ∷ []) (world []) ≡ returns (0, s))
    × (main desk counts (progname ∷ (dbfs_scheme ++ (colon ∷ rl)) ∷ mountpoint ∷ []) s
        ≡ counts (some (dbfs_store desk)) (progname ∷ mountpoint ∷ []) t)
    × (mf_getattr desk (some (dbfs_store desk)) root_path t
        ≡ returns (
          (
            minus success,
            some (record {
              st_uid = 1000;
              st_gid = 1000;
              st_mtime = 1700000000;
              st_ctime = 1700000000;
              st_atime = 1700000000;
              st_size = 0;
              st_mode = 0o040644;
              st_nlink = 2;
            }),
          ),
          t,
        ))
    × (t.last_inode ≡ dbfs_root_ino)
mkdbfs-mf_getattr_example =
    mkdbfs-mf_getattr desk in_memory-IsStore in_memory-IsReliable in_memory-IsOpenable
      machine-HasMemory counts progname rl mountpoint [] (world []) nothing
