-- ===== src/Compare.antt =====
-- dbfs_bt_compare of stores/dbfs/dir.c, the order of the keys in the B-tree. Of a C comparison
-- result only the sign is kept.
pub mod Order
use mangoo.Base.{ℕ, compare, Ordering, [], ◌∷◌}
use mangoo.Types.{
  Text, Key, fsinfo, dentry, block, key_type, DbfsKeyTypes, kt_fsinfo, kt_dentry, kt_block,
}

-- strcmp: by the first bytes that differ, a prefix first.
unfoldable pub strcmp : Text → Text → Ordering
strcmp [] [] = Ordering.eq
strcmp [] (y ∷ ys) = Ordering.lt
strcmp (x ∷ xs) [] = Ordering.gt
strcmp (x ∷ xs) (y ∷ ys) = elim (compare x y) [
  | Ordering.lt ↦ Ordering.lt
  | Ordering.gt ↦ Ordering.gt
  | Ordering.eq ↦ strcmp xs ys
]

unfoldable pub dbfs_dentry_compare : Text → Text → Ordering
dbfs_dentry_compare path1 path2 = strcmp path1 path2

unfoldable pub dbfs_block_compare : ℕ → ℕ → ℕ → ℕ → Ordering
dbfs_block_compare ino1 offset1 ino2 offset2 = elim (compare ino1 ino2) [
  | Ordering.gt ↦ Ordering.gt
  | Ordering.lt ↦ Ordering.lt
  | Ordering.eq ↦ compare offset1 offset2
]

-- The numbers of the enumerators.
unfoldable pub type_rank : DbfsKeyTypes → ℕ
type_rank kt_fsinfo = 0
type_rank kt_dentry = 1
type_rank kt_block = 2

unfoldable pub dbfs_bt_compare : Key → Key → Ordering
unfolding key_type type_rank dbfs_dentry_compare dbfs_block_compare
dbfs_bt_compare fsinfo fsinfo = Ordering.eq
dbfs_bt_compare (dentry path1) (dentry path2) = dbfs_dentry_compare path1 path2
dbfs_bt_compare (block ino1 offset1) (block ino2 offset2) =
    dbfs_block_compare ino1 offset1 ino2 offset2
dbfs_bt_compare key1 key2 = compare (type_rank (key_type key1)) (type_rank (key_type key2))
