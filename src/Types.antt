-- ===== src/Types.antt =====
-- The enumerations of lang/c/include/mangoo.h, the keys and records of stores/dbfs/dbfs.h, and
-- the int codes that the functions return.
use mangoo.Base.{ℕ, ◌+◌, Option, List, length}

-- A C string, as its bytes before the terminating NUL.
abbrev pub Text : Type 0
Text = List ℕ

abbrev pub slash : ℕ
slash = b'/'

-- What a call of the database answers when it fails. `other_db` is any other of its codes.
pub data DbError : Type 0 where
  not_found key_exist buffer_small : DbError
  other_db : ℕ → DbError

-- A call of the database: 0 with what it returns, or an error.
pub data Reply {ℓ} (A : Type ℓ) : Type ℓ where
  ok : A → Reply A
  err : DbError → Reply A

-- The int that a function returns: 0, an errno value, a code of the database passed on
-- unchanged, or the non-zero result of a callback.
pub data Code : Type 0 where
  success enoent eio enomem einval enosys enotempty enobufs : Code
  db : DbError → Code
  callback : ℕ → Code

-- The enumerations are ints in C: the code casts stored numbers to them and has default branches.
abbrev pub MangooTypes : Type 0
MangooTypes = ℕ

abbrev pub mangoo_container : MangooTypes
mangoo_container = 0

abbrev pub mangoo_data : MangooTypes
mangoo_data = 1

abbrev pub MangooInterfaces : Type 0
MangooInterfaces = ℕ

abbrev pub mangoo_stream_interface : MangooInterfaces
mangoo_stream_interface = 0

abbrev pub mangoo_directory_interface : MangooInterfaces
mangoo_directory_interface = 1

abbrev pub mangoo_attr_interface : MangooInterfaces
mangoo_attr_interface = 2

pub data DbfsKeyTypes : Type 0 where
  kt_fsinfo kt_dentry kt_block : DbfsKeyTypes

-- struct dbfs_fsinfo_key, dbfs_dentry_key and dbfs_block_key: each begins with its type.
pub data Key : Type 0 where
  fsinfo : Key
  dentry : Text → Key
  block : ℕ → ℕ → Key

unfoldable pub key_type : Key → DbfsKeyTypes
key_type fsinfo = kt_fsinfo
key_type (dentry path) = kt_dentry
key_type (block ino offset) = kt_block

pub record DentryData : Type 0 where
  pub ddd_type : ℕ
  pub ddd_mode : ℕ
  pub ddd_ino : ℕ
  pub ddd_size : ℕ
  pub ddd_mtime : ℕ
  pub ddd_atime : ℕ
  pub ddd_uid : ℕ
  pub ddd_gid : ℕ

-- What calloc leaves in the structure.
abbrev pub zero_dentry : DentryData
zero_dentry = record {
  ddd_type = 0;
  ddd_mode = 0;
  ddd_ino = 0;
  ddd_size = 0;
  ddd_mtime = 0;
  ddd_atime = 0;
  ddd_uid = 0;
  ddd_gid = 0;
}

pub record FsinfoData : Type 0 where
  pub dfd_lastino : ℕ

-- The record that is stored under a key; a block is its bytes.
abbrev pub Value : Key → Type 0
Value fsinfo = FsinfoData
Value (dentry path) = DentryData
Value (block ino offset) = List ℕ

abbrev pub Entry : Type 0
Entry = (k : Key) × Value k

abbrev pub dbfs_root_ino : ℕ
dbfs_root_ino = 1

abbrev pub dbfs_blksize : ℕ
dbfs_blksize = 4096

-- sizeof(struct dbfs_dentry_key) + strlen(locator) + 1
unfoldable pub dbfs_ddk_size : Text → ℕ
dbfs_ddk_size locator = 4 + length locator + 1

-- The bytes that a key takes in the database, for a machine with 8-byte alignment.
unfoldable pub key_size : Key → ℕ
unfolding dbfs_ddk_size
key_size fsinfo = 4
key_size (dentry path) = dbfs_ddk_size path
key_size (block ino offset) = 24

unfoldable pub dbfs_init_dentry_key : Text → Key
dbfs_init_dentry_key path = dentry path

-- The tables of functions that mh_fvector may point to, and NULL.
pub data Fvector : Type 0 where
  null_vector dbfs_stream_vector dbfs_directory_vector dbfs_attr_vector : Fvector

-- The pointer attr_ddk: NULL, a buffer with a key in it, or an address that realloc has given up.
pub data KeyBuffer : Type 0 where
  null_buffer : KeyBuffer
  holds : Key → KeyBuffer
  dangling : KeyBuffer

-- struct dbfs_handle, with the struct mangoo_handle that it begins with. A cursor is the key it
-- stands on, none at the start.
pub record Handle : Type 0 where
  pub mh_interface : MangooInterfaces
  pub mh_fvector : Fvector
  pub dbc : Option (Option Key)
  pub locator : Option Text
  pub attr_ddk : KeyBuffer
  pub ddk_size : ℕ
  pub attr_ddd : DentryData
